-- ===== src/Kernel/Question/Scan.antt =====
-- The byte loop at the end of the frame, against the reference.
use mathlib.Core.Option
use mathlib.Core.List.{append_assoc, append-nil}
use native.Mathlib.Nat.{pow-suc}
use doggy_dns.Common.{
  ℕ, zero, suc, ◌+◌, ◌-◌, ◌*◌, ◌%◌, ◌^◌, ◌≤◌, ◌<◌, bit_or, ◌≡◌, refl, ap, sym, ◌∙◌, Option, none,
  some, List, [], ◌∷◌, ◌++◌, map, arith, ltb, leb, ◌==◌, length, length-append, le_word, AllBytes,
  IsByte, All-append, to_ascii_lowercase, span, Bool-cases, inl, inr,
}
use doggy_dns.Common.Bits.{or_byte, or-zero, zero-or}
use doggy_dns.Cache.Hash.Laws.{le_word-append_zeros}
use doggy_dns.Kernel.Memory.{Memory, HasBytes, Frame, bytes_at}
use doggy_dns.Kernel.Word.{fnv1a_word}
use doggy_dns.Kernel.Word.Lower.{to_ascii_lowercase-lt}
use doggy_dns.Kernel.Question.{Question, NameEnd, scan_bytes, last_word, read_fields, max_qname_len}
use doggy_dns.Kernel.Question.Reference.{first_zero}

-- A byte put above the bytes of a word is one more byte of it.
or-le_word :
    (ys : List ℕ) (b : ℕ)
    → AllBytes ys
    → bit_or (le_word ys) (b * span (length ys)) ≡ le_word (ys ++ b ∷ [])
or-le_word [] b h = omega (arith, zero-or (b * 1))
or-le_word (y ∷ ys) b h =
    let low : b * (256 * span (length ys)) ≡ 0 + 256 * (b * span (length ys)) = omega arith in
    rw low (
      omega (
        arith,
        or_byte y 0 (le_word ys) (b * span (length ys)) h.0 (omega arith),
        or-zero y,
        or-le_word ys b h.1,
      ))

span-pow : (n : ℕ) → 2 ^ (n * 8) ≡ span n
span-pow zero = refl
span-pow (suc n) =
    let shift : suc n * 8 ≡ suc (suc (suc (suc (suc (suc (suc (suc (n * 8)))))))) = omega arith in
    rw shift (omega (arith, pow-suc 2 (n * 8), span-pow n))

shift_fits : (i b : ℕ) → i < 8 → b < 256 → b * span i % 2 ^ 64 ≡ b * span i
shift_fits zero b p h = omega arith
shift_fits (suc zero) b p h = omega arith
shift_fits (suc (suc zero)) b p h = omega arith
shift_fits (suc (suc (suc zero))) b p h = omega arith
shift_fits (suc (suc (suc (suc zero)))) b p h = omega arith
shift_fits (suc (suc (suc (suc (suc zero))))) b p h = omega arith
shift_fits (suc (suc (suc (suc (suc (suc zero)))))) b p h = omega arith
shift_fits (suc (suc (suc (suc (suc (suc (suc zero))))))) b p h = omega arith
shift_fits (suc (suc (suc (suc (suc (suc (suc (suc i)))))))) b p h = absurd (omega arith)

-- The accumulated word of one more byte.
shifted_or :
    (ys : List ℕ) (i b : ℕ)
    → length ys ≡ i
    → i < 8
    → b < 256
    → AllBytes ys
    → bit_or (le_word ys) (b * 2 ^ (i * 8) % 2 ^ 64) ≡ le_word (ys ++ b ∷ [])
shifted_or ys i b len p hb h = rw (span-pow i, shift_fits i b p hb, ← len) (or-le_word ys b h)

pub first_zero_hit : (m : Memory) (p l : ℕ) → m p ≡ 0 → first_zero m p (suc l) ≡ some 0
unfolding first_zero
first_zero_hit m p l e = rw (e, first_zero)

pub first_zero_miss :
    (m : Memory) (p l b : ℕ)
    → m p ≡ suc b
    → first_zero m p (suc l) ≡ Option.map suc (first_zero m (p + 1) l)
unfolding first_zero
first_zero_miss m p l b e = rw (e, first_zero)

pub read_fields-none : (f : Frame) → read_fields f none ≡ none
unfolding read_fields
read_fields-none f = refl

abbrev pub ends_at : ℕ → ℕ → ℕ → NameEnd
ends_at hash pos name_len = record { hash = hash; pos = pos; name_len = name_len }

-- The reference from inside a block, of which `ys` was read.
unfoldable pub ending :
    Memory → (hash : ℕ) → List ℕ → (pos name_len : ℕ) → Option ℕ → Option NameEnd
ending m hash ys pos name_len none = none
ending m hash ys pos name_len (some k) = some (record {
  hash = fnv1a_word hash (le_word (ys ++ map to_ascii_lowercase (bytes_at m pos k)));
  pos = pos + k + 1;
  name_len = name_len + k + 1;
})

module _ (f : Frame) (bytes : HasBytes f.byte) (hash : ℕ) where
  abbrev pub rest_of : List ℕ → ℕ → ℕ → Option Question
  rest_of ys pos name_len =
      read_fields f
        (ending f.byte hash ys pos name_len (first_zero f.byte pos (max_qname_len - name_len)))

  -- A name whose terminator cannot have four bytes behind it is no question.
  pub too_short :
      (ys : List ℕ) (pos n : ℕ) (o : Option ℕ)
      → f.size < pos + 5
      → read_fields f (ending f.byte hash ys pos n o) ≡ none
  unfolding read_fields ending
  too_short ys pos n none h = refl
  too_short ys pos n (some k) h = ground arith

  ending-suc :
      (ys : List ℕ) (pos n : ℕ) (o : Option ℕ)
      → ending f.byte hash ys pos n (Option.map suc o)
        ≡ ending f.byte hash (ys ++ to_ascii_lowercase (f.byte pos) ∷ []) (pos + 1) (n + 1) o
  unfolding ending
  ending-suc ys pos n none = refl
  ending-suc ys pos n (some k) =
      let p_eq : pos + suc k + 1 ≡ pos + 1 + k + 1 = omega arith in
      let n_eq : n + suc k + 1 ≡ n + 1 + k + 1 = omega arith in rw (p_eq, n_eq, append_assoc)

  rest_over : (ys : List ℕ) (pos n : ℕ) → max_qname_len ≤ n → rest_of ys pos n ≡ none
  unfolding read_fields ending first_zero
  rest_over ys pos n h = let none_left : max_qname_len - n ≡ 0 = omega arith in rw none_left

  rest_zero :
      (ys : List ℕ) (pos n : ℕ)
      → n < max_qname_len
      → f.byte pos ≡ 0
      → rest_of ys pos n
        ≡ read_fields f (some (ends_at (fnv1a_word hash (le_word ys)) (pos + 1) (n + 1)))
  unfolding ending
  rest_zero ys pos n h e =
      let one_more : max_qname_len - n ≡ suc (max_qname_len - (n + 1)) = omega arith in
      let p_eq : pos + 0 + 1 ≡ pos + 1 = omega arith in
      let n_eq : n + 0 + 1 ≡ n + 1 = omega arith in
      rw (one_more, first_zero_hit f.byte pos (max_qname_len - (n + 1)) e)
        (rw (p_eq, n_eq, append-nil))

  rest_next :
      (ys : List ℕ) (pos n b : ℕ)
      → n < max_qname_len
      → f.byte pos ≡ suc b
      → rest_of ys pos n ≡ rest_of (ys ++ to_ascii_lowercase (f.byte pos) ∷ []) (pos + 1) (n + 1)
  rest_next ys pos n b h e =
      let one_more : max_qname_len - n ≡ suc (max_qname_len - (n + 1)) = omega arith in
      ap (λ l. read_fields f (ending f.byte hash ys pos n (first_zero f.byte pos l))) one_more
      ∙ ap (λ o. read_fields f (ending f.byte hash ys pos n o))
          (first_zero_miss f.byte pos (max_qname_len - (n + 1)) b e)
      ∙ ap (read_fields f)
          (ending-suc ys pos n (first_zero f.byte (pos + 1) (max_qname_len - (n + 1))))

  -- The byte loop finds what the reference finds, wherever the frame ends.
  pub scan_bytes_lem :
      (rounds i pos n : ℕ) (ys : List ℕ)
      → i + rounds ≡ 8
      → length ys ≡ i
      → AllBytes ys
      → f.size < pos + rounds
      → read_fields f (last_word hash (scan_bytes rounds f i (le_word ys) pos n)) ≡ rest_of ys pos n
  unfolding scan_bytes last_word
  scan_bytes_lem zero i pos n ys sum len h short =
      read_fields-none f
      ∙ sym (too_short ys pos n (first_zero f.byte pos (max_qname_len - n)) (omega arith))
  scan_bytes_lem (suc rounds) i pos n ys sum len h short =
      let byte = f.byte pos in
      let longer = ys ++ to_ascii_lowercase byte ∷ [] in
      let joined =
        shifted_or ys i (to_ascii_lowercase byte) len (omega arith)
          (to_ascii_lowercase-lt byte (bytes pos)) h in
      let later =
        scan_bytes_lem rounds (i + 1) (pos + 1) (n + 1) longer (omega arith)
          (omega (arith, length-append ys (to_ascii_lowercase byte ∷ [])))
          (All-append IsByte ys (to_ascii_lowercase byte ∷ []) h
            (to_ascii_lowercase-lt byte (bytes pos), tt))
          (omega arith) in
      elim (Bool-cases (leb max_qname_len n)) [
        | inl over ↦ rw over (read_fields-none f ∙ sym (rest_over ys pos n (ground arith)))
        | inr more ↦ elim (Bool-cases (ltb f.size (pos + 2))) [
          | inl tight ↦
              rw (more, tight)
                (read_fields-none f
                  ∙ sym (
                      too_short ys pos n (first_zero f.byte pos (max_qname_len - n))
                        (ground arith)))
          | inr roomy ↦ elim (Bool-cases (byte == 0)) [
            | inl stop ↦
                let e : byte ≡ 0 = ground arith in
                let nothing : to_ascii_lowercase byte ≡ 0 = ground arith in
                let same : le_word longer ≡ le_word ys =
                  ap (λ b. le_word (ys ++ b ∷ [])) nothing ∙ le_word-append_zeros ys 1 in
                rw (more, roomy, stop)
                  (rw (joined, same) (sym (rest_zero ys pos n (ground arith) e)))
            | inr go ↦
                rw (more, roomy, go, joined)
                  (later ∙ sym (rest_next ys pos n (byte - 1) (ground arith) (ground arith)))
          ]
        ]
      ]
