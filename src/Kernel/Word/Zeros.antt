-- ===== src/Kernel/Word/Zeros.antt =====
-- The zero test of a word finds its first zero byte, and the block mask keeps what stands before.
use doggy_dns.Common.{
  ℕ, zero, suc, ◌+◌, ◌-◌, ◌*◌, ◌/◌, ◌%◌, ◌^◌, ◌<◌, bit_and, ◌≡◌, ap, ◌∙◌, true, false, List, [],
  ◌∷◌, map, arith, length, AllBytes, le_word, to_ascii_lowercase,
}
use native.Mathlib.Nat.{div-div-eq-div-mul, pow-suc}
use doggy_dns.Common.Bits.{and_byte, and-le}
use doggy_dns.Kernel.Word.{zero_marks, zero_index, zero_index_from, block_before_terminator}
use doggy_dns.Kernel.Word.Lower.{lower_word-le_word, to_ascii_lowercase-lt, word-lt-span}
use doggy_dns.Kernel.Word.Marks.{
  has_zero, before_zero, marks, marks-lt-span, kept_lem, marks-cons_nonzero, above, above-lt-span,
  marks-cons_zero, lowest, lowest_zero, lowest_nonzero, marks-eq-zero,
}

record Found (bs : List ℕ) : Type 0 where
  marked : 0 < marks (length bs) (le_word bs)
  lowest_pos : 0 < lowest (length bs) (marks (length bs) (le_word bs))
  masked :
      bit_and
        (le_word (map to_ascii_lowercase bs))
        (lowest (length bs) (marks (length bs) (le_word bs)) - 1)
      ≡ le_word (map to_ascii_lowercase (before_zero bs))

-- In a word with a zero byte the mask of the lowest mark keeps the bytes before that byte.
found : (bs : List ℕ) → AllBytes bs → has_zero bs ≡ true → Found bs
found [] h e = cc
found (zero ∷ bs) h e =
    let n = length bs in
    let w = le_word bs in
    let high = le_word (map to_ascii_lowercase bs) in
    let marked_eq = marks-cons_zero n w (word-lt-span bs h.1) in
    let low = lowest_zero n (above n w) (above-lt-span n w) in
    record {
      marked = omega (arith, marked_eq);
      lowest_pos = rw (marked_eq, low) (omega arith);
      masked =
          rw (marked_eq, low)
            (omega (arith, and_byte 0 127 high 0 (omega arith) (omega arith), and-le high 0));
    }
found (suc b ∷ bs) h e =
    let n = length bs in
    let w = le_word bs in
    let z = marks n w in
    let rest = found bs h.1 e in
    let marked_eq = marks-cons_nonzero n (suc b) w (omega arith) h.0 (word-lt-span bs h.1) in
    let low = lowest_nonzero n z rest.marked (marks-lt-span n w) in
    let c = to_ascii_lowercase (suc b) in
    let high = le_word (map to_ascii_lowercase bs) in
    let less : 256 * lowest n z - 1 ≡ 255 + 256 * (lowest n z - 1) =
      omega (arith, rest.lowest_pos) in
    record {
      marked = omega (arith, marked_eq, rest.marked);
      lowest_pos = rw (marked_eq, low) (omega (arith, rest.lowest_pos));
      masked =
          rw (marked_eq, low, less)
            (and_byte c 255 high (lowest n z - 1) (to_ascii_lowercase-lt (suc b) h.0) (omega arith)
              ∙ rw (kept_lem c (to_ascii_lowercase-lt (suc b) h.0), rest.masked));
    }

module _ (bs : List ℕ) (len : length bs ≡ 8) (h : AllBytes bs) where
  -- The word-wise zero test answers whether one of the eight bytes is zero.
  pub zero_marks_of_none : has_zero bs ≡ false → zero_marks (le_word bs) ≡ 0
  unfolding zero_marks
  zero_marks_of_none e = rw len at (marks-eq-zero bs h e)

  pub zero_marks_of_some : has_zero bs ≡ true → 0 < zero_marks (le_word bs)
  unfolding zero_marks
  zero_marks_of_some e = rw len at ((found bs h e).marked)

  pub block_before_terminator_lem :
      has_zero bs ≡ true
      → block_before_terminator (le_word bs) ≡ le_word (map to_ascii_lowercase (before_zero bs))
  unfolding block_before_terminator
  block_before_terminator_lem e =
      rw (lower_word-le_word bs len h) (rw len at ((found bs h e).masked))

-- The scan over the bytes of a word meets its first zero.
low_byte : (w : ℕ) → bit_and w 0xFF ≡ w % 256
low_byte w =
    let split : w ≡ w % 256 + 256 * (w / 256) = omega arith in
    ap (λ x. bit_and x (255 + 256 * 0)) split
    ∙ omega (
      arith,
      and_byte (w % 256) 255 (w / 256) 0 (omega arith) (omega arith),
      kept_lem (w % 256) (omega arith),
      and-le (w / 256) 0,
    )

next_byte : (w i : ℕ) → w / 2 ^ ((i + 1) * 8) ≡ w / 2 ^ (i * 8) / 256
next_byte w i =
    let shift : (i + 1) * 8 ≡ suc (suc (suc (suc (suc (suc (suc (suc (i * 8)))))))) = omega arith in
    rw (shift, div-div-eq-div-mul w (2 ^ (i * 8)) 256)
      (ap (λ x. w / x) (omega (arith, pow-suc 2 (i * 8))))

zero_index_from_lem :
    (bs : List ℕ) (i w : ℕ)
    → AllBytes bs
    → has_zero bs ≡ true
    → w / 2 ^ (i * 8) ≡ le_word bs
    → zero_index_from (length bs) i w ≡ i + length (before_zero bs)
unfolding zero_index_from
zero_index_from_lem [] i w h e eq = cc
zero_index_from_lem (zero ∷ bs) i w h e eq =
    let low : bit_and (0 + 256 * le_word bs) 0xFF ≡ 0 =
      omega (arith, low_byte (0 + 256 * le_word bs)) in
    rw (eq, low) (omega arith)
zero_index_from_lem (suc b ∷ bs) i w h e eq =
    let low : bit_and (suc b + 256 * le_word bs) 0xFF ≡ suc b =
      omega (arith, low_byte (suc b + 256 * le_word bs)) in
    let rest = zero_index_from_lem bs (i + 1) w h.1 e (rw (next_byte w i, eq) (omega arith)) in
    rw (eq, low) (ground (arith, rest))

pub zero_index_lem :
    (bs : List ℕ)
    → length bs ≡ 8
    → AllBytes bs
    → has_zero bs ≡ true
    → zero_index (le_word bs) ≡ length (before_zero bs)
unfolding zero_index
zero_index_lem bs len h e =
    let counted = zero_index_from_lem bs 0 (le_word bs) h e (omega arith) in
    omega (arith, rw len at counted)
