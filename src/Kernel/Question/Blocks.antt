-- ===== src/Kernel/Question/Blocks.antt =====
-- The steps of the word-wise parser, one word or one byte at a time.
use mathlib.Core.Option
use mathlib.Core.List.{append_assoc, append-nil}
use doggy_dns.Common.{
  ℕ, zero, suc, ◌+◌, ◌-◌, ◌≤◌, ◌<◌, ◌≡◌, refl, ap, sym, ◌∙◌, ◌⊎◌, Option, none, some, List, [], ◌∷◌,
  ◌++◌, map, true, false, arith, ltb, leb, if◌then◌else◌, length, length-append, le_word, AllBytes,
  to_ascii_lowercase, Bool-cases, inl, inr,
}
use doggy_dns.Cache.Hash.{fnv1a_from, fnv_offset_basis}
use doggy_dns.Cache.Hash
use doggy_dns.Cache.Hash.Laws.{fnv1a_from-last, le_word-append_zeros}
use doggy_dns.Kernel.Memory.{Memory, HasBytes, bytes_at}
use doggy_dns.Kernel.Word.{fnv1a_word}
use doggy_dns.Kernel.Word.Marks.{has_zero, before_zero}
use doggy_dns.Kernel.Question.{NameEnd, max_qname_len}
use doggy_dns.Kernel.Question.Reference.{first_zero}
use doggy_dns.Kernel.Question.Scan.{ends_at, first_zero_hit, first_zero_miss}

pub length-bytes_at : (m : Memory) (p n : ℕ) → length (bytes_at m p n) ≡ n
length-bytes_at m p zero = refl
length-bytes_at m p (suc n) = ap suc (length-bytes_at m (p + 1) n)

pub bytes_at-AllBytes : (m : Memory) → HasBytes m → (p n : ℕ) → AllBytes (bytes_at m p n)
bytes_at-AllBytes m h p zero = tt
bytes_at-AllBytes m h p (suc n) = (h p, bytes_at-AllBytes m h (p + 1) n)

pub same_step : (hash word : ℕ) → fnv1a_word hash word ≡ Hash.fnv1a_word hash word
unfolding fnv1a_word Hash.fnv1a_word
same_step hash word = refl

zero_or_suc : (n : ℕ) → (n ≡ 0) ⊎ ((k : ℕ) × (n ≡ suc k))
zero_or_suc zero = inl refl
zero_or_suc (suc k) = inr (k, refl)

has_zero_here : (b : ℕ) (bs : List ℕ) → b ≡ 0 → has_zero (b ∷ bs) ≡ true
has_zero_here b bs e = ap (λ x. has_zero (x ∷ bs)) e

has_zero_later : (b k : ℕ) (bs : List ℕ) → b ≡ suc k → has_zero (b ∷ bs) ≡ has_zero bs
has_zero_later b k bs e = ap (λ x. has_zero (x ∷ bs)) e

before_zero_here : (b : ℕ) (bs : List ℕ) → b ≡ 0 → before_zero (b ∷ bs) ≡ []
before_zero_here b bs e = ap (λ x. before_zero (x ∷ bs)) e

before_zero_later : (b k : ℕ) (bs : List ℕ) → b ≡ suc k → before_zero (b ∷ bs) ≡ b ∷ before_zero bs
before_zero_later b k bs e = ap (λ x. before_zero (x ∷ bs)) e ∙ ap (λ x. x ∷ before_zero bs) (sym e)

-- The reference with the bytes `ys` of the name already read but not yet hashed.
unfoldable pub end_after :
    Memory → (hash : ℕ) → List ℕ → (pos name_len : ℕ) → Option ℕ → Option NameEnd
end_after m hash ys pos name_len none = none
end_after m hash ys pos name_len (some k) = some (
    ends_at (fnv1a_from hash (ys ++ (map to_ascii_lowercase (bytes_at m pos k) ++ 0 ∷ [])))
      (pos + k + 1) (name_len + k + 1))

module _ (m : Memory) (hash : ℕ) where
  abbrev pub onward : List ℕ → ℕ → ℕ → Option NameEnd
  onward ys pos n = end_after m hash ys pos n (first_zero m pos (max_qname_len - n))

  end_after-suc :
      (ys : List ℕ) (pos n : ℕ) (o : Option ℕ)
      → end_after m hash ys pos n (Option.map suc o)
        ≡ end_after m hash (ys ++ to_ascii_lowercase (m pos) ∷ []) (pos + 1) (n + 1) o
  unfolding end_after
  end_after-suc ys pos n none = refl
  end_after-suc ys pos n (some k) =
      let p_eq : pos + suc k + 1 ≡ pos + 1 + k + 1 = omega arith in
      let n_eq : n + suc k + 1 ≡ n + 1 + k + 1 = omega arith in rw (p_eq, n_eq, append_assoc)

  pub onward_over : (ys : List ℕ) (pos n : ℕ) → max_qname_len ≤ n → onward ys pos n ≡ none
  unfolding end_after first_zero
  onward_over ys pos n h = let none_left : max_qname_len - n ≡ 0 = omega arith in rw none_left

  onward_next :
      (ys : List ℕ) (pos n b : ℕ)
      → m pos ≡ suc b
      → onward ys pos n ≡ onward (ys ++ to_ascii_lowercase (m pos) ∷ []) (pos + 1) (n + 1)
  onward_next ys pos n b e = elim (Bool-cases (leb max_qname_len n)) [
    | inl over ↦
        onward_over ys pos n (ground arith)
        ∙ sym (onward_over (ys ++ to_ascii_lowercase (m pos) ∷ []) (pos + 1) (n + 1) (ground arith))
    | inr more ↦
        let one_more : max_qname_len - n ≡ suc (max_qname_len - (n + 1)) = ground arith in
        ap (λ l. end_after m hash ys pos n (first_zero m pos l)) one_more
        ∙ ap (λ o. end_after m hash ys pos n o)
            (first_zero_miss m pos (max_qname_len - (n + 1)) b e)
        ∙ end_after-suc ys pos n (first_zero m (pos + 1) (max_qname_len - (n + 1)))
  ]

  -- What the reference gives where the terminator stands at once.
  unfoldable pub stop : List ℕ → ℕ → ℕ → Option NameEnd
  stop ys pos n =
      if ltb max_qname_len (n + 1)
      then none
      else some (ends_at (fnv1a_from hash (ys ++ 0 ∷ [])) (pos + 1) (n + 1))

  onward_zero : (ys : List ℕ) (pos n : ℕ) → m pos ≡ 0 → onward ys pos n ≡ stop ys pos n
  unfolding end_after stop
  onward_zero ys pos n e = elim (Bool-cases (ltb max_qname_len (n + 1))) [
    | inl over ↦ rw over (onward_over ys pos n (ground arith))
    | inr more ↦
        let one_more : max_qname_len - n ≡ suc (max_qname_len - (n + 1)) = ground arith in
        let p_eq : pos + 0 + 1 ≡ pos + 1 = omega arith in
        let n_eq : n + 0 + 1 ≡ n + 1 = omega arith in
        rw (more, one_more, first_zero_hit m pos (max_qname_len - (n + 1)) e) (rw (p_eq, n_eq))
  ]

  -- Bytes that are not zero are read on.
  pub onward_skip :
      (r : ℕ) (ys : List ℕ) (pos n : ℕ)
      → has_zero (bytes_at m pos r) ≡ false
      → onward ys pos n ≡ onward (ys ++ map to_ascii_lowercase (bytes_at m pos r)) (pos + r) (n + r)
  onward_skip zero ys pos n h =
      let p_eq : pos + 0 ≡ pos = omega arith in
      let n_eq : n + 0 ≡ n = omega arith in rw (p_eq, n_eq, append-nil)
  onward_skip (suc r) ys pos n h = elim (zero_or_suc (m pos)) [
    | inl e ↦ cc (has_zero_here (m pos) (bytes_at m (pos + 1) r) e)
    | inr (b, e) ↦
        let x = to_ascii_lowercase (m pos) in
        let p_eq : pos + suc r ≡ pos + 1 + r = omega arith in
        let n_eq : n + suc r ≡ n + 1 + r = omega arith in
        rw (p_eq, n_eq)
          (onward_next ys pos n b e
            ∙ onward_skip r (ys ++ x ∷ []) (pos + 1) (n + 1)
                (sym (has_zero_later (m pos) b (bytes_at m (pos + 1) r) e) ∙ h)
            ∙ ap (λ l. onward l (pos + 1 + r) (n + 1 + r))
                (append_assoc ys (x ∷ []) (map to_ascii_lowercase (bytes_at m (pos + 1) r))))
  ]

  -- The first zero byte ends the name.
  pub onward-stop :
      (r : ℕ) (ys : List ℕ) (pos n : ℕ)
      → has_zero (bytes_at m pos r) ≡ true
      → onward ys pos n ≡ (
          let k = length (before_zero (bytes_at m pos r)) in
          stop (ys ++ map to_ascii_lowercase (before_zero (bytes_at m pos r))) (pos + k) (n + k))
  onward-stop zero ys pos n h = cc
  onward-stop (suc r) ys pos n h = elim (zero_or_suc (m pos)) [
    | inl e ↦
        let p_eq : pos + 0 ≡ pos = omega arith in
        let n_eq : n + 0 ≡ n = omega arith in
        rw (before_zero_here (m pos) (bytes_at m (pos + 1) r) e)
          (rw (p_eq, n_eq, append-nil) (onward_zero ys pos n e))
    | inr (b, e) ↦
        let x = to_ascii_lowercase (m pos) in
        let k = length (before_zero (bytes_at m (pos + 1) r)) in
        let p_eq : pos + suc k ≡ pos + 1 + k = omega arith in
        let n_eq : n + suc k ≡ n + 1 + k = omega arith in
        rw (before_zero_later (m pos) b (bytes_at m (pos + 1) r) e) (
          rw (p_eq, n_eq)
            (onward_next ys pos n b e
              ∙ onward-stop r (ys ++ x ∷ []) (pos + 1) (n + 1)
                  (sym (has_zero_later (m pos) b (bytes_at m (pos + 1) r) e) ∙ h)
              ∙ ap (λ l. stop l (pos + 1 + k) (n + 1 + k))
                  (append_assoc ys (x ∷ [])
                    (map to_ascii_lowercase (before_zero (bytes_at m (pos + 1) r))))))
  ]

pub length-before_zero : (bs : List ℕ) → has_zero bs ≡ true → length (before_zero bs) < length bs
length-before_zero [] h = cc
length-before_zero (zero ∷ bs) h = omega arith
length-before_zero (suc b ∷ bs) h = omega (arith, length-before_zero bs h)

-- The hash of a name that ends within a block, its terminator included.
pub hash_of_last :
    (hash : ℕ) (bs : List ℕ)
    → length bs < 8
    → fnv1a_from hash (bs ++ 0 ∷ []) ≡ fnv1a_word hash (le_word bs)
hash_of_last hash bs h =
    fnv1a_from-last hash (bs ++ 0 ∷ []) (omega (arith, length-append bs (0 ∷ [])))
      (omega (arith, length-append bs (0 ∷ [])))
    ∙ ap (Hash.fnv1a_word hash) (le_word-append_zeros bs 1)
    ∙ sym (same_step hash (le_word bs))
