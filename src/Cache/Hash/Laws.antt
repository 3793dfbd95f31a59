-- ===== src/Cache/Hash/Laws.antt =====
-- The hash one block at a time.
use mathlib.Core.List.{append-nil}
use doggy_dns.Common.{
  ℕ, zero, suc, ◌/◌, ◌-◌, ◌≤◌, ◌<◌, ◌≡◌, refl, ap, sym, ◌∙◌, List, [], ◌∷◌, ◌++◌, Bool-cases, inl,
  inr, leb, arith, length, take, drop, le_word, length-append,
}
use doggy_dns.Cache.Hash.{zeros, padded, hash_tail, hash_chunks, fnv1a_word, fnv1a_from}

le_word-zeros : (n : ℕ) → le_word (zeros n) ≡ 0
le_word-zeros zero = refl
le_word-zeros (suc n) = omega (arith, le_word-zeros n)

-- Zero padding does not change a word.
pub le_word-append_zeros : (bs : List ℕ) (n : ℕ) → le_word (bs ++ zeros n) ≡ le_word bs
le_word-append_zeros [] n = le_word-zeros n
le_word-append_zeros (b ∷ bs) n = omega (arith, le_word-append_zeros bs n)

module _ {ℓ} {A : Type ℓ} where
  take-append : (xs ys : List A) (n : ℕ) → length xs ≡ n → take n (xs ++ ys) ≡ xs
  take-append [] ys zero h = refl
  take-append [] ys (suc n) h = absurd (omega arith)
  take-append (x ∷ xs) ys zero h = absurd (omega arith)
  take-append (x ∷ xs) ys (suc n) h = ap (λ zs. x ∷ zs) (take-append xs ys n (omega arith))

  drop-append : (xs ys : List A) (n : ℕ) → length xs ≡ n → drop n (xs ++ ys) ≡ ys
  drop-append [] ys zero h = refl
  drop-append [] ys (suc n) h = absurd (omega arith)
  drop-append (x ∷ xs) ys zero h = absurd (omega arith)
  drop-append (x ∷ xs) ys (suc n) h = drop-append xs ys n (omega arith)

hash_chunks-block :
    (chunks hash : ℕ) (block rest : List ℕ)
    → length block ≡ 8
    → hash_chunks (suc chunks) hash (block ++ rest)
      ≡ hash_chunks chunks (fnv1a_word hash (le_word block)) rest
unfolding hash_chunks
hash_chunks-block chunks hash block rest h =
    rw (take-append block rest 8 h, drop-append block rest 8 h)

-- A leading block of eight bytes is one step of the hash.
pub fnv1a_from-block :
    (hash : ℕ) (block rest : List ℕ)
    → length block ≡ 8
    → fnv1a_from hash (block ++ rest) ≡ fnv1a_from (fnv1a_word hash (le_word block)) rest
unfolding fnv1a_from
fnv1a_from-block hash block rest h =
    let count : length (block ++ rest) / 8 ≡ suc (length rest / 8) =
      omega (arith, length-append block rest) in
    ap (λ n. hash_chunks n hash (block ++ rest)) count
    ∙ hash_chunks-block (length rest / 8) hash block rest h

-- A last block of at most eight bytes is one step with its zero-padded word.
pub fnv1a_from-last :
    (hash : ℕ) (block : List ℕ)
    → 0 < length block
    → length block ≤ 8
    → fnv1a_from hash block ≡ fnv1a_word hash (le_word block)
unfolding fnv1a_from hash_chunks hash_tail padded
fnv1a_from-last hash [] p h = absurd (omega arith)
fnv1a_from-last hash (b ∷ bs) p h = elim (Bool-cases (leb 8 (length (b ∷ bs)))) [
  | inl full ↦
      ap (fnv1a_from hash) (sym (append-nil (b ∷ bs)))
      ∙ fnv1a_from-block hash (b ∷ bs) [] (ground arith)
  | inr short ↦
      let count : length (b ∷ bs) / 8 ≡ 0 = ground arith in
      rw (count, le_word-append_zeros (b ∷ bs) (8 - length (b ∷ bs)))
]
