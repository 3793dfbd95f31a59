-- ===== src/Handler/Rotation/Turns.antt =====
-- Which record leads, and that rotation drops none.
use mathlib.Core.Path.{subst}
use mathlib.Core.List.{Perm, perm_middle}
use mathlib.Core.List.Perm
use native.Mathlib.Nat.{mod-lt}
use doggy_dns.Common.{
  ℕ, zero, suc, ◌+◌, ◌%◌, ◌^◌, ◌≤◌, ◌<◌, ◌≡◌, refl, ap, sym, ◌∙◌, true, false, not, ◌||◌, Option,
  none, some, List, [], ◌∷◌, ◌++◌, ltb, length, take, drop, arith, Bool-cases, inl, inr,
}
use doggy_dns.Handler.Rotation.{AnswerRotation, rotate_left, apply}

module _ {ℓ} {A : Type ℓ} where
  abbrev pub get_elem? : List A → ℕ → Option A
  get_elem? [] n = none
  get_elem? (x ∷ xs) zero = some x
  get_elem? (x ∷ xs) (suc n) = get_elem? xs n

  append_nil : (xs : List A) → xs ++ [] ≡ xs
  append_nil [] = refl
  append_nil (x ∷ xs) = ap (λ l. x ∷ l) (append_nil xs)

  drop-head :
      (n : ℕ) (xs ys : List A) → n < length xs → get_elem? (drop n xs ++ ys) 0 ≡ get_elem? xs n
  drop-head zero [] ys h = absurd (omega (arith, h))
  drop-head zero (x ∷ xs) ys h = refl
  drop-head (suc n) [] ys h = absurd (omega (arith, h))
  drop-head (suc n) (x ∷ xs) ys h = drop-head n xs ys (omega (arith, h))

  apply-leads :
      (r : AnswerRotation) (records : List A)
      → r.enabled ≡ true
      → 2 ≤ length records
      → r.cursor + 1 < 2 ^ 64
      → (get_elem? (apply r records).1 0 ≡ get_elem? records (r.cursor % length records))
        × ((apply r records).0 ≡ record r { cursor = r.cursor + 1 })
  unfolding apply
  apply-leads r records on long fits =
      let x : ltb (length records) 2 ≡ false = ground arith in
      let y : r.cursor % length records < length records = mod-lt r.cursor (omega (arith, long)) in
      let z : (r.cursor + 1) % 2 ^ 64 ≡ r.cursor + 1 = omega (arith, fits) in
      (
        rw (on, x)
            (drop-head (r.cursor % length records) records
              (take (r.cursor % length records) records) y),
        rw (on, x, z) refl,
      )

  -- The rotation after a number of answers with these records.
  pub after : ℕ → AnswerRotation → List A → AnswerRotation
  after zero r records = r
  after (suc k) r records = (apply (after k r records) records).0

  after-cursor :
      (k : ℕ) (r : AnswerRotation) (records : List A)
      → r.enabled ≡ true
      → 2 ≤ length records
      → r.cursor + k < 2 ^ 64
      → after k r records ≡ record r { cursor = r.cursor + k }
  unfolding after
  after-cursor zero r records on long fits =
      ap (λ c. record r { cursor = c }) (let x : r.cursor ≡ r.cursor + 0 = omega arith in x)
  after-cursor (suc k) r records on long fits =
      let ih = after-cursor k r records on long (omega (arith, fits)) in
      let step =
        apply-leads (record r { cursor = r.cursor + k }) records on long (omega (arith, fits)) in
      ap (λ s. (apply s records).0) ih ∙ step.1 ∙ ap (λ c. record r { cursor = c }) (omega arith)

  -- Successive answers with the same two records or more take turns in leading: after any number of
  -- them the next answer is led by the record at the cursor plus that number, modulo how many
  -- records there are, as long as the counter does not wrap.
  pub rotation-takes_turns :
      (k : ℕ) (r : AnswerRotation) (records : List A)
      → r.enabled ≡ true
      → 2 ≤ length records
      → r.cursor + k + 1 < 2 ^ 64
      → get_elem? (apply (after k r records) records).1 0
        ≡ get_elem? records ((r.cursor + k) % length records)
  rotation-takes_turns k r records on long fits =
      ap (λ s. get_elem? (apply s records).1 0)
        (after-cursor k r records on long (omega (arith, fits)))
      ∙ (apply-leads (record r { cursor = r.cursor + k }) records on long fits).0

  take-drop : (n : ℕ) (xs : List A) → take n xs ++ drop n xs ≡ xs
  take-drop zero xs = refl
  take-drop (suc n) [] = refl
  take-drop (suc n) (x ∷ xs) = ap (λ l. x ∷ l) (take-drop n xs)

  append_comm : (xs ys : List A) → Perm (xs ++ ys) (ys ++ xs)
  append_comm [] ys = subst (λ l. Perm ys l) (sym (append_nil ys)) (Perm.refl ys)
  append_comm (x ∷ xs) ys =
      Perm.trans (Perm.cons x (append_comm xs ys)) (Perm.symm (perm_middle {a = x} ys xs))

  -- The rotated answer has the same records, whatever the cursor is and whether it wraps.
  pub apply-Perm : (r : AnswerRotation) (records : List A) → Perm (apply r records).1 records
  unfolding apply
  apply-Perm r records = elim (Bool-cases (not r.enabled || ltb (length records) 2)) [
    | inl e ↦ rw e (Perm.refl records)
    | inr e ↦ rw e (
        subst (λ l. Perm (rotate_left (r.cursor % length records) records) l)
          (take-drop (r.cursor % length records) records)
          (append_comm (drop (r.cursor % length records) records)
            (take (r.cursor % length records) records)))
  ]
