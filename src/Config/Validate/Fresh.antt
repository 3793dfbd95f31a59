-- ===== src/Config/Validate/Fresh.antt =====
-- Items that must be new: the sets of crates/doggy-dns-basic/src/validate.rs.
use doggy_dns.Common.{
  ◌≡◌, ◌≢◌, ◌↔◌, refl, Bool, true, not, List, [], ◌∷◌, All, Bool-cases, inl, inr,
}
use doggy_dns.Config.Validate.Checks.{
  ConfigError, Check, Passes, member, each_new, Distinct, ensure-Passes, then-Passes,
}

module _ {A : Type 0} where
  -- None of the items is in use.
  abbrev pub AreFresh : (used : List A) → List A → Type 0
  AreFresh used xs = All (λ z. All (λ y. z ≢ y) used) xs

  -- Items are new beside one more item just where they are new and it is not among them.
  pub fresh_beside_iff :
      (z : A) (used later : List A)
      → AreFresh (z ∷ used) later ↔ (All (λ y. y ≢ z) later × AreFresh used later)
  fresh_beside_iff z used [] = ((λ h. (tt, tt)), (λ h. tt))
  fresh_beside_iff z used (y ∷ later) = (
    (λ h. let r = (fresh_beside_iff z used later).0 h.1 in ((h.0.0, r.0), (h.0.1, r.1))),
    (λ h. ((h.0.0, h.1.0), (fresh_beside_iff z used later).1 (h.0.1, h.1.1))),
  )

  pub AreFresh-nil : (xs : List A) → AreFresh [] xs
  AreFresh-nil [] = tt
  AreFresh-nil (x ∷ xs) = (tt, AreFresh-nil xs)

  module _ (same : A → A → Bool) (same_iff : (x y : A) → (same x y ≡ true) ↔ (x ≡ y)) where
    pub member_iff : (x : A) (ys : List A) → (not (member same x ys) ≡ true) ↔ All (λ y. x ≢ y) ys
    member_iff x [] = ((λ h. tt), (λ h. refl))
    member_iff x (y ∷ ys) = elim (Bool-cases (same x y)) [
      | inl e ↦ rw e ((λ h. cc), (λ h. absurd (h.0 ((same_iff x y).0 e))))
      | inr e ↦ rw e (
        (λ h. ((λ p. let q = (same_iff x y).1 p in cc), (member_iff x ys).0 h)),
        (λ h. (member_iff x ys).1 h.1),
      )
    ]

    pub each_new_iff :
        (check : A → Check) (twice : A → ConfigError) (seen xs : List A)
        → Passes (each_new same check twice seen xs)
          ↔ (All (λ x. Passes (check x)) xs × AreFresh seen xs × Distinct xs)
    each_new_iff check twice seen [] = ((λ h. (tt, tt, tt)), (λ h. refl))
    each_new_iff check twice seen (x ∷ xs) =
        let new = ensure-Passes (not (member same x seen)) (twice x) in
        let mem = member_iff x seen in
        let later = each_new_iff check twice (x ∷ seen) xs in
        let beside = fresh_beside_iff x seen xs in
        (
          (λ h.
              let l = (then-Passes _ _).0 h in
              let f = (then-Passes _ _).0 l.0 in
              let r = later.0 l.1 in
              let b = beside.0 r.1 in ((f.0, r.0), (mem.0 (new.0 f.1), b.1), (b.0, r.2))),
          (λ h. (then-Passes _ _).1 (
            (then-Passes _ _).1 (h.0.0, new.1 (mem.1 h.1.0)),
            later.1 (h.0.1, beside.1 (h.2.0, h.1.1), h.2.1),
          )),
        )

    -- A loop that starts with an empty set.
    pub each_new-nil_iff :
        (check : A → Check) (twice : A → ConfigError) (xs : List A)
        → Passes (each_new same check twice [] xs) ↔ (All (λ x. Passes (check x)) xs × Distinct xs)
    each_new-nil_iff check twice xs =
        let loop = each_new_iff check twice [] xs in
        ((λ h. let r = loop.0 h in (r.0, r.2)), (λ h. loop.1 (h.0, AreFresh-nil xs, h.1)))
