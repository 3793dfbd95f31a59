-- ===== src/Config/Validate/Checks.antt =====
-- What the checks of crates/doggy-dns-basic/src/validate.rs share.
use doggy_dns.Common.{
  ℕ, ◌≡◌, ◌≢◌, ◌↔◌, refl, Bool, true, false, not, ◌||◌, List, [], ◌∷◌, All, if◌then◌else◌, ◌⊎◌, inl,
  inr,
}
use doggy_dns.Common.Text.{Text}
use doggy_dns.Common.Results.{Result, ok, err, ◌>>◌, ensure}

pub record Host : Type 0 where
  pub path_exists : Text → Bool
  pub is_ip_addr : Text → Bool
  pub is_socket_addr : Text → Bool
  pub is_linux : Bool
  pub is_macos : Bool

pub data ConfigError : Type 0 where
  invalid : Text → ConfigError
  invalid_plugin : ℕ → Text → ConfigError

abbrev pub Check : Type 0
Check = Result ConfigError (Unit {0})

abbrev pub Passes : Check → Type 0
Passes c = c ≡ ok tt

abbrev pub pass : Check
pass = ok tt

pub ensure-Passes : (b : Bool) (e : ConfigError) → Passes (ensure b e) ↔ (b ≡ true)
ensure-Passes true e = ((λ h. refl), (λ h. refl))
ensure-Passes false e = ((λ h. cc), (λ h. cc))

pub then-Passes : (c d : Check) → Passes (c >> d) ↔ (Passes c × Passes d)
then-Passes (ok tt) d = ((λ h. (refl, h)), (λ h. h.1))
then-Passes (err e) d = ((λ h. cc), (λ h. cc))

module _ {A : Type 0} (same : A → A → Bool) where
  abbrev pub member : A → List A → Bool
  member x [] = false
  member x (y ∷ ys) = same x y || member x ys

  -- A loop that checks each item and puts it into a set, where it must be new.
  abbrev pub each_new : (A → Check) → (A → ConfigError) → (seen xs : List A) → Check
  each_new check twice seen [] = pass
  each_new check twice seen (x ∷ xs) =
      check x >> ensure (not (member x seen)) (twice x) >> each_new check twice (x ∷ seen) xs

-- No item stands twice.
abbrev pub Distinct : {A : Type 0} → List A → Type 0
Distinct [] = Unit
Distinct (x ∷ xs) = All (λ y. y ≢ x) xs × Distinct xs

pub not_iff : (b : Bool) → (not b ≡ true) ↔ (b ≡ false)
not_iff true = ((λ h. cc), (λ h. cc))
not_iff false = ((λ h. refl), (λ h. refl))

-- Two tests before the other checks.
pub two_ensure-Passes :
    (a b : Bool) (d e : ConfigError) (c : Check)
    → Passes (ensure a d >> ensure b e >> c) ↔ ((a ≡ true) × (b ≡ true) × Passes c)
two_ensure-Passes true true d e c = ((λ h. (refl, refl, h)), (λ h. h.2))
two_ensure-Passes true false d e c = ((λ h. cc), (λ h. cc (h.1)))
two_ensure-Passes false b d e c = ((λ h. cc), (λ h. cc (h.0)))

-- Checks that are made only if a test holds.
pub when-Passes : (b : Bool) (c : Check) → Passes (if b then c else pass) ↔ ((b ≡ false) ⊎ Passes c)
when-Passes true c = ((λ h. inr h), (λ h. elim h [ inl e ↦ cc | inr p ↦ p ]))
when-Passes false c = ((λ h. inl refl), (λ h. refl))

-- One guarded part by what its checks amount to.
pub when_iff :
    {P : Type 0} (b : Bool) (c : Check)
    → Passes c ↔ P
    → Passes (if b then c else pass) ↔ ((b ≡ false) ⊎ P)
when_iff b c iff = (
  (λ h. elim ((when-Passes b c).0 h) [ inl e ↦ inl e | inr p ↦ inr (iff.0 p) ]),
  (λ h. (when-Passes b c).1 (elim h [ inl e ↦ inl e | inr p ↦ inr (iff.1 p) ])),
)

pub both_iff :
    {P Q : Type 0} (c d : Check) → Passes c ↔ P → Passes d ↔ Q → Passes (c >> d) ↔ (P × Q)
both_iff c d p q = (
  (λ h. let b = (then-Passes c d).0 h in (p.0 b.0, q.0 b.1)),
  (λ h. (then-Passes c d).1 (p.1 h.0, q.1 h.1)),
)

pub ensure_iff :
    {P : Type 0} (b : Bool) (e : ConfigError) → (b ≡ true) ↔ P → Passes (ensure b e) ↔ P
ensure_iff b e iff =
    ((λ h. iff.0 ((ensure-Passes b e).0 h)), (λ h. (ensure-Passes b e).1 (iff.1 h)))
