-- ===== src/Common/Results.antt =====
-- Results with an error of any type, and their chains.
use mathlib.Core.Path.{◌≡◌, refl, ap}
use mathlib.Core.Bool.{Bool, true, false}
use doggy_dns.Common.Tests.{if◌then◌else◌}

pub data Result {ℓ} (E A : Type ℓ) : Type ℓ where
  ok : A → Result E A
  err : E → Result E A

-- `anyhow::ensure!`
abbrev pub ensure {ℓ} : {E : Type ℓ} → Bool → E → Result E (Unit {ℓ})
ensure test failure = if test then ok tt else err failure

-- The `?` operator, with what is done with the value.
infixl 5 ◌>>=◌
abbrev pub ◌>>=◌ {ℓ} : {E A B : Type ℓ} → Result E A → (A → Result E B) → Result E B
err failure >>= next = err failure
ok value >>= next = next value

infixl 5 ◌>>◌
abbrev pub ◌>>◌ {ℓ} : {E A B : Type ℓ} → Result E A → Result E B → Result E B
first >> second = first >>= λ _. second

pub ensure-eq-ok {ℓ} :
    {E : Type ℓ} (test : Bool) (failure : E) {u : Unit {ℓ}}
    → ensure test failure ≡ ok u
    → test ≡ true
ensure-eq-ok false failure passed = cc
ensure-eq-ok true failure passed = refl

-- Steps that end well, one by one.
pub >>=-eq-ok {ℓ} :
    {E A B : Type ℓ} (first : Result E A) (next : A → Result E B) {last : B}
    → (first >>= next) ≡ ok last
    → (value : A) × (first ≡ ok value) × (next value ≡ ok last)
>>=-eq-ok (err failure) next ends = cc
>>=-eq-ok (ok value) next ends = (value, refl, ends)

pub >>=-ok {ℓ} : {E A : Type ℓ} (m : Result E A) → (m >>= λ a. ok a) ≡ m
>>=-ok (ok a) = refl
>>=-ok (err e) = refl

pub >>=_assoc {ℓ} :
    {E A B C : Type ℓ} (m : Result E A) (f : A → Result E B) (g : B → Result E C)
    → (m >>= f >>= g) ≡ (m >>= λ a. f a >>= g)
>>=_assoc (ok a) f g = refl
>>=_assoc (err e) f g = refl

-- Two results and a view of what is made of both.
pub >>=-view {ℓ} :
    {E A B C L : Type ℓ} (m : Result E A) (n : Result E B) (pair : A → B → C) (view : C → L)
    → (view_a : A → L) (view_b : B → L) (join : L → L → L)
    → ((a : A) (b : B) → view (pair a b) ≡ join (view_a a) (view_b b))
    → (m >>= (λ a. n >>= λ b. ok (pair a b)) >>= λ c. ok (view c))
      ≡ ((m >>= λ a. ok (view_a a)) >>= λ x. (n >>= λ b. ok (view_b b)) >>= λ y. ok (join x y))
>>=-view (ok a) (ok b) pair view view_a view_b join h = ap ok (h a b)
>>=-view (ok a) (err e) pair view view_a view_b join h = refl
>>=-view (err e) n pair view view_a view_b join h = refl
