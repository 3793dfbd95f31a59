-- ===== src/Config/Env/Reading.antt =====
-- The search for a reference and its reading in `expand_env` of crates/doggy-dns-basic/src/env.rs.
use doggy_dns.Common.{
  ℕ, suc, ◌≤◌, ◌<◌, ◌≡◌, ◌≢◌, refl, ap, ◌++◌, Option, none, some, [], ◌∷◌, length, arith,
}
use doggy_dns.Common.Text.{Text, split_once, split_once-append, SplitsBelow, split_once-SplitsBelow}
use doggy_dns.Common.Results.{Result, ok, err}
use doggy_dns.Config.Env.{
  EnvError, unterminated, out_of_fuel, find_reference, value_of, named_value, read_reference,
}

pub find_reference-append :
    (before after : Text)
    → find_reference before ≡ none
    → find_reference (before ++ (b'$' ∷ b'{' ∷ after)) ≡ some (before, after)
unfolding find_reference
find_reference-append [] after h = refl
find_reference-append (c ∷ []) after h = ground arith
find_reference-append (c ∷ d ∷ s) after h = ground (arith, find_reference-append (d ∷ s) after)

pub find_reference-SplitsBelow : (s : Text) → SplitsBelow (length s) (find_reference s)
unfolding find_reference
find_reference-SplitsBelow [] = tt
find_reference-SplitsBelow (c ∷ []) = ground arith
find_reference-SplitsBelow (c ∷ d ∷ s) = ground (arith, find_reference-SplitsBelow (d ∷ s))

-- A reference that is read leaves less to read, and reading it never runs out of fuel.
abbrev pub ReadsBelow : ℕ → Result EnvError (Text × Text) → Type 0
ReadsBelow n (ok r) = length r.1 < n
ReadsBelow n (err e) = e ≢ out_of_fuel

pub value_of-ReadsBelow :
    (name rest : Text) (value : Option Text)
    → ReadsBelow (suc (length rest)) (value_of name rest value)
value_of-ReadsBelow name rest none = λ h. cc
value_of-ReadsBelow name rest (some value) = omega arith

pub ReadsBelow-mono :
    (m n : ℕ) (r : Result EnvError (Text × Text)) → m ≤ n → ReadsBelow m r → ReadsBelow n r
ReadsBelow-mono m n (ok r) le h = omega arith
ReadsBelow-mono m n (err e) le h = h

pub named_value-ReadsBelow :
    (n : ℕ) (lookup : Text → Option Text) (parts : Option (Text × Text))
    → SplitsBelow n parts
    → ReadsBelow n (named_value lookup parts)
named_value-ReadsBelow n lookup none h = λ e. cc
named_value-ReadsBelow n lookup (some ([], rest)) h = λ e. cc
named_value-ReadsBelow n lookup (some (c ∷ name, rest)) h =
    ReadsBelow-mono (suc (length rest)) n _ h
      (value_of-ReadsBelow (c ∷ name) rest (lookup (c ∷ name)))

pub read_reference-ReadsBelow :
    (lookup : Text → Option Text) (after : Text)
    → ReadsBelow (length after) (read_reference lookup after)
unfolding read_reference
read_reference-ReadsBelow lookup after =
    named_value-ReadsBelow (length after) lookup (split_once b'}' after)
      (split_once-SplitsBelow b'}' after)

pub read_reference-named :
    (lookup : Text → Option Text) (c : ℕ) (name rest : Text)
    → split_once b'}' (c ∷ name) ≡ none
    → read_reference lookup ((c ∷ name) ++ (b'}' ∷ rest))
      ≡ value_of (c ∷ name) rest (lookup (c ∷ name))
unfolding read_reference
read_reference-named lookup c name rest h =
    ap (named_value lookup) (split_once-append b'}' (c ∷ name) rest h)

pub read_reference-unclosed :
    (lookup : Text → Option Text) (after : Text)
    → split_once b'}' after ≡ none
    → read_reference lookup after ≡ err unterminated
unfolding read_reference
read_reference-unclosed lookup after h = ap (named_value lookup) h
