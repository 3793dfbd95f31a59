-- ===== src/Config/Env/Template.antt =====
-- What `expand_env` of crates/doggy-dns-basic/src/env.rs makes of a text that is put together from
-- literals and references.
use doggy_dns.Common.{
  ℕ, zero, suc, ◌≤◌, ◌<◌, ◌≡◌, ◌≢◌, refl, ap, ◌∙◌, ◌++◌, false, Option, none, some, [], ◌∷◌, length,
  length-append, arith,
}
use mathlib.Core.List.{append_assoc}
use doggy_dns.Common.Text.{Text, is_empty, split_once, SplitsBelow}
use doggy_dns.Common.Results.{Result, ok, err, ◌>>=◌}
use doggy_dns.Config.Env.{
  EnvError, unterminated, empty_reference, not_set, out_of_fuel, find_reference, value_of,
  read_reference, expand_loop, expand_env,
}
use doggy_dns.Config.Env.Reading.{
  find_reference-append, find_reference-SplitsBelow, read_reference-ReadsBelow,
  read_reference-named, read_reference-unclosed, ReadsBelow,
}

-- A text, read from the left: a reference with the literal before it, or how the text ends.
pub data Template : Type 0 where
  literal : Text → Template
  reference : (before name : Text) → Template → Template
  unnamed : (before after : Text) → Template
  unclosed : (before after : Text) → Template

abbrev pub render : Template → Text
render (literal s) = s
render (reference before name t) = before ++ (b'$' ∷ b'{' ∷ (name ++ (b'}' ∷ render t)))
render (unnamed before after) = before ++ (b'$' ∷ b'{' ∷ b'}' ∷ after)
render (unclosed before after) = before ++ (b'$' ∷ b'{' ∷ after)

-- No literal holds `${`, a name holds no `}` and is not empty, and nothing closes the last part.
abbrev pub IsWellFormed : Template → Type 0
IsWellFormed (literal s) = find_reference s ≡ none
IsWellFormed (reference before name t) =
    (find_reference before ≡ none)
    × (split_once b'}' name ≡ none)
    × (is_empty name ≡ false)
    × IsWellFormed t
IsWellFormed (unnamed before after) = find_reference before ≡ none
IsWellFormed (unclosed before after) =
    (find_reference before ≡ none) × (split_once b'}' after ≡ none)

-- A literal and the value of the name after it, before the rest.
abbrev pub with_value :
    (before name : Text) → Result EnvError Text → Option Text → Result EnvError Text
with_value before name result none = err (not_set name)
with_value before name result (some value) = result >>= λ rest. ok (before ++ value ++ rest)

-- The literals and the values of the names, in order; the first failure from the left decides.
abbrev pub resolve : (Text → Option Text) → Template → Result EnvError Text
resolve lookup (literal s) = ok s
resolve lookup (reference before name t) = with_value before name (resolve lookup t) (lookup name)
resolve lookup (unnamed before after) = err empty_reference
resolve lookup (unclosed before after) = err unterminated

-- One turn of the loop, on the first reference of what is left.
next : ℕ → (Text → Option Text) → (output rest : Text) → Option (Text × Text) → Result EnvError Text
next fuel lookup output rest none = ok (output ++ rest)
next fuel lookup output rest (some (before, after)) =
    read_reference lookup after >>= λ r. expand_loop fuel lookup (output ++ before ++ r.0) r.1

expand_loop-next :
    (fuel : ℕ) (lookup : Text → Option Text) (output rest : Text)
    → expand_loop (suc fuel) lookup output rest ≡ next fuel lookup output rest (find_reference rest)
unfolding expand_loop next
expand_loop-next fuel lookup output rest = elim (find_reference rest) [
  | none ↦ refl
  | some _ ↦ refl
]

read_then_ends :
    (n : ℕ) (r : Result EnvError (Text × Text)) (go : Text × Text → Result EnvError Text)
    → ReadsBelow n r
    → ((x : Text × Text) → length x.1 < n → go x ≢ err out_of_fuel)
    → (r >>= go) ≢ err out_of_fuel
read_then_ends n (ok x) go below ends = ends x below
read_then_ends n (err e) go below ends = λ h. below (let same : e ≡ out_of_fuel = cc in same)

next-ends :
    (fuel : ℕ) (lookup : Text → Option Text) (output rest : Text) (parts : Option (Text × Text))
    → SplitsBelow fuel parts
    → ((output' rest' : Text)
        → length rest' < fuel
        → expand_loop fuel lookup output' rest' ≢ err out_of_fuel)
    → next fuel lookup output rest parts ≢ err out_of_fuel
unfolding next
next-ends fuel lookup output rest none below ends = λ e. cc
next-ends fuel lookup output rest (some (before, after)) below ends =
    read_then_ends (length after) (read_reference lookup after) _
      (read_reference-ReadsBelow lookup after)
      (λ x lt. ends (output ++ before ++ x.0) x.1 (omega arith))

SplitsBelow-mono :
    (m n : ℕ) (parts : Option (Text × Text)) → m ≤ n → SplitsBelow m parts → SplitsBelow n parts
SplitsBelow-mono m n none le h = tt
SplitsBelow-mono m n (some parts) le h = omega arith

expand_loop-ends :
    (fuel : ℕ) (lookup : Text → Option Text) (output rest : Text)
    → length rest < fuel
    → expand_loop fuel lookup output rest ≢ err out_of_fuel
expand_loop-ends zero lookup output rest h = elim h [ ]
expand_loop-ends (suc fuel) lookup output rest h = rw (expand_loop-next fuel lookup output rest) (
    next-ends fuel lookup output rest (find_reference rest)
      (SplitsBelow-mono (length rest) fuel (find_reference rest) (omega arith)
        (find_reference-SplitsBelow rest))
      (expand_loop-ends fuel lookup))

-- The loop on a text that goes on from its first reference.
expand_loop-found :
    (fuel : ℕ) (lookup : Text → Option Text) (output before after : Text)
    → find_reference before ≡ none
    → expand_loop (suc fuel) lookup output (before ++ (b'$' ∷ b'{' ∷ after))
      ≡ (read_reference lookup after >>= λ r. expand_loop fuel lookup (output ++ before ++ r.0) r.1)
unfolding next
expand_loop-found fuel lookup output before after h =
    expand_loop-next fuel lookup output (before ++ (b'$' ∷ b'{' ∷ after))
    ∙ ap (next fuel lookup output (before ++ (b'$' ∷ b'{' ∷ after)))
        (find_reference-append before after h)

append-value :
    (result : Result EnvError Text) (output before value : Text)
    → (result >>= λ rest. ok ((output ++ before ++ value) ++ rest))
      ≡ (result >>= (λ rest. ok (before ++ value ++ rest)) >>= λ rest. ok (output ++ rest))
append-value (ok rest) output before value = ap ok (simp append_assoc)
append-value (err e) output before value = refl

value_of-then :
    (fuel : ℕ) (lookup : Text → Option Text) (output before name s : Text)
    → (value : Option Text) (result : Result EnvError Text)
    → ((output' : Text)
        → expand_loop fuel lookup output' s ≡ (result >>= λ rest. ok (output' ++ rest)))
    → (value_of name s value >>= λ r. expand_loop fuel lookup (output ++ before ++ r.0) r.1)
      ≡ (with_value before name result value >>= λ rest. ok (output ++ rest))
value_of-then fuel lookup output before name s none result ih = refl
value_of-then fuel lookup output before name s (some value) result ih =
    ih (output ++ before ++ value) ∙ append-value result output before value

expand_loop-render :
    (fuel : ℕ) (lookup : Text → Option Text) (output : Text) (t : Template)
    → IsWellFormed t
    → length (render t) < fuel
    → expand_loop fuel lookup output (render t) ≡ (resolve lookup t >>= λ rest. ok (output ++ rest))
unfolding next read_reference
expand_loop-render zero lookup output t w h = elim h [ ]
expand_loop-render (suc fuel) lookup output (literal s) w h =
    rw (expand_loop-next fuel lookup output s, w)
expand_loop-render (suc fuel) lookup output (reference before [] t) w h = cc
expand_loop-render (suc fuel) lookup output (reference before (c ∷ name) t) w h =
    expand_loop-found fuel lookup output before ((c ∷ name) ++ (b'}' ∷ render t)) w.0
    ∙ ap (λ r. r >>= λ r. expand_loop fuel lookup (output ++ before ++ r.0) r.1)
        (read_reference-named lookup c name (render t) w.1)
    ∙ value_of-then fuel lookup output before (c ∷ name) (render t) (lookup (c ∷ name))
        (resolve lookup t)
        (λ output'. expand_loop-render fuel lookup output' t w.3 (
          omega (
            arith,
            length-append before (b'$' ∷ b'{' ∷ ((c ∷ name) ++ (b'}' ∷ render t))),
            length-append (c ∷ name) (b'}' ∷ render t),
          )))
expand_loop-render (suc fuel) lookup output (unnamed before after) w h =
    expand_loop-found fuel lookup output before (b'}' ∷ after) w
expand_loop-render (suc fuel) lookup output (unclosed before after) w h =
    expand_loop-found fuel lookup output before after w.0
    ∙ ap (λ r. r >>= λ r. expand_loop fuel lookup (output ++ before ++ r.0) r.1)
        (read_reference-unclosed lookup after w.1)

-- The expansion of any text ends by itself: the fuel is enough for each text and each environment.
pub expand_env-ends :
    (lookup : Text → Option Text) (value : Text) → expand_env lookup value ≢ err out_of_fuel
unfolding expand_env
expand_env-ends lookup value = expand_loop-ends (suc (length value)) lookup [] value (omega arith)

bind-ok : (r : Result EnvError Text) → (r >>= λ rest. ok rest) ≡ r
bind-ok (ok rest) = refl
bind-ok (err e) = refl

-- The expansion of a text put together from literals without `${` and non-empty names without `}`
-- is the literals and the values of the names, in order, and each name is looked up once: a value
-- is not expanded again. The first name from the left that is not set, the first `${}` and a `${`
-- that nothing closes are the errors, whichever of them the text comes to first.
pub expand_env-render :
    (lookup : Text → Option Text) (t : Template)
    → IsWellFormed t
    → expand_env lookup (render t) ≡ resolve lookup t
unfolding expand_env
expand_env-render lookup t w =
    expand_loop-render (suc (length (render t))) lookup [] t w (omega arith)
    ∙ bind-ok (resolve lookup t)
