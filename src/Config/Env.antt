-- ===== src/Config/Env.antt =====
-- `${NAME}` references in a text: `expand_env` of crates/doggy-dns-basic/src/env.rs.
-- The `while` loop takes fuel; `out_of_fuel` is no error of the code, and never the result.
pub mod Document
pub mod Reading
pub mod Template
use doggy_dns.Common.{
  ℕ, zero, suc, ◌+◌, ◌<◌, ◌≡◌, ◌++◌, Bool, true, false, ◌&&◌, Option, none, some, List, [], ◌∷◌,
  length, ◌==◌, if◌then◌else◌,
}
use doggy_dns.Common.Text.{Text, is_empty, starts_with, split_once}
use doggy_dns.Common.Results.{Result, ok, err, ◌>>=◌, ◌>>◌, ensure}

pub data EnvError : Type 0 where
  unterminated : EnvError
  empty_reference : EnvError
  not_set : Text → EnvError
  out_of_fuel : EnvError

abbrev pub drop_one : Text → Text
drop_one [] = []
drop_one (_ ∷ s) = s

-- The text before the first `${`, and the text after it.
unfoldable pub find_reference : Text → Option (Text × Text)
find_reference [] = none
find_reference (c ∷ s) =
    let rest = find_reference s in
    if (c == b'$') && starts_with s (b'{' ∷ [])
    then some ([], drop_one s)
    else elim rest [ none ↦ none | some (before, after) ↦ some (c ∷ before, after) ]

-- The value of a name, and what stands after the reference.
abbrev pub value_of : (name rest : Text) → Option Text → Result EnvError (Text × Text)
value_of name rest none = err (not_set name)
value_of name rest (some value) = ok (value, rest)

abbrev pub named_value : (Text → Option Text) → Option (Text × Text) → Result EnvError (Text × Text)
named_value lookup none = err unterminated
named_value lookup (some (name, rest)) =
    if is_empty name then err empty_reference else value_of name rest (lookup name)

-- The name up to the first `}`, which is not empty, its value, and what stands after it.
unfoldable pub read_reference : (Text → Option Text) → Text → Result EnvError (Text × Text)
read_reference lookup after = named_value lookup (split_once b'}' after)

unfoldable pub expand_loop :
    (fuel : ℕ) → (Text → Option Text) → (output rest : Text) → Result EnvError Text
expand_loop zero lookup output rest = err out_of_fuel
expand_loop (suc fuel) lookup output rest = elim (find_reference rest) [
  | none ↦ ok (output ++ rest)
  | some (before, after) ↦
      read_reference lookup after >>= λ r. expand_loop fuel lookup (output ++ before ++ r.0) r.1
]

unfoldable pub expand_env : (Text → Option Text) → Text → Result EnvError Text
expand_env lookup value = expand_loop (suc (length value)) lookup [] value
