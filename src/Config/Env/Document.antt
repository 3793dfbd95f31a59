-- ===== src/Config/Env/Document.antt =====
-- `expand_env_in_value` and `expand_value` of crates/doggy-dns-basic/src/env.rs.
pub mod Strings
use doggy_dns.Common.{ℕ, suc, Option, [], ◌∷◌}
use doggy_dns.Common.Text.{Text}
use doggy_dns.Common.Results.{Result, ok, err, ◌>>=◌}
use doggy_dns.Config.Toml.{
  Value, Fields, Items, string, table, array, other, end, field, nil, cons, key_path, item_path,
}
use doggy_dns.Config.Env.{EnvError, expand_env}

-- An error with the path of the value that it was found in.
pub record PathError : Type 0 where
  pub path : Text
  pub error : EnvError

abbrev pub at_path : Text → Result EnvError Text → Result PathError Text
at_path path (ok s) = ok s
at_path path (err e) = err (record { path = path; error = e })

unfoldable mutual
  pub expand_value : (Text → Option Text) → (path : Text) → Value → Result PathError Value
  expand_value lookup path (string s) =
      at_path path (expand_env lookup s) >>= λ expanded. ok (string expanded)
  expand_value lookup path (table fields) =
      expand_fields lookup path fields >>= λ fields'. ok (table fields')
  expand_value lookup path (array items) =
      expand_items lookup path 0 items >>= λ items'. ok (array items')
  expand_value lookup path (other literal) = ok (other literal)

  pub expand_fields : (Text → Option Text) → (path : Text) → Fields → Result PathError Fields
  expand_fields lookup path end = ok end
  expand_fields lookup path (field key child fields) =
      expand_value lookup (key_path path key) child >>= λ child'.
      expand_fields lookup path fields >>= λ fields'. ok (field key child' fields')

  pub expand_items :
      (Text → Option Text) → (path : Text) → (index : ℕ) → Items → Result PathError Items
  expand_items lookup path index nil = ok nil
  expand_items lookup path index (cons item items) =
      expand_value lookup (item_path path index) item >>= λ item'.
      expand_items lookup path (suc index) items >>= λ items'. ok (cons item' items')

unfoldable pub expand_env_in_value : (Text → Option Text) → Value → Result PathError Value
expand_env_in_value lookup value = expand_value lookup [] value
