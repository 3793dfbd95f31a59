-- ===== src/Config/Redact.antt =====
-- `is_sensitive` and `redact_value` of crates/doggy-dns-control/src/redact.rs.
-- `redacted` is the list as it stands, so the walk returns it with the paths found put behind.
pub mod Hidden
use doggy_dns.Common.{ℕ, suc, Bool, true, false, List, [], ◌∷◌, ◌++◌, ◌||◌, if◌then◌else◌}
use doggy_dns.Common.Text.{Text, text, text_eq, lowercase}
use doggy_dns.Config.Toml.{
  Value, Fields, Items, string, table, array, other, end, field, nil, cons, key_path, item_path,
}

abbrev pub sensitive_keys : List Text
sensitive_keys =
    text "password"
    ∷ text "passwd"
    ∷ text "secret"
    ∷ text "token"
    ∷ text "authorization"
    ∷ text "api_key"
    ∷ text "apikey"
    ∷ []

abbrev pub any_equal : Text → List Text → Bool
any_equal s [] = false
any_equal s (t ∷ ts) = text_eq s t || any_equal s ts

unfoldable pub is_sensitive : Text → Bool
is_sensitive key = any_equal (lowercase key) sensitive_keys

abbrev pub stars : Text
stars = text "***"

-- What stands under a sensitive key: a string is hidden and its path noted, else the walk goes on.
abbrev pub hide :
    (path : Text) → (redacted : List Text) → Value → Value × List Text → Value × List Text
hide path redacted (string s) walked = (string stars, redacted ++ (path ∷ []))
hide path redacted value walked = walked

unfoldable mutual
  pub redact_value : Value → (path : Text) → (redacted : List Text) → Value × List Text
  redact_value (table fields) path redacted =
      let (fields', redacted') = redact_fields fields path redacted in (table fields', redacted')
  redact_value (array items) path redacted =
      let (items', redacted') = redact_items items path 0 redacted in (array items', redacted')
  redact_value (string s) path redacted = (string s, redacted)
  redact_value (other literal) path redacted = (other literal, redacted)

  pub redact_fields : Fields → (path : Text) → (redacted : List Text) → Fields × List Text
  redact_fields end path redacted = (end, redacted)
  redact_fields (field key child fields) path redacted =
      let child_path = key_path path key in
      let walked = redact_value child child_path redacted in
      let (child', redacted') =
        if is_sensitive key then hide child_path redacted child walked else walked in
      let (fields', redacted'') = redact_fields fields path redacted' in
      (field key child' fields', redacted'')

  pub redact_items :
      Items → (path : Text) → (index : ℕ) → (redacted : List Text) → Items × List Text
  redact_items nil path index redacted = (nil, redacted)
  redact_items (cons item items) path index redacted =
      let (item', redacted') = redact_value item (item_path path index) redacted in
      let (items', redacted'') = redact_items items path (suc index) redacted' in
      (cons item' items', redacted'')
