-- ===== src/Observability/Resource/Layers.antt =====
-- The map of attributes under `insert` and `or_insert_with` of
-- crates/doggy-dns-observability/src/resource.rs.
use doggy_dns.Common.{
  ◌≡◌, refl, ap, false, Option, none, some, [], ◌∷◌, if◌then◌else◌, Bool-cases, inl, inr,
}
use doggy_dns.Common.Text.{Text, text, text_eq, text_eq_iff}
use doggy_dns.Observability.Resource.{
  Attributes, get, insert, keep_or_insert, or_insert, unwrap_or, add_environment,
}

pub get-insert :
    (key value : Text) (attributes : Attributes)
    → get key (insert key value attributes) ≡ some value
get-insert key value [] = rw ((text_eq_iff key key).1 refl)
get-insert key value ((k, old) ∷ attributes) = elim (Bool-cases (text_eq k key)) [
  | inl e ↦ rw (e, e)
  | inr e ↦ rw (e, e) (get-insert key value attributes)
]

-- An entry under another key is left alone.
pub get-insert_other :
    (key other value : Text) (attributes : Attributes)
    → text_eq key other ≡ false
    → get other (insert key value attributes) ≡ get other attributes
get-insert_other key other value [] h = rw h
get-insert_other key other value ((k, old) ∷ attributes) h = elim (Bool-cases (text_eq k key)) [
  | inl e ↦
      let same = (text_eq_iff k key).0 e in
      let differs : text_eq k other ≡ false = rw same h in rw (e, differs)
  | inr e ↦ rw e (
      ap (λ r. if text_eq k other then some old else r)
        (get-insert_other key other value attributes h))
]

get-kept :
    (key value : Text) (attributes : Attributes) (found : Option Text)
    → get key attributes ≡ found
    → get key (keep_or_insert key value attributes found) ≡ some (unwrap_or found value)
get-kept key value attributes none h = get-insert key value attributes
get-kept key value attributes (some old) h = h

pub get-or_insert :
    (key value : Text) (attributes : Attributes)
    → get key (or_insert key value attributes) ≡ some (unwrap_or (get key attributes) value)
get-or_insert key value attributes = get-kept key value attributes (get key attributes) refl

get-kept_other :
    (key other value : Text) (attributes : Attributes) (found : Option Text)
    → text_eq key other ≡ false
    → get other (keep_or_insert key value attributes found) ≡ get other attributes
get-kept_other key other value attributes none h = get-insert_other key other value attributes h
get-kept_other key other value attributes (some old) h = refl

pub get-or_insert_other :
    (key other value : Text) (attributes : Attributes)
    → text_eq key other ≡ false
    → get other (or_insert key value attributes) ≡ get other attributes
get-or_insert_other key other value attributes h =
    get-kept_other key other value attributes (get key attributes) h

pub get-add_environment :
    (environment : Option Text) (other : Text) (attributes : Attributes)
    → text_eq (text "deployment.environment.name") other ≡ false
    → get other (add_environment environment attributes) ≡ get other attributes
get-add_environment none other attributes h = refl
get-add_environment (some value) other attributes h =
    get-insert_other (text "deployment.environment.name") other value attributes h
