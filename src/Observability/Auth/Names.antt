-- ===== src/Observability/Auth/Names.antt =====
-- The names of the headers under `insert_header` of
-- crates/doggy-dns-observability/src/auth.rs.
use doggy_dns.Common.{◌≢◌, refl, Option, none, some, [], ◌∷◌, All, Bool-cases, inl, inr}
use doggy_dns.Common.Text.{Text, text_eq, text_eq_iff, lowercase}
use doggy_dns.Observability.Auth.{
  Headers, eq_ignore_ascii_case, find_name, remove, remove_found, insert, insert_header,
}

abbrev pub IsOther : (lower : Text) → Text × Text → Type 0
IsOther lower header = lowercase header.0 ≢ lower

-- No two headers have the same name but for the case.
abbrev pub AreDistinct : Headers → Type 0
AreDistinct [] = Unit
AreDistinct (header ∷ headers) = All (IsOther (lowercase header.0)) headers × AreDistinct headers

remove-All :
    (P : Text × Text → Type 0) (name : Text) (headers : Headers)
    → All P headers
    → All P (remove name headers)
remove-All P name [] h = tt
remove-All P name (header ∷ headers) h = elim (Bool-cases (text_eq header.0 name)) [
  | inl e ↦ rw e (remove-All P name headers h.1)
  | inr e ↦ rw e (h.0, remove-All P name headers h.1)
]

remove-AreDistinct :
    (name : Text) (headers : Headers) → AreDistinct headers → AreDistinct (remove name headers)
remove-AreDistinct name [] h = tt
remove-AreDistinct name (header ∷ headers) h = elim (Bool-cases (text_eq header.0 name)) [
  | inl e ↦ rw e (remove-AreDistinct name headers h.1)
  | inr e ↦ rw e (
    remove-All (IsOther (lowercase header.0)) name headers h.0,
    remove-AreDistinct name headers h.1,
  )
]

others-kept :
    (lower : Text) (found : Option Text) (header : Text × Text) (headers : Headers)
    → IsOther lower header
    → All (IsOther lower) (remove_found found headers)
    → All (IsOther lower) (remove_found found (header ∷ headers))
others-kept lower none header headers other h = (other, h)
others-kept lower (some name) header headers other h = elim (Bool-cases (text_eq header.0 name)) [
  | inl e ↦ rw e h
  | inr e ↦ rw e (other, h)
]

-- Without the entry that has the name but for the case, no such entry is left.
remove_found-others :
    (name : Text) (headers : Headers)
    → AreDistinct headers
    → All (IsOther (lowercase name)) (remove_found (find_name name headers) headers)
remove_found-others name [] h = tt
remove_found-others name (header ∷ headers) h =
    elim (Bool-cases (eq_ignore_ascii_case header.0 name)) [
      | inl e ↦
          rw (e, (text_eq_iff header.0 header.0).1 refl)
            (remove-All (IsOther (lowercase name)) header.0 headers
              (rw (← ((text_eq_iff (lowercase header.0) (lowercase name)).0 e)) h.0))
      | inr e ↦ rw e (
          others-kept (lowercase name) (find_name name headers) header headers
            (λ p. let q = (text_eq_iff (lowercase header.0) (lowercase name)).1 p in cc)
            (remove_found-others name headers h.1))
    ]

remove_found-AreDistinct :
    (found : Option Text) (headers : Headers)
    → AreDistinct headers
    → AreDistinct (remove_found found headers)
remove_found-AreDistinct none headers h = h
remove_found-AreDistinct (some name) headers h = remove-AreDistinct name headers h

pub insert-AreDistinct :
    (name value : Text) (headers : Headers)
    → All (IsOther (lowercase name)) headers
    → AreDistinct headers
    → AreDistinct (insert name value headers)
insert-AreDistinct name value headers others h =
    (remove-All (IsOther (lowercase name)) name headers others, remove-AreDistinct name headers h)

pub insert_header-AreDistinct :
    (headers : Headers) (name value : Text)
    → AreDistinct headers
    → AreDistinct (insert_header headers name value)
unfolding insert_header
insert_header-AreDistinct headers name value h =
    insert-AreDistinct name value _ (remove_found-others name headers h)
      (remove_found-AreDistinct (find_name name headers) headers h)
