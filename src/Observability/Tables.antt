-- ===== src/Observability/Tables.antt =====
-- A table of `DictionaryBuilder` with its lookup map, and the step that `intern`, `function`,
-- `location`, `stack` and `thread_attribute` of
-- crates/doggy-dns-observability/src/profiles/convert.rs end with.
-- The map is the list of its entries; an index is an i32 by its 32 bits.
pub mod Keyed
use doggy_dns.Common.{ℕ, suc, ◌+◌, ◌%◌, ◌^◌, Option, none, some, List, [], ◌∷◌, ◌++◌, length}

pub record Table (K V : Type 0) : Type 0 where
  pub rows : List V
  pub lookup : List (K × ℕ)

abbrev pub pick : {P : Type 0} → Dec P → ℕ → Option ℕ → Option ℕ
pick (yes _) index later = some index
pick (no _) index later = later

abbrev pub find : {K : Type 0} → Discrete K → K → List (K × ℕ) → Option ℕ
find same k [] = none
find same k ((k', index) ∷ entries) = pick (same k k') index (find same k entries)

-- `len() as i32`
abbrev pub as_i32 : ℕ → ℕ
as_i32 n = n % 2 ^ 32

abbrev pub add_row : {K V : Type 0} → (K → V) → Table K V → K → Option ℕ → Table K V × ℕ
add_row row t k (some index) = (t, index)
add_row row t k none = (
  record { rows = t.rows ++ (row k ∷ []); lookup = (k, as_i32 (length t.rows)) ∷ t.lookup },
  as_i32 (length t.rows),
)

-- The index of a key: the one on record, or that of a new row.
unfoldable pub index_of : {K V : Type 0} → Discrete K → (K → V) → Table K V → K → Table K V × ℕ
index_of same row t k = add_row row t k (find same k t.lookup)
