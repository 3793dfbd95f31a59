-- ===== src/Config/Toml/Leaves.antt =====
-- The strings of a document with their paths, in the order of the walks of
-- crates/doggy-dns-basic/src/env.rs and crates/doggy-dns-control/src/redact.rs.
use doggy_dns.Common.{ℕ, suc, Bool, false, List, [], ◌∷◌, ◌++◌}
use doggy_dns.Common.Text.{Text}
use doggy_dns.Config.Toml.{
  Value, Fields, Items, string, table, array, other, end, field, nil, cons, key_path, item_path,
}

-- A string, where it stands, and whether it is the value of a key that a test picks.
pub record Leaf : Type 0 where
  pub path : Text
  pub picked : Bool
  pub content : Text

abbrev mutual
  pub leaves : (Text → Bool) → (picked : Bool) → (path : Text) → Value → List Leaf
  leaves pick picked path (string s) = record { path = path; picked = picked; content = s } ∷ []
  leaves pick picked path (table fields) = field_leaves pick path fields
  leaves pick picked path (array items) = item_leaves pick path 0 items
  leaves pick picked path (other literal) = []

  pub field_leaves : (Text → Bool) → (path : Text) → Fields → List Leaf
  field_leaves pick path end = []
  field_leaves pick path (field key child fields) =
      leaves pick (pick key) (key_path path key) child ++ field_leaves pick path fields

  pub item_leaves : (Text → Bool) → (path : Text) → (index : ℕ) → Items → List Leaf
  item_leaves pick path index nil = []
  item_leaves pick path index (cons item items) =
      leaves pick false (item_path path index) item ++ item_leaves pick path (suc index) items
