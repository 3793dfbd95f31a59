-- ===== src/Config/Toml.antt =====
-- A parsed TOML document, as crates/doggy-dns-basic/src/env.rs and
-- crates/doggy-dns-control/src/redact.rs walk over it.
-- A table is the list of its entries in the order in which it is iterated, each key once; a number,
-- a truth value or a date stands as its literal, which no code reads.
pub mod Leaves
use doggy_dns.Common.{
  ℕ, zero, suc, ◌+◌, ◌/◌, ◌%◌, Bool, true, false, List, [], ◌∷◌, ◌++◌, ltb, if◌then◌else◌,
}
use doggy_dns.Common.Text.{Text, is_empty}

mutual
  pub data Value : Type 0 where
    string : Text → Value
    table : Fields → Value
    array : Items → Value
    other : Text → Value

  pub data Fields : Type 0 where
    end : Fields
    field : Text → Value → Fields → Fields

  pub data Items : Type 0 where
    nil : Items
    cons : Value → Items → Items

-- The decimal digits of an index, before what follows; the fuel is the number of digits at most.
abbrev pub digits : (fuel : ℕ) → ℕ → Text → Text
digits zero n s = s
digits (suc fuel) n s =
    let rest = digits fuel (n / 10) ((b'0' + n % 10) ∷ s) in
    if ltb n 10 then (b'0' + n) ∷ s else rest

abbrev pub decimal : ℕ → Text
decimal n = digits (suc n) n []

-- `{path}.{key}`, and the key alone at the top.
abbrev pub key_path : (path key : Text) → Text
key_path path key = if is_empty path then key else path ++ (b'.' ∷ key)

-- `{path}[{index}]`
abbrev pub item_path : (path : Text) → ℕ → Text
item_path path index = path ++ (b'[' ∷ (decimal index ++ (b']' ∷ [])))
