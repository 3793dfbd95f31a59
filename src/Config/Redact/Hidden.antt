-- ===== src/Config/Redact/Hidden.antt =====
-- What `redact_value` of crates/doggy-dns-control/src/redact.rs leaves of a document's strings.
use mathlib.Core.List.{append_assoc, append-nil, map-append}
use doggy_dns.Common.{
  ℕ, suc, ◌≡◌, refl, sym, ap, ◌∙◌, Bool, true, false, List, [], ◌∷◌, ◌++◌, map, if◌then◌else◌,
  Bool-cases, inl, inr,
}
use doggy_dns.Common.Text.{Text}
use doggy_dns.Config.Toml.{
  Value, Fields, Items, string, table, array, other, end, field, nil, cons, key_path, item_path,
}
use doggy_dns.Config.Toml.Leaves.{Leaf, leaves, field_leaves, item_leaves}
use doggy_dns.Config.Redact.{is_sensitive, stars, hide, redact_value, redact_fields, redact_items}

-- A string that is the value of a sensitive key becomes stars, any other stays.
abbrev pub hide_leaf : Leaf → Leaf
hide_leaf l = if l.picked then record l { content = stars } else l

-- The paths of the strings that are values of sensitive keys.
abbrev pub hidden_paths : List Leaf → List Text
hidden_paths [] = []
hidden_paths (l ∷ ls) = if l.picked then l.path ∷ hidden_paths ls else hidden_paths ls

hidden_paths-append :
    (xs ys : List Leaf) → hidden_paths (xs ++ ys) ≡ hidden_paths xs ++ hidden_paths ys
hidden_paths-append [] ys = refl
hidden_paths-append (x ∷ xs) ys = elim (Bool-cases x.picked) [
  | inl e ↦ rw e (ap (λ l. x.path ∷ l) (hidden_paths-append xs ys))
  | inr e ↦ rw e (hidden_paths-append xs ys)
]

-- What a walk has made of a value with the given strings.
abbrev Hides : (before after : List Leaf) → (redacted redacted' : List Text) → Type 0
Hides before after redacted redacted' =
    (after ≡ map hide_leaf before) × (redacted' ≡ redacted ++ hidden_paths before)

Hides-append :
    (before before' after after' : List Leaf) (r r' r'' : List Text)
    → Hides before after r r'
    → Hides before' after' r' r''
    → Hides (before ++ before') (after ++ after') r r''
Hides-append before before' after after' r r' r'' h h' = (
  simp (map-append, h.0, h'.0),
  h'.1
      ∙ ap (λ l. l ++ hidden_paths before') h.1
      ∙ simp (append_assoc, hidden_paths-append before before'),
)

-- What stands under a key, whose strings are hidden if the key is sensitive.
under_key-Hides :
    (sensitive : Bool) (v : Value) (path : Text) (r : List Text)
    → Hides
        (leaves is_sensitive false path v)
        (leaves is_sensitive false path (redact_value v path r).0)
        r
        (redact_value v path r).1
    → (let walked = redact_value v path r in
        let after = if sensitive then hide path r v walked else walked in
        Hides
          (leaves is_sensitive sensitive path v)
          (leaves is_sensitive sensitive path after.0)
          r
          after.1)
unfolding redact_value
under_key-Hides false v path r h = h
under_key-Hides true (string s) path r h = (refl, refl)
under_key-Hides true (table fields) path r h = h
under_key-Hides true (array items) path r h = h
under_key-Hides true (other literal) path r h = h

mutual
  unfolding redact_value

  redact_value-Hides :
      (v : Value) (path : Text) (r : List Text)
      → Hides
          (leaves is_sensitive false path v)
          (leaves is_sensitive false path (redact_value v path r).0)
          r
          (redact_value v path r).1
  redact_value-Hides (string s) path r = (refl, sym (append-nil r))
  redact_value-Hides (table fields) path r = redact_fields-Hides fields path r
  redact_value-Hides (array items) path r = redact_items-Hides items path 0 r
  redact_value-Hides (other literal) path r = (refl, sym (append-nil r))

  redact_fields-Hides :
      (fields : Fields) (path : Text) (r : List Text)
      → Hides
          (field_leaves is_sensitive path fields)
          (field_leaves is_sensitive path (redact_fields fields path r).0)
          r
          (redact_fields fields path r).1
  redact_fields-Hides end path r = (refl, sym (append-nil r))
  redact_fields-Hides (field key child fields) path r =
      Hides-append _ _ _ _ r _ _
        (under_key-Hides (is_sensitive key) child (key_path path key) r
          (redact_value-Hides child (key_path path key) r))
        (redact_fields-Hides fields path _)

  redact_items-Hides :
      (items : Items) (path : Text) (index : ℕ) (r : List Text)
      → Hides
          (item_leaves is_sensitive path index items)
          (item_leaves is_sensitive path index (redact_items items path index r).0)
          r
          (redact_items items path index r).1
  redact_items-Hides nil path index r = (refl, sym (append-nil r))
  redact_items-Hides (cons item items) path index r =
      Hides-append _ _ _ _ r _ _ (redact_value-Hides item (item_path path index) r)
        (redact_items-Hides items path (suc index) _)

-- A document without what its strings say: its keys, its shape, its numbers, truth values and dates.
mutual
  pub blank : Value → Value
  blank (string s) = string []
  blank (table fields) = table (blank_fields fields)
  blank (array items) = array (blank_items items)
  blank (other literal) = other literal

  pub blank_fields : Fields → Fields
  blank_fields end = end
  blank_fields (field key child fields) = field key (blank child) (blank_fields fields)

  pub blank_items : Items → Items
  blank_items nil = nil
  blank_items (cons item items) = cons (blank item) (blank_items items)

under_key-blank :
    (sensitive : Bool) (v : Value) (path : Text) (r : List Text)
    → blank (redact_value v path r).0 ≡ blank v
    → (let walked = redact_value v path r in
        blank (if sensitive then hide path r v walked else walked).0 ≡ blank v)
unfolding redact_value blank
under_key-blank false v path r h = h
under_key-blank true (string s) path r h = refl
under_key-blank true (table fields) path r h = h
under_key-blank true (array items) path r h = h
under_key-blank true (other literal) path r h = h

mutual
  unfolding redact_value blank

  redact_value-blank :
      (v : Value) (path : Text) (r : List Text) → blank (redact_value v path r).0 ≡ blank v
  redact_value-blank (string s) path r = refl
  redact_value-blank (table fields) path r = ap table (redact_fields-blank fields path r)
  redact_value-blank (array items) path r = ap array (redact_items-blank items path 0 r)
  redact_value-blank (other literal) path r = refl

  redact_fields-blank :
      (fields : Fields) (path : Text) (r : List Text)
      → blank_fields (redact_fields fields path r).0 ≡ blank_fields fields
  redact_fields-blank end path r = refl
  redact_fields-blank (field key child fields) path r =
      rw
        (
          under_key-blank (is_sensitive key) child (key_path path key) r
              (redact_value-blank child (key_path path key) r),
          redact_fields-blank fields path
              (if is_sensitive key
                then hide (key_path path key) r child (redact_value child (key_path path key) r)
                else redact_value child (key_path path key) r).1,
        )
        refl

  redact_items-blank :
      (items : Items) (path : Text) (index : ℕ) (r : List Text)
      → blank_items (redact_items items path index r).0 ≡ blank_items items
  redact_items-blank nil path index r = refl
  redact_items-blank (cons item items) path index r =
      rw
        (
          redact_value-blank item (item_path path index) r,
          redact_items-blank items path (suc index) (redact_value item (item_path path index) r).1,
        )
        refl

-- After the walk each string that is itself the value of a sensitive key is `***`; every other
-- string is as before, those in an array under a sensitive key among them; the paths noted are those
-- of the strings that became `***`, in the order of the document; and but for what strings say, the
-- whole document is as before: its keys, its tables and arrays, its numbers, truth values and dates.
pub redact_value-leaves :
    (v : Value)
    → (leaves is_sensitive false [] (redact_value v [] []).0
        ≡ map hide_leaf (leaves is_sensitive false [] v))
      × ((redact_value v [] []).1 ≡ hidden_paths (leaves is_sensitive false [] v))
      × (blank (redact_value v [] []).0 ≡ blank v)
redact_value-leaves v =
    let hidden = redact_value-Hides v [] [] in (hidden.0, hidden.1, redact_value-blank v [] [])
