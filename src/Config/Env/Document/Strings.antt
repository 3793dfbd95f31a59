-- ===== src/Config/Env/Document/Strings.antt =====
-- What `expand_value` of crates/doggy-dns-basic/src/env.rs makes of a document's strings.
use doggy_dns.Common.{ℕ, suc, Bool, false, Option, List, [], ◌∷◌, ◌++◌, ◌≡◌, refl, sym, ap, ◌∙◌}
use doggy_dns.Common.Text.{Text}
use doggy_dns.Common.Results.{Result, ok, err, ◌>>=◌, >>=-ok, >>=_assoc, >>=-view}
use doggy_dns.Config.Toml.{
  Value, Fields, Items, string, table, array, other, end, field, nil, cons, key_path, item_path,
}
use doggy_dns.Config.Toml.Leaves.{Leaf, leaves, field_leaves, item_leaves}
use doggy_dns.Config.Env.{expand_env}
use doggy_dns.Config.Env.Document.{
  PathError, at_path, expand_value, expand_fields, expand_items, expand_env_in_value,
}

module _ (lookup : Text → Option Text) (pick : Text → Bool) where
  -- The strings expanded from the left, until one fails.
  abbrev pub expand_leaves : List Leaf → Result PathError (List Leaf)
  expand_leaves [] = ok []
  expand_leaves (l ∷ ls) = at_path l.path (expand_env lookup l.content) >>= λ s.
      expand_leaves ls >>= λ ls'. ok (record l { content = s } ∷ ls')

  cons-join :
      (m : Result PathError Text) (xs ys : Result PathError (List Leaf)) (leaf : Text → Leaf)
      → (m >>= λ s. (xs >>= λ a. ys >>= λ b. ok (a ++ b)) >>= λ l. ok (leaf s ∷ l))
        ≡ ((m >>= λ s. xs >>= λ l. ok (leaf s ∷ l)) >>= λ a. ys >>= λ b. ok (a ++ b))
  cons-join (ok s) (ok a) (ok b) leaf = refl
  cons-join (ok s) (ok a) (err e) leaf = refl
  cons-join (ok s) (err e) ys leaf = refl
  cons-join (err e) xs ys leaf = refl

  expand_leaves-append :
      (xs ys : List Leaf)
      → expand_leaves (xs ++ ys)
        ≡ (expand_leaves xs >>= λ xs'. expand_leaves ys >>= λ ys'. ok (xs' ++ ys'))
  expand_leaves-append [] ys = sym (>>=-ok (expand_leaves ys))
  expand_leaves-append (l ∷ ls) ys =
      ap
        (λ r. at_path l.path (expand_env lookup l.content) >>= λ s.
          r >>= λ ls'. ok (record l { content = s } ∷ ls'))
        (expand_leaves-append ls ys)
      ∙ cons-join (at_path l.path (expand_env lookup l.content)) (expand_leaves ls)
          (expand_leaves ys) (λ s. record l { content = s })

  -- The strings of two parts, one walked after the other.
  parts-leaves :
      {A B C : Type 0}
      → (m : Result PathError A) (n : Result PathError B) (pair : A → B → C)
      → (view : C → List Leaf) (view_a : A → List Leaf) (view_b : B → List Leaf)
      → (xs ys : List Leaf) → ((a : A) (b : B) → view (pair a b) ≡ view_a a ++ view_b b)
      → (m >>= λ a. ok (view_a a)) ≡ expand_leaves xs
      → (n >>= λ b. ok (view_b b)) ≡ expand_leaves ys
      → (m >>= (λ a. n >>= λ b. ok (pair a b)) >>= λ c. ok (view c)) ≡ expand_leaves (xs ++ ys)
  parts-leaves m n pair view view_a view_b xs ys split h h' =
      >>=-view m n pair view view_a view_b (λ x y. x ++ y) split
      ∙ rw (h, h') (sym (expand_leaves-append xs ys))

  mutual
    unfolding expand_value

    expand_value-leaves :
        (path : Text) (picked : Bool) (v : Value)
        → (expand_value lookup path v >>= λ v'. ok (leaves pick picked path v'))
          ≡ expand_leaves (leaves pick picked path v)
    expand_value-leaves path picked (string s) = >>=_assoc (at_path path (expand_env lookup s)) _ _
    expand_value-leaves path picked (table fields) =
        >>=_assoc (expand_fields lookup path fields) _ _ ∙ expand_fields-leaves path fields
    expand_value-leaves path picked (array items) =
        >>=_assoc (expand_items lookup path 0 items) _ _ ∙ expand_items-leaves path 0 items
    expand_value-leaves path picked (other literal) = refl

    expand_fields-leaves :
        (path : Text) (fields : Fields)
        → (expand_fields lookup path fields >>= λ f. ok (field_leaves pick path f))
          ≡ expand_leaves (field_leaves pick path fields)
    expand_fields-leaves path end = refl
    expand_fields-leaves path (field key child fields) =
        parts-leaves (expand_value lookup (key_path path key) child)
          (expand_fields lookup path fields) (field key) (field_leaves pick path)
          (leaves pick (pick key) (key_path path key)) (field_leaves pick path) _ _ (λ a b. refl)
          (expand_value-leaves (key_path path key) (pick key) child)
          (expand_fields-leaves path fields)

    expand_items-leaves :
        (path : Text) (index : ℕ) (items : Items)
        → (expand_items lookup path index items >>= λ i. ok (item_leaves pick path index i))
          ≡ expand_leaves (item_leaves pick path index items)
    expand_items-leaves path index nil = refl
    expand_items-leaves path index (cons item items) =
        parts-leaves (expand_value lookup (item_path path index) item)
          (expand_items lookup path (suc index) items) cons (item_leaves pick path index)
          (leaves pick false (item_path path index)) (item_leaves pick path (suc index)) _ _
          (λ a b. refl) (expand_value-leaves (item_path path index) false item)
          (expand_items-leaves path (suc index) items)

  -- The expansion of a document keeps the place of every string, whichever keys are picked, and
  -- expands each by itself; where one fails the document fails, with the error of the first string
  -- that fails in the order of the document and with that string's path.
  pub expand_env_in_value-leaves :
      (v : Value)
      → (expand_env_in_value lookup v >>= λ v'. ok (leaves pick false [] v'))
        ≡ expand_leaves (leaves pick false [] v)
  unfolding expand_env_in_value
  expand_env_in_value-leaves v = expand_value-leaves [] false v
