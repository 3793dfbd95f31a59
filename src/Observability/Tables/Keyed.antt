-- ===== src/Observability/Tables/Keyed.antt =====
-- A table whose map leads each key to its own row.
use mathlib.Core.List.{append_assoc, append-nil}
use doggy_dns.Common.{
  ℕ, zero, suc, ◌+◌, ◌^◌, ◌≤◌, ◌<◌, ◌≡◌, refl, sym, ap, ◌∙◌, Option, none, some, List, [], ◌∷◌,
  ◌++◌, length, length-append, All, arith,
}
use doggy_dns.Observability.Tables.{Table, pick, find, as_i32, add_row, index_of}

module _ {A : Type 0} where
  abbrev pub get_elem? : List A → ℕ → Option A
  get_elem? [] i = none
  get_elem? (x ∷ xs) zero = some x
  get_elem? (x ∷ xs) (suc i) = get_elem? xs i

  pub get_elem?-append :
      (xs ys : List A) (i : ℕ) {x : A} → get_elem? xs i ≡ some x → get_elem? (xs ++ ys) i ≡ some x
  get_elem?-append [] ys i h = cc
  get_elem?-append (x ∷ xs) ys zero h = h
  get_elem?-append (x ∷ xs) ys (suc i) h = get_elem?-append xs ys i h

  get_elem?-last : (xs : List A) (x : A) → get_elem? (xs ++ (x ∷ [])) (length xs) ≡ some x
  get_elem?-last [] x = refl
  get_elem?-last (y ∷ xs) x = get_elem?-last xs x

  pub get_elem?-lt : (xs : List A) (i : ℕ) {x : A} → get_elem? xs i ≡ some x → i < length xs
  get_elem?-lt [] i h = cc
  get_elem?-lt (x ∷ xs) zero h = omega arith
  get_elem?-lt (x ∷ xs) (suc i) h = omega (arith, get_elem?-lt xs i h)

-- No row is lost or moved.
abbrev pub Grown : {K V : Type 0} → (t t' : Table K V) → Type 0
Grown {V} t t' = (more : List V) × (t'.rows ≡ t.rows ++ more)

-- The number of rows is an i32.
abbrev pub Fits : {K V : Type 0} → Table K V → Type 0
Fits t = length t.rows ≤ 2 ^ 31

-- The row of each key on record.
abbrev pub IsKeyed : {K V : Type 0} → (K → V) → Table K V → Type 0
IsKeyed row t = All (λ e. get_elem? t.rows e.1 ≡ some (row e.0)) t.lookup

module _ {K V : Type 0} where
  pub Grown-refl : (t : Table K V) → Grown t t
  Grown-refl t = ([], sym (append-nil t.rows))

  pub Grown-trans : (t u v : Table K V) → Grown t u → Grown u v → Grown t v
  Grown-trans t u v (a, p) (b, q) = (a ++ b, q ∙ ap (λ l. l ++ b) p ∙ append_assoc t.rows a b)

  pub Grown-get_elem? :
      (t u : Table K V) (i : ℕ) {x : V}
      → Grown t u
      → get_elem? t.rows i ≡ some x
      → get_elem? u.rows i ≡ some x
  Grown-get_elem? t u i (more, p) h = rw p (get_elem?-append t.rows more i h)

  pub Grown-Fits : (t u : Table K V) → Grown t u → Fits u → Fits t
  Grown-Fits t u (more, p) fits =
      let longer : length u.rows ≡ length t.rows + length more =
        ap length p ∙ length-append t.rows more in
      omega arith

  module _ (same : Discrete K) (row : K → V) where
    pick_row :
        (k k' : K) (rows : List V) (index : ℕ) (d : Dec (k ≡ k')) (later : Option ℕ) {i : ℕ}
        → pick d index later ≡ some i
        → get_elem? rows index ≡ some (row k')
        → (later ≡ some i → get_elem? rows i ≡ some (row k))
        → get_elem? rows i ≡ some (row k)
    pick_row k k' rows index (yes p) later {i} h at_index go =
        let same_index : index ≡ i = cc in rw (p, ← same_index) at_index
    pick_row k k' rows index (no p) later h at_index go = go h

    find_row :
        (k : K) (rows : List V) (entries : List (K × ℕ)) {i : ℕ}
        → All (λ e. get_elem? rows e.1 ≡ some (row e.0)) entries
        → find same k entries ≡ some i
        → get_elem? rows i ≡ some (row k)
    find_row k rows [] keyed h = cc
    find_row k rows ((k', index) ∷ entries) keyed h =
        pick_row k k' rows index (same k k') (find same k entries) h keyed.0
          (find_row k rows entries keyed.1)

    add_row-Grown : (t : Table K V) (k : K) (o : Option ℕ) → Grown t (add_row row t k o).0
    add_row-Grown t k none = (row k ∷ [], refl)
    add_row-Grown t k (some i) = Grown-refl t

    -- The row of a key that is put last.
    add_row-last :
        (t : Table K V) (k : K)
        → Fits (add_row row t k none).0
        → get_elem? (t.rows ++ (row k ∷ [])) (as_i32 (length t.rows)) ≡ some (row k)
    add_row-last t k fits =
        let here : as_i32 (length t.rows) ≡ length t.rows =
          omega (arith, length-append t.rows (row k ∷ [])) in
        ap (get_elem? (t.rows ++ (row k ∷ []))) here ∙ get_elem?-last t.rows (row k)

    keyed-append :
        (rows more : List V) (entries : List (K × ℕ))
        → All (λ e. get_elem? rows e.1 ≡ some (row e.0)) entries
        → All (λ e. get_elem? (rows ++ more) e.1 ≡ some (row e.0)) entries
    keyed-append rows more [] h = tt
    keyed-append rows more (e ∷ entries) h =
        (get_elem?-append rows more e.1 h.0, keyed-append rows more entries h.1)

    add_row-IsKeyed :
        (t : Table K V) (k : K) (o : Option ℕ)
        → Fits (add_row row t k o).0
        → IsKeyed row t
        → IsKeyed row (add_row row t k o).0
    add_row-IsKeyed t k none fits keyed =
        (add_row-last t k fits, keyed-append t.rows (row k ∷ []) t.lookup keyed)
    add_row-IsKeyed t k (some i) fits keyed = keyed

    add_row_lem :
        (t : Table K V) (k : K) (o : Option ℕ)
        → Fits (add_row row t k o).0
        → ((i : ℕ) → o ≡ some i → get_elem? t.rows i ≡ some (row k))
        → get_elem? (add_row row t k o).0.rows (add_row row t k o).1 ≡ some (row k)
    add_row_lem t k none fits found = add_row-last t k fits
    add_row_lem t k (some i) fits found = found i refl

    pub index_of-Grown : (t : Table K V) (k : K) → Grown t (index_of same row t k).0
    unfolding index_of
    index_of-Grown t k = add_row-Grown t k (find same k t.lookup)

    pub index_of-IsKeyed :
        (t : Table K V) (k : K)
        → Fits (index_of same row t k).0
        → IsKeyed row t
        → IsKeyed row (index_of same row t k).0
    unfolding index_of
    index_of-IsKeyed t k fits keyed = add_row-IsKeyed t k (find same k t.lookup) fits keyed

    -- The index is that of the row of the key.
    pub index_of_lem :
        (t : Table K V) (k : K)
        → Fits (index_of same row t k).0
        → IsKeyed row t
        → get_elem? (index_of same row t k).0.rows (index_of same row t k).1 ≡ some (row k)
    unfolding index_of
    index_of_lem t k fits keyed =
        add_row_lem t k (find same k t.lookup) fits (λ i. find_row k t.rows t.lookup keyed)
