-- ===== src/Observability/Profiles/Described.antt =====
-- What the tables of `DictionaryBuilder`, crates/doggy-dns-observability/src/profiles/convert.rs,
-- say of an index.
use doggy_dns.Common.{ℕ, ◌≡◌, some, List, [], ◌∷◌}
use doggy_dns.Common.Text.{Text, text}
use doggy_dns.Observability.Tables.Keyed.{
  get_elem?, Grown, Fits, IsKeyed, Grown-refl, Grown-trans, Grown-get_elem?, Grown-Fits,
}
use doggy_dns.Observability.Profiles.{
  ProfileSymbol, Function, Line, Location, Stack, KeyValueAndUnit, DictionaryBuilder, string_row,
  function_row, location_row, stack_row, attribute_row,
}

module _ (d : DictionaryBuilder) where
  -- Every number of rows is an i32.
  pub record IsSmall : Type 0 where
    pub strings : Fits d.strings
    pub functions : Fits d.functions
    pub locations : Fits d.locations
    pub stacks : Fits d.stacks
    pub attributes : Fits d.attributes

  -- Each key on record leads to its row.
  pub record IsConsistent : Type 0 where
    pub strings : IsKeyed string_row d.strings
    pub functions : IsKeyed function_row d.functions
    pub locations : IsKeyed location_row d.locations
    pub stacks : IsKeyed stack_row d.stacks
    pub attributes : IsKeyed attribute_row d.attributes

  abbrev pub NamesString : ℕ → Text → Type 0
  NamesString i s = get_elem? d.strings.rows i ≡ some s

  abbrev pub NamesFunction : ℕ → ProfileSymbol → Type 0
  NamesFunction i symbol =
      (f : Function) × (get_elem? d.functions.rows i ≡ some f)
      × NamesString f.name_strindex symbol.name
      × NamesString f.system_name_strindex symbol.system_name
      × NamesString f.filename_strindex symbol.filename

  abbrev pub NameLines : List Line → List ProfileSymbol → Type 0
  NameLines [] [] = Unit
  NameLines [] (_ ∷ _) = ⊥
  NameLines (_ ∷ _) [] = ⊥
  NameLines (l ∷ lines) (symbol ∷ symbols) =
      NamesFunction l.function_index symbol × (l.line ≡ symbol.line) × NameLines lines symbols

  -- A frame by the address of its first symbol and the lines of all of them.
  abbrev pub NamesFrame : ℕ → ProfileSymbol → List ProfileSymbol → Type 0
  NamesFrame i symbol symbols =
      (l : Location) × (get_elem? d.locations.rows i ≡ some l)
      × (l.address ≡ symbol.address)
      × NameLines l.lines (symbol ∷ symbols)

  -- The frames that have a symbol, in order.
  abbrev pub NameFrames : List ℕ → List (List ProfileSymbol) → Type 0
  NameFrames indices ([] ∷ frames) = NameFrames indices frames
  NameFrames [] [] = Unit
  NameFrames [] ((_ ∷ _) ∷ _) = ⊥
  NameFrames (_ ∷ _) [] = ⊥
  NameFrames (i ∷ indices) ((symbol ∷ symbols) ∷ frames) =
      NamesFrame i symbol symbols × NameFrames indices frames

  abbrev pub NamesStack : ℕ → List (List ProfileSymbol) → Type 0
  NamesStack i frames =
      (s : Stack) × (get_elem? d.stacks.rows i ≡ some s) × NameFrames s.location_indices frames

  abbrev pub NamesThread : ℕ → Text → Type 0
  NamesThread i thread_name =
      (a : KeyValueAndUnit) × (get_elem? d.attributes.rows i ≡ some a)
      × NamesString a.key_strindex (text "thread.name")
      × (a.value ≡ some thread_name)

-- No row of any table is lost or moved.
pub record IsGrown (d e : DictionaryBuilder) : Type 0 where
  pub strings : Grown d.strings e.strings
  pub functions : Grown d.functions e.functions
  pub locations : Grown d.locations e.locations
  pub stacks : Grown d.stacks e.stacks
  pub attributes : Grown d.attributes e.attributes

pub IsGrown-refl : (d : DictionaryBuilder) → IsGrown d d
IsGrown-refl d = record {
  strings = Grown-refl d.strings;
  functions = Grown-refl d.functions;
  locations = Grown-refl d.locations;
  stacks = Grown-refl d.stacks;
  attributes = Grown-refl d.attributes;
}

pub IsGrown-trans : {d e f : DictionaryBuilder} → IsGrown d e → IsGrown e f → IsGrown d f
IsGrown-trans {d} {e} {f} g h = record {
  strings = Grown-trans d.strings e.strings f.strings g.strings h.strings;
  functions = Grown-trans d.functions e.functions f.functions g.functions h.functions;
  locations = Grown-trans d.locations e.locations f.locations g.locations h.locations;
  stacks = Grown-trans d.stacks e.stacks f.stacks g.stacks h.stacks;
  attributes = Grown-trans d.attributes e.attributes f.attributes g.attributes h.attributes;
}

module _ {d e : DictionaryBuilder} (g : IsGrown d e) where
  pub IsGrown-IsSmall : IsSmall e → IsSmall d
  IsGrown-IsSmall s = record {
    strings = Grown-Fits d.strings e.strings g.strings s.strings;
    functions = Grown-Fits d.functions e.functions g.functions s.functions;
    locations = Grown-Fits d.locations e.locations g.locations s.locations;
    stacks = Grown-Fits d.stacks e.stacks g.stacks s.stacks;
    attributes = Grown-Fits d.attributes e.attributes g.attributes s.attributes;
  }

  pub NamesString-grow : (i : ℕ) (s : Text) → NamesString d i s → NamesString e i s
  NamesString-grow i s h = Grown-get_elem? d.strings e.strings i g.strings h

  pub NamesFunction-grow :
      (i : ℕ) (symbol : ProfileSymbol) → NamesFunction d i symbol → NamesFunction e i symbol
  NamesFunction-grow i symbol (f, row, name, system_name, filename) = (
    f,
    Grown-get_elem? d.functions e.functions i g.functions row,
    NamesString-grow _ _ name,
    NamesString-grow _ _ system_name,
    NamesString-grow _ _ filename,
  )

  pub NameLines-grow :
      (lines : List Line) (symbols : List ProfileSymbol)
      → NameLines d lines symbols
      → NameLines e lines symbols
  NameLines-grow [] [] h = tt
  NameLines-grow [] (_ ∷ _) h = h
  NameLines-grow (_ ∷ _) [] h = h
  NameLines-grow (l ∷ lines) (symbol ∷ symbols) (named, line, h) =
      (NamesFunction-grow l.function_index symbol named, line, NameLines-grow lines symbols h)

  pub NamesFrame-grow :
      (i : ℕ) (symbol : ProfileSymbol) (symbols : List ProfileSymbol)
      → NamesFrame d i symbol symbols
      → NamesFrame e i symbol symbols
  NamesFrame-grow i symbol symbols (l, row, address, h) = (
    l,
    Grown-get_elem? d.locations e.locations i g.locations row,
    address,
    NameLines-grow l.lines (symbol ∷ symbols) h,
  )

  pub NameFrames-grow :
      (indices : List ℕ) (frames : List (List ProfileSymbol))
      → NameFrames d indices frames
      → NameFrames e indices frames
  NameFrames-grow indices ([] ∷ frames) h = NameFrames-grow indices frames h
  NameFrames-grow [] [] h = tt
  NameFrames-grow [] ((_ ∷ _) ∷ _) h = h
  NameFrames-grow (_ ∷ _) [] h = h
  NameFrames-grow (i ∷ indices) ((symbol ∷ symbols) ∷ frames) (named, h) =
      (NamesFrame-grow i symbol symbols named, NameFrames-grow indices frames h)

  pub NamesStack-grow :
      (i : ℕ) (frames : List (List ProfileSymbol)) → NamesStack d i frames → NamesStack e i frames
  NamesStack-grow i frames (s, row, h) = (
    s,
    Grown-get_elem? d.stacks e.stacks i g.stacks row,
    NameFrames-grow s.location_indices frames h,
  )

  pub NamesThread-grow : (i : ℕ) (name : Text) → NamesThread d i name → NamesThread e i name
  NamesThread-grow i name (a, row, key, value) = (
    a,
    Grown-get_elem? d.attributes e.attributes i g.attributes row,
    NamesString-grow _ _ key,
    value,
  )
