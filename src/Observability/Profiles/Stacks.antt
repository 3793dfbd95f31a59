-- ===== src/Observability/Profiles/Stacks.antt =====
-- What `location`, `stack` and `thread_attribute` of `DictionaryBuilder`,
-- crates/doggy-dns-observability/src/profiles/convert.rs, leave of the tables, and what they name.
use doggy_dns.Common.{ℕ, ◌≡◌, refl, Option, none, some, List, [], ◌∷◌, map}
use doggy_dns.Common.Text.{Text, text}
use doggy_dns.Observability.Tables.{index_of}
use doggy_dns.Observability.Tables.Keyed.{
  Grown-refl, index_of-Grown, index_of-IsKeyed, index_of_lem,
}
use doggy_dns.Observability.Profiles.{
  ProfileSymbol, ProfileFrame, ProfileSample, DictionaryBuilder, line_row, location_row, stack_row,
  attribute_row, same_text, same_location, same_attribute, intern, line_key_of, location,
  location_indices_of, add_stack, push_index, stack, thread_attribute,
}
use doggy_dns.Observability.Profiles.Described.{
  IsSmall, IsConsistent, IsGrown, IsGrown-refl, IsGrown-trans, IsGrown-IsSmall, NamesFrame,
  NameFrames, NamesStack, NamesThread, NameLines-grow, NameFrames-grow, NamesFrame-grow,
}
use doggy_dns.Observability.Profiles.Steps.{
  intern-IsGrown, intern-IsConsistent, intern_lem, line_key_of-IsGrown, line_key_of_lem,
}

-- What an index of a frame names, if there is one.
abbrev pub NamesFound : DictionaryBuilder → Option ℕ → List ProfileSymbol → Type 0
NamesFound d none symbols = symbols ≡ []
NamesFound d (some i) [] = ⊥
NamesFound d (some i) (symbol ∷ symbols) = NamesFrame d i symbol symbols

-- The row of a frame, behind its lines.
location-added :
    (d : DictionaryBuilder) (symbols : List ProfileSymbol) (address : ℕ)
    → (let walked = line_key_of d symbols in
        let d1 = walked.0 in
        let added = index_of same_location location_row d1.locations (address, walked.1) in
        IsGrown d1 (record d1 { locations = added.0 }))
location-added d symbols address =
    let d1 = (line_key_of d symbols).0 in
    record {
      strings = Grown-refl d1.strings;
      functions = Grown-refl d1.functions;
      locations = index_of-Grown same_location location_row d1.locations _;
      stacks = Grown-refl d1.stacks;
      attributes = Grown-refl d1.attributes;
    }

location-grows :
    (d : DictionaryBuilder) (symbols : List ProfileSymbol)
    → IsGrown d (location d (record { symbols = symbols })).0
unfolding location
location-grows d [] = IsGrown-refl d
location-grows d (symbol ∷ symbols) =
    IsGrown-trans (line_key_of-IsGrown d (symbol ∷ symbols))
      (location-added d (symbol ∷ symbols) symbol.address)

location_lem :
    (d : DictionaryBuilder) (symbols : List ProfileSymbol)
    → (let d' = location d (record { symbols = symbols }) in
        IsSmall d'.0 → IsConsistent d → IsConsistent d'.0 × NamesFound d'.0 d'.1 symbols)
unfolding location
location_lem d [] small consistent = (consistent, refl)
location_lem d (symbol ∷ symbols) small consistent =
    let grown = location-added d (symbol ∷ symbols) symbol.address in
    let kept = line_key_of_lem d (symbol ∷ symbols) (IsGrown-IsSmall grown small) consistent in
    let line_key = (line_key_of d (symbol ∷ symbols)).1 in
    (
      record {
        strings = kept.0.strings;
        functions = kept.0.functions;
        locations =
            index_of-IsKeyed same_location location_row _ _ small.locations kept.0.locations;
        stacks = kept.0.stacks;
        attributes = kept.0.attributes;
      },
      (
        location_row (symbol.address, line_key),
        index_of_lem same_location location_row _ _ small.locations kept.0.locations,
        refl,
        NameLines-grow grown (map line_row line_key) (symbol ∷ symbols) kept.1,
      ),
    )

abbrev pub symbols_of : ProfileFrame → List ProfileSymbol
symbols_of frame = frame.symbols

push_index-NameFrames :
    (d e : DictionaryBuilder) (index : Option ℕ) (indices : List ℕ) (symbols : List ProfileSymbol)
    → (frames : List (List ProfileSymbol)) → IsGrown d e
    → NamesFound d index symbols
    → NameFrames e indices frames
    → NameFrames e (push_index index indices) (symbols ∷ frames)
push_index-NameFrames d e none indices [] frames grown found h = h
push_index-NameFrames d e none indices (symbol ∷ symbols) frames grown found h = cc
push_index-NameFrames d e (some i) indices [] frames grown found h = absurd found
push_index-NameFrames d e (some i) indices (symbol ∷ symbols) frames grown found h =
    (NamesFrame-grow grown i symbol symbols found, h)

location_indices_of-IsGrown :
    (d : DictionaryBuilder) (frames : List ProfileFrame)
    → IsGrown d (location_indices_of d frames).0
unfolding location_indices_of
location_indices_of-IsGrown d [] = IsGrown-refl d
location_indices_of-IsGrown d (frame ∷ frames) =
    IsGrown-trans (location-grows d frame.symbols)
      (location_indices_of-IsGrown (location d frame).0 frames)

location_indices_of_lem :
    (d : DictionaryBuilder) (frames : List ProfileFrame)
    → (let d' = location_indices_of d frames in
        IsSmall d'.0
        → IsConsistent d
        → IsConsistent d'.0 × NameFrames d'.0 d'.1 (map symbols_of frames))
unfolding location_indices_of
location_indices_of_lem d [] small consistent = (consistent, tt)
location_indices_of_lem d (frame ∷ frames) small consistent =
    let grown = location_indices_of-IsGrown (location d frame).0 frames in
    let first = location_lem d frame.symbols (IsGrown-IsSmall grown small) consistent in
    let later = location_indices_of_lem (location d frame).0 frames small first.0 in
    (
      later.0,
      push_index-NameFrames (location d frame).0 _ _ _ frame.symbols (map symbols_of frames) grown
          first.1 later.1,
    )

add_stack-IsGrown : (d : DictionaryBuilder) (indices : List ℕ) → IsGrown d (add_stack d indices).0
add_stack-IsGrown d [] = IsGrown-refl d
add_stack-IsGrown d (i ∷ indices) = record {
  strings = Grown-refl d.strings;
  functions = Grown-refl d.functions;
  locations = Grown-refl d.locations;
  stacks = index_of-Grown same_text stack_row d.stacks (i ∷ indices);
  attributes = Grown-refl d.attributes;
}

-- Some frame has a symbol.
abbrev pub HasSymbol : List (List ProfileSymbol) → Type 0
HasSymbol [] = ⊥
HasSymbol ([] ∷ frames) = HasSymbol frames
HasSymbol ((_ ∷ _) ∷ _) = Unit

-- What an index of a stack names, if there is one.
abbrev pub NamesFoundStack : DictionaryBuilder → Option ℕ → List (List ProfileSymbol) → Type 0
NamesFoundStack d none frames = NameFrames d [] frames
NamesFoundStack d (some i) frames = NamesStack d i frames × HasSymbol frames

NameFrames-HasSymbol :
    (d : DictionaryBuilder) (i : ℕ) (indices : List ℕ) (frames : List (List ProfileSymbol))
    → NameFrames d (i ∷ indices) frames
    → HasSymbol frames
NameFrames-HasSymbol d i indices [] h = h
NameFrames-HasSymbol d i indices ([] ∷ frames) h = NameFrames-HasSymbol d i indices frames h
NameFrames-HasSymbol d i indices ((symbol ∷ symbols) ∷ frames) h = tt

add_stack_lem :
    (d : DictionaryBuilder) (indices : List ℕ) (frames : List (List ProfileSymbol))
    → IsSmall (add_stack d indices).0
    → IsConsistent d
    → NameFrames d indices frames
    → IsConsistent (add_stack d indices).0
      × NamesFoundStack (add_stack d indices).0 (add_stack d indices).1 frames
add_stack_lem d [] frames small consistent named = (consistent, named)
add_stack_lem d (i ∷ indices) frames small consistent named = (
  record {
    strings = consistent.strings;
    functions = consistent.functions;
    locations = consistent.locations;
    stacks = index_of-IsKeyed same_text stack_row _ _ small.stacks consistent.stacks;
    attributes = consistent.attributes;
  },
  (
    (
      stack_row _,
      index_of_lem same_text stack_row _ _ small.stacks consistent.stacks,
      NameFrames-grow (add_stack-IsGrown d (i ∷ indices)) (i ∷ indices) frames named,
    ),
    NameFrames-HasSymbol d i indices frames named,
  ),
)

pub stack-IsGrown : (d : DictionaryBuilder) (sample : ProfileSample) → IsGrown d (stack d sample).0
unfolding stack
stack-IsGrown d sample =
    IsGrown-trans (location_indices_of-IsGrown d sample.frames) (add_stack-IsGrown _ _)

pub stack_lem :
    (d : DictionaryBuilder) (sample : ProfileSample)
    → IsSmall (stack d sample).0
    → IsConsistent d
    → IsConsistent (stack d sample).0
      × NamesFoundStack (stack d sample).0 (stack d sample).1 (map symbols_of sample.frames)
unfolding stack
stack_lem d sample small consistent =
    let located =
      location_indices_of_lem d sample.frames (IsGrown-IsSmall (add_stack-IsGrown _ _) small)
        consistent in
    add_stack_lem _ _ (map symbols_of sample.frames) small located.0 located.1

module _ (d : DictionaryBuilder) (name : Text) where
  thread_attribute-grows : IsGrown (intern d (text "thread.name")).0 (thread_attribute d name).0
  unfolding thread_attribute
  thread_attribute-grows =
      let d1 = (intern d (text "thread.name")).0 in
      record {
        strings = Grown-refl d1.strings;
        functions = Grown-refl d1.functions;
        locations = Grown-refl d1.locations;
        stacks = Grown-refl d1.stacks;
        attributes = index_of-Grown same_attribute attribute_row d1.attributes _;
      }

  pub thread_attribute-IsGrown : IsGrown d (thread_attribute d name).0
  thread_attribute-IsGrown =
      IsGrown-trans (intern-IsGrown d (text "thread.name")) thread_attribute-grows

  pub thread_attribute_lem :
      IsSmall (thread_attribute d name).0
      → IsConsistent d
      → IsConsistent (thread_attribute d name).0
        × NamesThread (thread_attribute d name).0 (thread_attribute d name).1 name
  unfolding thread_attribute
  thread_attribute_lem small consistent =
      let small_first = IsGrown-IsSmall thread_attribute-grows small in
      let kept = intern-IsConsistent d (text "thread.name") small_first consistent in
      (
        record {
          strings = kept.strings;
          functions = kept.functions;
          locations = kept.locations;
          stacks = kept.stacks;
          attributes =
              index_of-IsKeyed same_attribute attribute_row _ _ small.attributes kept.attributes;
        },
        (
          attribute_row _,
          index_of_lem same_attribute attribute_row _ _ small.attributes kept.attributes,
          intern_lem d (text "thread.name") small_first consistent,
          refl,
        ),
      )
