-- ===== src/Observability/Profiles/Samples.antt =====
-- What a sample of the request says of one that was collected:
-- crates/doggy-dns-observability/src/profiles/convert.rs.
use doggy_dns.Common.{ℕ, ◌≡◌, refl, Option, none, some, List, [], ◌∷◌, map, true, false}
use doggy_dns.Common.Text.{Text}
use doggy_dns.Observability.Profiles.{
  ProfileSymbol, ProfileFrame, ProfileSample, DictionaryBuilder, Sample, saturating_mul,
  is_positive, trimmed_name, thread_indices,
}
use doggy_dns.Observability.Profiles.Described.{
  IsSmall, IsConsistent, IsGrown, IsGrown-refl, NameFrames, NamesStack, NamesThread,
  NamesStack-grow, NamesThread-grow,
}
use doggy_dns.Observability.Profiles.Stacks.{
  symbols_of, HasSymbol, thread_attribute-IsGrown, thread_attribute_lem,
}

-- The attribute of a thread's name, if it has one.
abbrev pub NameThreads : DictionaryBuilder → List ℕ → Option Text → Type 0
NameThreads d indices none = indices ≡ []
NameThreads d [] (some name) = ⊥
NameThreads d (i ∷ indices) (some name) = NamesThread d i name × (indices ≡ [])

-- A sample of the request by the one that was collected.
abbrev pub Describes : (period_ns : ℕ) → DictionaryBuilder → Sample → ProfileSample → Type 0
Describes period_ns d made sample =
    NamesStack d made.stack_index (map symbols_of sample.frames)
    × NameThreads d made.attribute_indices (trimmed_name sample.thread_name)
    × (made.link_index ≡ 0)
    × (made.values ≡ saturating_mul sample.count period_ns ∷ [])

-- No frame of the sample has a symbol.
abbrev pub IsUnresolved : List ProfileFrame → Type 0
IsUnresolved [] = Unit
IsUnresolved (frame ∷ frames) = (frame.symbols ≡ []) × IsUnresolved frames

-- The samples of the request, each by its own, in order; one is left out just where it counts
-- nothing or has no frame with a symbol.
pub data DescribesAll (period_ns : ℕ) (d : DictionaryBuilder)
    : List Sample → List ProfileSample → Type 0 where
  done : DescribesAll period_ns d [] []
  kept :
      (made : Sample) (sample : ProfileSample) (rest : List Sample) (samples : List ProfileSample)
      → is_positive sample.count ≡ true
      → HasSymbol (map symbols_of sample.frames)
      → Describes period_ns d made sample
      → DescribesAll period_ns d rest samples
      → DescribesAll period_ns d (made ∷ rest) (sample ∷ samples)
  uncounted :
      (sample : ProfileSample) (rest : List Sample) (samples : List ProfileSample)
      → is_positive sample.count ≡ false
      → DescribesAll period_ns d rest samples
      → DescribesAll period_ns d rest (sample ∷ samples)
  unresolved :
      (sample : ProfileSample) (rest : List Sample) (samples : List ProfileSample)
      → IsUnresolved sample.frames
      → DescribesAll period_ns d rest samples
      → DescribesAll period_ns d rest (sample ∷ samples)

empty_symbols :
    (d : DictionaryBuilder) (symbols : List ProfileSymbol) (frames : List (List ProfileSymbol))
    → NameFrames d [] (symbols ∷ frames)
    → (symbols ≡ []) × NameFrames d [] frames
empty_symbols d [] frames h = (refl, h)
empty_symbols d (symbol ∷ symbols) frames h = absurd h

pub NameFrames-IsUnresolved :
    (d : DictionaryBuilder) (frames : List ProfileFrame)
    → NameFrames d [] (map symbols_of frames)
    → IsUnresolved frames
NameFrames-IsUnresolved d [] h = tt
NameFrames-IsUnresolved d (frame ∷ frames) h =
    let first = empty_symbols d frame.symbols (map symbols_of frames) h in
    (first.0, NameFrames-IsUnresolved d frames first.1)

pub thread_indices-IsGrown :
    (d : DictionaryBuilder) (name : Option Text) → IsGrown d (thread_indices d name).0
thread_indices-IsGrown d none = IsGrown-refl d
thread_indices-IsGrown d (some name) = thread_attribute-IsGrown d name

pub thread_indices_lem :
    (d : DictionaryBuilder) (name : Option Text)
    → IsSmall (thread_indices d name).0
    → IsConsistent d
    → IsConsistent (thread_indices d name).0
      × NameThreads (thread_indices d name).0 (thread_indices d name).1 name
thread_indices_lem d none small consistent = (consistent, refl)
thread_indices_lem d (some name) small consistent =
    let added = thread_attribute_lem d name small consistent in (added.0, (added.1, refl))

module _ {d e : DictionaryBuilder} (g : IsGrown d e) (period_ns : ℕ) where
  pub NameThreads-grow :
      (indices : List ℕ) (name : Option Text)
      → NameThreads d indices name
      → NameThreads e indices name
  NameThreads-grow indices none h = h
  NameThreads-grow [] (some name) h = h
  NameThreads-grow (i ∷ indices) (some name) h = (NamesThread-grow g i name h.0, h.1)

  Describes-grow :
      (made : Sample) (sample : ProfileSample)
      → Describes period_ns d made sample
      → Describes period_ns e made sample
  Describes-grow made sample h = (
    NamesStack-grow g made.stack_index (map symbols_of sample.frames) h.0,
    NameThreads-grow made.attribute_indices (trimmed_name sample.thread_name) h.1,
    h.2,
    h.3,
  )

  pub DescribesAll-grow :
      {made : List Sample} {samples : List ProfileSample}
      → DescribesAll period_ns d made samples
      → DescribesAll period_ns e made samples
  DescribesAll-grow done = done
  DescribesAll-grow (kept made sample rest samples counted resolved h hs) =
      kept made sample rest samples counted resolved (Describes-grow made sample h)
        (DescribesAll-grow hs)
  DescribesAll-grow (uncounted sample rest samples no_count hs) =
      uncounted sample rest samples no_count (DescribesAll-grow hs)
  DescribesAll-grow (unresolved sample rest samples no_symbol hs) =
      unresolved sample rest samples no_symbol (DescribesAll-grow hs)
