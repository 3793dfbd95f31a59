-- ===== src/Observability/Profiles/Request.antt =====
-- What the request of `build_export_request`,
-- crates/doggy-dns-observability/src/profiles/convert.rs, says of the profile that was collected.
use doggy_dns.Common.{
  ℕ, ◌≡◌, refl, Option, none, some, List, [], ◌∷◌, ◌++◌, map, Bool, true, false, if◌then◌else◌,
}
use doggy_dns.Common.Text.{text}
use doggy_dns.Observability.Profiles.{
  ProfileSample, CollectedProfile, DictionaryBuilder, Sample, Profile, new_dictionary, intern,
  stack, is_positive, trimmed_name, add_sample, convert_sample, convert_samples, period_of,
  build_export_request,
}
use doggy_dns.Observability.Profiles.Described.{
  IsSmall, IsConsistent, IsGrown, IsGrown-refl, IsGrown-trans, IsGrown-IsSmall, NamesString,
  NamesStack-grow, NamesString-grow,
}
use doggy_dns.Observability.Profiles.Steps.{intern-IsGrown, intern-IsConsistent, intern_lem}
use doggy_dns.Observability.Profiles.Stacks.{symbols_of, NamesFoundStack, stack-IsGrown, stack_lem}
use doggy_dns.Observability.Profiles.Samples.{
  DescribesAll, done, kept, uncounted, unresolved, NameFrames-IsUnresolved, thread_indices-IsGrown,
  thread_indices_lem, NameThreads-grow, DescribesAll-grow,
}

module _ (period_ns : ℕ) where
  add_sample-IsGrown :
      (d : DictionaryBuilder) (sample : ProfileSample) (found : Option ℕ)
      → IsGrown d (add_sample period_ns sample (d, found)).0
  add_sample-IsGrown d sample none = IsGrown-refl d
  add_sample-IsGrown d sample (some i) = thread_indices-IsGrown d (trimmed_name sample.thread_name)

  abbrev turn : Bool → DictionaryBuilder → ProfileSample → DictionaryBuilder × List Sample
  turn counted d sample = if counted then add_sample period_ns sample (stack d sample) else (d, [])

  turn-IsGrown :
      (counted : Bool) (d : DictionaryBuilder) (sample : ProfileSample)
      → IsGrown d (turn counted d sample).0
  turn-IsGrown true d sample =
      IsGrown-trans (stack-IsGrown d sample)
        (add_sample-IsGrown (stack d sample).0 sample (stack d sample).1)
  turn-IsGrown false d sample = IsGrown-refl d

  convert_sample-IsGrown :
      (d : DictionaryBuilder) (sample : ProfileSample)
      → IsGrown d (convert_sample period_ns d sample).0
  unfolding convert_sample
  convert_sample-IsGrown d sample = turn-IsGrown (is_positive sample.count) d sample

  pub convert_samples-IsGrown :
      (d : DictionaryBuilder) (samples : List ProfileSample)
      → IsGrown d (convert_samples period_ns d samples).0
  unfolding convert_samples
  convert_samples-IsGrown d [] = IsGrown-refl d
  convert_samples-IsGrown d (sample ∷ samples) =
      IsGrown-trans (convert_sample-IsGrown d sample)
        (convert_samples-IsGrown (convert_sample period_ns d sample).0 samples)

  -- What one turn of the loop makes of a sample, before what the later turns make.
  add_sample_lem :
      (d e : DictionaryBuilder) (sample : ProfileSample) (found : Option ℕ)
      → (rest : List Sample) (samples : List ProfileSample)
      → (let added = add_sample period_ns sample (d, found) in
          IsSmall added.0
          → IsConsistent d
          → NamesFoundStack d found (map symbols_of sample.frames)
          → is_positive sample.count ≡ true
          → IsGrown added.0 e
          → DescribesAll period_ns e rest samples
          → DescribesAll period_ns e (added.1 ++ rest) (sample ∷ samples))
  add_sample_lem d e sample none rest samples small consistent named counted g later =
      unresolved sample rest samples (NameFrames-IsUnresolved d sample.frames named) later
  add_sample_lem d e sample (some i) rest samples small consistent named counted g later =
      let name = trimmed_name sample.thread_name in
      let threads = thread_indices_lem d name small consistent in
      kept _ sample rest samples counted named.1
        (
          NamesStack-grow (IsGrown-trans (thread_indices-IsGrown d name) g) i
              (map symbols_of sample.frames) named.0,
          NameThreads-grow g period_ns _ name threads.1,
          refl,
          refl,
        )
        later

  add_sample-IsConsistent :
      (d : DictionaryBuilder) (sample : ProfileSample) (found : Option ℕ)
      → IsSmall (add_sample period_ns sample (d, found)).0
      → IsConsistent d
      → IsConsistent (add_sample period_ns sample (d, found)).0
  add_sample-IsConsistent d sample none small consistent = consistent
  add_sample-IsConsistent d sample (some i) small consistent =
      (thread_indices_lem d (trimmed_name sample.thread_name) small consistent).0

  -- The stack of a sample that is counted.
  stacked :
      (d : DictionaryBuilder) (sample : ProfileSample)
      → IsSmall (add_sample period_ns sample (stack d sample)).0
      → IsConsistent d
      → IsConsistent (stack d sample).0
        × NamesFoundStack (stack d sample).0 (stack d sample).1 (map symbols_of sample.frames)
  stacked d sample small consistent =
      stack_lem d sample
        (IsGrown-IsSmall (add_sample-IsGrown (stack d sample).0 sample (stack d sample).1) small)
        consistent

  turn-IsConsistent :
      (counted : Bool) (d : DictionaryBuilder) (sample : ProfileSample)
      → IsSmall (turn counted d sample).0
      → IsConsistent d
      → IsConsistent (turn counted d sample).0
  turn-IsConsistent true d sample small consistent =
      add_sample-IsConsistent (stack d sample).0 sample (stack d sample).1 small
        (stacked d sample small consistent).0
  turn-IsConsistent false d sample small consistent = consistent

  turn_lem :
      (counted : Bool) (d e : DictionaryBuilder) (sample : ProfileSample)
      → (rest : List Sample) (samples : List ProfileSample) → is_positive sample.count ≡ counted
      → IsSmall (turn counted d sample).0
      → IsConsistent d
      → IsGrown (turn counted d sample).0 e
      → DescribesAll period_ns e rest samples
      → DescribesAll period_ns e ((turn counted d sample).1 ++ rest) (sample ∷ samples)
  turn_lem true d e sample rest samples count small consistent g later =
      let found = stacked d sample small consistent in
      add_sample_lem (stack d sample).0 e sample (stack d sample).1 rest samples small found.0
        found.1 count g later
  turn_lem false d e sample rest samples count small consistent g later =
      uncounted sample rest samples count later

  convert_samples_lem :
      (d : DictionaryBuilder) (samples : List ProfileSample)
      → (let converted = convert_samples period_ns d samples in
          IsSmall converted.0
          → IsConsistent d
          → IsConsistent converted.0 × DescribesAll period_ns converted.0 converted.1 samples)
  unfolding convert_samples
  convert_samples_lem d [] small consistent = (consistent, done)
  convert_samples_lem d (sample ∷ samples) small consistent =
      let counted = is_positive sample.count in
      let grown = convert_samples-IsGrown (convert_sample period_ns d sample).0 samples in
      let small_first = IsGrown-IsSmall grown small in
      let later =
        convert_samples_lem (convert_sample period_ns d sample).0 samples small
          (turn-IsConsistent counted d sample small_first consistent) in
      (later.0, turn_lem counted d _ sample _ samples refl small_first consistent grown later.1)

new_dictionary-IsConsistent : IsConsistent new_dictionary
new_dictionary-IsConsistent = record {
  strings = (refl, tt);
  functions = tt;
  locations = tt;
  stacks = tt;
  attributes = tt;
}

-- The names of the unit that the samples are counted in.
abbrev pub NamesUnit : DictionaryBuilder → Profile → Type 0
NamesUnit d profile =
    NamesString d profile.sample_type.type_strindex (text "cpu")
    × NamesString d profile.sample_type.unit_strindex (text "nanoseconds")
    × (profile.period_type ≡ profile.sample_type)

-- While no table of the request has more than 2^31 rows, the request's samples are those collected
-- that count something and have a frame with a symbol, in order: each index lies in its table, and
-- following the indices gives back the frames with their symbols, files and lines, the name of the
-- thread if it has one, the zero link, and the count by the period, held at the largest i64. A
-- sample is left out just where it counts nothing or no frame of it has a symbol. The unit is the
-- string `nanoseconds` of type `cpu`.
pub build_export_request-describes :
    (profile_id : List ℕ) (collected : CollectedProfile)
    → IsSmall (build_export_request profile_id collected).1
    → (let request = build_export_request profile_id collected in
        DescribesAll (period_of collected) request.1 request.0.samples collected.samples
        × NamesUnit request.1 request.0)
unfolding build_export_request
build_export_request-describes profile_id collected small =
    let period_ns = period_of collected in
    let d1 = (convert_samples period_ns new_dictionary collected.samples).0 in
    let d2 = (intern d1 (text "cpu")).0 in
    let to_second = intern-IsGrown d1 (text "cpu") in
    let to_third = intern-IsGrown d2 (text "nanoseconds") in
    let small_second = IsGrown-IsSmall to_third small in
    let converted =
      convert_samples_lem period_ns new_dictionary collected.samples
        (IsGrown-IsSmall to_second small_second) new_dictionary-IsConsistent in
    let consistent = intern-IsConsistent d1 (text "cpu") small_second converted.0 in
    (
      DescribesAll-grow (IsGrown-trans to_second to_third) period_ns converted.1,
      (
        NamesString-grow to_third _ _ (intern_lem d1 (text "cpu") small_second converted.0),
        intern_lem d2 (text "nanoseconds") small consistent,
        refl,
      ),
    )
