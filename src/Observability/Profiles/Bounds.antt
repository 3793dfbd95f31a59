-- ===== src/Observability/Profiles/Bounds.antt =====
-- The indices and values of the request of `build_export_request`,
-- crates/doggy-dns-observability/src/profiles/convert.rs.
use doggy_dns.Common.{
  ℕ, zero, suc, ◌^◌, ◌<◌, ◌≡◌, refl, Option, none, some, List, [], ◌∷◌, All, length, arith,
}
use doggy_dns.Common.Text.{Text, text}
use doggy_dns.Observability.Tables.Keyed.{get_elem?, get_elem?-lt, Grown-get_elem?}
use doggy_dns.Observability.Profiles.{
  ℤ, pos, negsuc, ProfileSample, CollectedProfile, DictionaryBuilder, Sample, ProfilesDictionary,
  build, new_dictionary, saturating_mul, trimmed_name, period_of, build_export_request,
}
use doggy_dns.Observability.Profiles.Described.{IsSmall, IsGrown, IsGrown-trans}
use doggy_dns.Observability.Profiles.Steps.{intern-IsGrown}
use doggy_dns.Observability.Profiles.Samples.{
  NameThreads, Describes, DescribesAll, done, kept, uncounted, unresolved,
}
use doggy_dns.Observability.Profiles.Request.{
  convert_samples-IsGrown, build_export_request-describes,
}

-- A number that an i64 holds.
abbrev pub IsI64 : ℤ → Type 0
IsI64 (pos n) = n < 2 ^ 63
IsI64 (negsuc n) = n < 2 ^ 63

saturating_mul-IsI64 : (a : ℤ) (b : ℕ) → IsI64 (saturating_mul a b)
saturating_mul-IsI64 (pos a) zero = omega arith
saturating_mul-IsI64 (negsuc a) zero = omega arith
saturating_mul-IsI64 (pos a) (suc b) = ground arith
saturating_mul-IsI64 (negsuc a) (suc b) = ground arith

-- Indices into the tables, and values, that the receiver can follow.
pub record InRange {Mapping Link : Type 0} (tables : ProfilesDictionary Mapping Link)
    (made : Sample) : Type 0 where
  pub stack_index : made.stack_index < length tables.stack_table
  pub attribute_indices : All (λ i. i < length tables.attribute_table) made.attribute_indices
  pub link_index : made.link_index < length tables.link_table
  pub values : All IsI64 made.values

-- Every table begins with the row that stands for `none`, in which all is zero or empty.
pub record BeginsWithZeros {Mapping Link : Type 0} (mapping_default : Mapping) (link_default : Link)
    (tables : ProfilesDictionary Mapping Link) : Type 0 where
  pub mapping : tables.mapping_table ≡ mapping_default ∷ []
  pub location :
      get_elem? tables.location_table 0
      ≡ some (record { mapping_index = 0; address = 0; lines = [] })
  pub function :
      get_elem? tables.function_table 0
      ≡ some (record {
        name_strindex = 0;
        system_name_strindex = 0;
        filename_strindex = 0;
        start_line = 0;
      })
  pub link : tables.link_table ≡ link_default ∷ []
  pub string : get_elem? tables.string_table 0 ≡ some []
  pub attribute :
      get_elem? tables.attribute_table 0
      ≡ some (record { key_strindex = 0; value = none; unit_strindex = 0 })
  pub stack : get_elem? tables.stack_table 0 ≡ some (record { location_indices = [] })

threads_in_range :
    (d : DictionaryBuilder) (indices : List ℕ) (name : Option Text)
    → NameThreads d indices name
    → All (λ i. i < length d.attributes.rows) indices
threads_in_range d [] name h = tt
threads_in_range d (i ∷ indices) none h = cc
threads_in_range d (i ∷ []) (some name) h = (get_elem?-lt d.attributes.rows i h.0.1, tt)
threads_in_range d (i ∷ j ∷ indices) (some name) h = cc (h.1)

values_in_range :
    (a : ℤ) (b : ℕ) (values : List ℤ) → values ≡ saturating_mul a b ∷ [] → All IsI64 values
values_in_range a b values h = rw h (saturating_mul-IsI64 a b, tt)

module _ {Mapping Link : Type 0} (mapping_default : Mapping) (link_default : Link) where
  Describes-InRange :
      (period_ns : ℕ) (d : DictionaryBuilder) (made : Sample) (sample : ProfileSample)
      → Describes period_ns d made sample
      → InRange (build mapping_default link_default d) made
  unfolding build
  Describes-InRange period_ns d made sample (stacked, threads, link, counted) = record {
    stack_index = get_elem?-lt d.stacks.rows made.stack_index stacked.1;
    attribute_indices =
        threads_in_range d made.attribute_indices (trimmed_name sample.thread_name) threads;
    link_index = rw link (omega arith);
    values = values_in_range sample.count period_ns made.values counted;
  }

  DescribesAll-InRange :
      (period_ns : ℕ) (d : DictionaryBuilder) {made : List Sample} {samples : List ProfileSample}
      → DescribesAll period_ns d made samples
      → All (InRange (build mapping_default link_default d)) made
  DescribesAll-InRange period_ns d done = tt
  DescribesAll-InRange period_ns d (kept made sample rest samples counted resolved h hs) =
      (Describes-InRange period_ns d made sample h, DescribesAll-InRange period_ns d hs)
  DescribesAll-InRange period_ns d (uncounted sample rest samples no_count hs) =
      DescribesAll-InRange period_ns d hs
  DescribesAll-InRange period_ns d (unresolved sample rest samples no_symbol hs) =
      DescribesAll-InRange period_ns d hs

  -- What grows from the new dictionary keeps its first rows.
  IsGrown-BeginsWithZeros :
      (d : DictionaryBuilder)
      → IsGrown new_dictionary d
      → BeginsWithZeros mapping_default link_default (build mapping_default link_default d)
  unfolding build
  IsGrown-BeginsWithZeros d g = record {
    mapping = refl;
    location = Grown-get_elem? new_dictionary.locations d.locations 0 g.locations refl;
    function = Grown-get_elem? new_dictionary.functions d.functions 0 g.functions refl;
    link = refl;
    string = Grown-get_elem? new_dictionary.strings d.strings 0 g.strings refl;
    attribute = Grown-get_elem? new_dictionary.attributes d.attributes 0 g.attributes refl;
    stack = Grown-get_elem? new_dictionary.stacks d.stacks 0 g.stacks refl;
  }

build_export_request-IsGrown :
    (profile_id : List ℕ) (collected : CollectedProfile)
    → IsGrown new_dictionary (build_export_request profile_id collected).1
unfolding build_export_request
build_export_request-IsGrown profile_id collected =
    IsGrown-trans (convert_samples-IsGrown (period_of collected) new_dictionary collected.samples)
      (IsGrown-trans (intern-IsGrown _ (text "cpu")) (intern-IsGrown _ (text "nanoseconds")))

-- The tables of the request that are not mappings and links begin with the empty string and with
-- rows of zeros and of no value, and the mappings and the links are their default value alone; and
-- while no table of the builder has more than 2^31 rows, each sample's index of a stack, of an
-- attribute and of a link lies in its table and each of its values in an i64.
pub build_export_request-InRange :
    {Mapping Link : Type 0} (mapping_default : Mapping) (link_default : Link) (profile_id : List ℕ)
    (collected : CollectedProfile)
    → IsSmall (build_export_request profile_id collected).1
    → (let request = build_export_request profile_id collected in
        let tables = build mapping_default link_default request.1 in
        BeginsWithZeros mapping_default link_default tables
        × All (InRange tables) request.0.samples)
build_export_request-InRange mapping_default link_default profile_id collected small =
    let described = build_export_request-describes profile_id collected small in
    let d = (build_export_request profile_id collected).1 in
    (
      IsGrown-BeginsWithZeros mapping_default link_default d
          (build_export_request-IsGrown profile_id collected),
      DescribesAll-InRange mapping_default link_default (period_of collected) d described.0,
    )
