-- ===== src/Observability/Profiles.antt =====
-- `DictionaryBuilder` and `build_export_request` of
-- crates/doggy-dns-observability/src/profiles/convert.rs.
-- An i32, an i64 line number and an address stand as their bits. The resource, the scope and the
-- fields of a profile that are always empty are left out; `profile_id`, from the clock and a
-- counter, is an argument.
mod Rows
pub mod Described
pub mod Steps
pub mod Stacks
pub mod Samples
pub mod Request
pub mod Bounds
use doggy_dns.Common.{
  ℕ, zero, suc, ◌+◌, ◌-◌, ◌*◌, ◌/◌, ◌^◌, min, max, Bool, true, false, Option, none, some, List, [],
  ◌∷◌, ◌++◌, if◌then◌else◌, map,
}
use doggy_dns.Common.Text.{Text, text, is_empty, trim}
use doggy_dns.Observability.Tables.{Table, index_of}
use native.Mathlib.Decide.{ℕ_discrete}
unfoldable pub use Rows.*

-- Equality of the keys.
unfoldable pub same_text : Discrete Text
same_text = hlevel (ℕ_discrete)

unfoldable pub same_function : Discrete (ℕ × ℕ × ℕ)
same_function = hlevel (ℕ_discrete)

unfoldable pub same_location : Discrete (ℕ × List (ℕ × ℕ))
same_location = hlevel (ℕ_discrete)

unfoldable pub same_attribute : Discrete (ℕ × Text)
same_attribute = hlevel (ℕ_discrete)

pub record DictionaryBuilder : Type 0 where
  pub strings : Table Text Text
  pub functions : Table (ℕ × ℕ × ℕ) Function
  pub locations : Table (ℕ × List (ℕ × ℕ)) Location
  pub stacks : Table (List ℕ) Stack
  pub attributes : Table (ℕ × Text) KeyValueAndUnit

-- A zero value at index 0 of every table; only the empty string is on record.
abbrev pub new_dictionary : DictionaryBuilder
new_dictionary = record {
  strings = record { rows = [] ∷ []; lookup = ([], 0) ∷ [] };
  functions = record { rows = function_row (0, 0, 0) ∷ []; lookup = [] };
  locations = record { rows = location_row (0, []) ∷ []; lookup = [] };
  stacks = record { rows = stack_row [] ∷ []; lookup = [] };
  attributes = record {
    rows = record { key_strindex = 0; value = none; unit_strindex = 0 } ∷ [];
    lookup = [];
  };
}

unfoldable pub intern : DictionaryBuilder → Text → DictionaryBuilder × ℕ
intern d value =
    let (strings, index) = index_of same_text string_row d.strings value in
    (record d { strings = strings }, index)

unfoldable pub function : DictionaryBuilder → ProfileSymbol → DictionaryBuilder × ℕ
unfolding intern
function d symbol =
    let (d1, name) = intern d symbol.name in
    let (d2, system_name) = intern d1 symbol.system_name in
    let (d3, filename) = intern d2 symbol.filename in
    let (functions, index) =
      index_of same_function function_row d3.functions (name, system_name, filename) in
    (record d3 { functions = functions }, index)

-- The loop over a frame's symbols; the lines of the row are those of the key.
unfoldable pub line_key_of :
    DictionaryBuilder → List ProfileSymbol → DictionaryBuilder × List (ℕ × ℕ)
unfolding function
line_key_of d [] = (d, [])
line_key_of d (symbol ∷ symbols) =
    let (d1, function_index) = function d symbol in
    let (d2, line_key) = line_key_of d1 symbols in (d2, (function_index, symbol.line) ∷ line_key)

unfoldable pub location : DictionaryBuilder → ProfileFrame → DictionaryBuilder × Option ℕ
unfolding line_key_of
location d frame = elim frame.symbols [
  | [] ↦ (d, none)
  | symbol ∷ symbols ↦
      let (d1, line_key) = line_key_of d (symbol ∷ symbols) in
      let (locations, index) =
        index_of same_location location_row d1.locations (symbol.address, line_key) in
      (record d1 { locations = locations }, some index)
]

abbrev pub push_index : Option ℕ → List ℕ → List ℕ
push_index none indices = indices
push_index (some index) indices = index ∷ indices

-- `filter_map` over a sample's frames.
unfoldable pub location_indices_of :
    DictionaryBuilder → List ProfileFrame → DictionaryBuilder × List ℕ
unfolding location
location_indices_of d [] = (d, [])
location_indices_of d (frame ∷ frames) =
    let (d1, index) = location d frame in
    let (d2, indices) = location_indices_of d1 frames in (d2, push_index index indices)

abbrev pub add_stack : DictionaryBuilder → List ℕ → DictionaryBuilder × Option ℕ
add_stack d [] = (d, none)
add_stack d (first ∷ others) =
    let (stacks, index) = index_of same_text stack_row d.stacks (first ∷ others) in
    (record d { stacks = stacks }, some index)

unfoldable pub stack : DictionaryBuilder → ProfileSample → DictionaryBuilder × Option ℕ
unfolding location_indices_of
stack d sample =
    let (d1, location_indices) = location_indices_of d sample.frames in
    add_stack d1 location_indices

unfoldable pub thread_attribute : DictionaryBuilder → Text → DictionaryBuilder × ℕ
unfolding intern
thread_attribute d thread_name =
    let (d1, key) = intern d (text "thread.name") in
    let (attributes, index) =
      index_of same_attribute attribute_row d1.attributes (key, thread_name) in
    (record d1 { attributes = attributes }, index)

-- The tables that the request carries; `Mapping` and `Link` are types of the OpenTelemetry protocol.
pub record ProfilesDictionary (Mapping Link : Type 0) : Type 0 where
  pub mapping_table : List Mapping
  pub location_table : List Location
  pub function_table : List Function
  pub link_table : List Link
  pub string_table : List Text
  pub attribute_table : List KeyValueAndUnit
  pub stack_table : List Stack

-- `Mapping::default()` and `Link::default()` are arguments.
unfoldable pub build :
    {Mapping Link : Type 0} → Mapping → Link → DictionaryBuilder → ProfilesDictionary Mapping Link
build mapping_default link_default d = record {
  mapping_table = mapping_default ∷ [];
  location_table = d.locations.rows;
  function_table = d.functions.rows;
  link_table = link_default ∷ [];
  string_table = d.strings.rows;
  attribute_table = d.attributes.rows;
  stack_table = d.stacks.rows;
}

pub record Sample : Type 0 where
  pub stack_index : ℕ
  pub attribute_indices : List ℕ
  pub link_index : ℕ
  pub values : List ℤ

-- `i64::saturating_mul` by a number that is not below 0.
abbrev pub saturating_mul : ℤ → ℕ → ℤ
saturating_mul (pos a) zero = pos 0
saturating_mul (negsuc a) zero = pos 0
saturating_mul (pos a) (suc b) = pos (min (a * suc b) (2 ^ 63 - 1))
saturating_mul (negsuc a) (suc b) = negsuc (min (suc a * suc b - 1) (2 ^ 63 - 1))

abbrev pub is_positive : ℤ → Bool
is_positive (pos (suc n)) = true
is_positive _ = false

-- The thread's name without the blanks round it, if anything is left.
abbrev pub trimmed_name : Option Text → Option Text
trimmed_name none = none
trimmed_name (some name) = if is_empty (trim name) then none else some (trim name)

abbrev pub thread_indices : DictionaryBuilder → Option Text → DictionaryBuilder × List ℕ
thread_indices d none = (d, [])
thread_indices d (some name) = let (d1, index) = thread_attribute d name in (d1, index ∷ [])

-- The rest of the loop's body once the sample's stack is known.
abbrev pub add_sample :
    (period_ns : ℕ) → ProfileSample → DictionaryBuilder × Option ℕ → DictionaryBuilder × List Sample
add_sample period_ns sample (d, none) = (d, [])
add_sample period_ns sample (d, some stack_index) =
    let (d1, attribute_indices) = thread_indices d (trimmed_name sample.thread_name) in
    (
      d1,
      record {
        stack_index = stack_index;
        attribute_indices = attribute_indices;
        link_index = 0;
        values = saturating_mul sample.count period_ns ∷ [];
      }
          ∷ [],
    )

unfoldable pub convert_sample :
    (period_ns : ℕ) → DictionaryBuilder → ProfileSample → DictionaryBuilder × List Sample
unfolding stack thread_attribute
convert_sample period_ns d sample =
    if is_positive sample.count then add_sample period_ns sample (stack d sample) else (d, [])

unfoldable pub convert_samples :
    (period_ns : ℕ) → DictionaryBuilder → List ProfileSample → DictionaryBuilder × List Sample
unfolding convert_sample
convert_samples period_ns d [] = (d, [])
convert_samples period_ns d (sample ∷ samples) =
    let (d1, made) = convert_sample period_ns d sample in
    let (d2, later) = convert_samples period_ns d1 samples in (d2, made ++ later)

-- `frequency.max(1)`, of an i32.
abbrev pub at_least_one : ℤ → ℕ
at_least_one (pos n) = max n 1
at_least_one (negsuc n) = 1

pub record ValueType : Type 0 where
  pub type_strindex : ℕ
  pub unit_strindex : ℕ

pub record Profile : Type 0 where
  pub sample_type : ValueType
  pub samples : List Sample
  pub time_unix_nano : ℕ
  pub duration_nano : ℕ
  pub period_type : ValueType
  pub period : ℕ
  pub profile_id : List ℕ

abbrev pub period_of : CollectedProfile → ℕ
period_of collected = 1000000000 / at_least_one collected.frequency

-- The profile of the request and the builder whose `build` gives the tables that it carries.
unfoldable pub build_export_request :
    (profile_id : List ℕ) → CollectedProfile → Profile × DictionaryBuilder
unfolding convert_samples intern
build_export_request profile_id collected =
    let period_ns = period_of collected in
    let (d1, samples) = convert_samples period_ns new_dictionary collected.samples in
    let (d2, cpu) = intern d1 (text "cpu") in
    let (d3, nanoseconds) = intern d2 (text "nanoseconds") in
    let sample_type : ValueType = record { type_strindex = cpu; unit_strindex = nanoseconds } in
    (
      record {
        sample_type = sample_type;
        samples = samples;
        time_unix_nano = collected.time_unix_nano;
        duration_nano = collected.duration_nano;
        period_type = sample_type;
        period = period_ns;
        profile_id = profile_id;
      },
      d3,
    )
