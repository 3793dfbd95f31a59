-- ===== src/Observability/Profiles/Rows.antt =====
-- The collected profile and the tables' rows of
-- crates/doggy-dns-observability/src/profiles/convert.rs.
use doggy_dns.Common.{ℕ, Option, some, List, map}
use doggy_dns.Common.Text.{Text}

pub data ℤ : Type 0 where
  pos : ℕ → ℤ
  negsuc : ℕ → ℤ

pub record ProfileSymbol : Type 0 where
  pub name : Text
  pub system_name : Text
  pub filename : Text
  pub line : ℕ
  pub address : ℕ

pub record ProfileFrame : Type 0 where
  pub symbols : List ProfileSymbol

pub record ProfileSample : Type 0 where
  pub frames : List ProfileFrame
  pub count : ℤ
  pub thread_name : Option Text

pub record CollectedProfile : Type 0 where
  pub samples : List ProfileSample
  pub time_unix_nano : ℕ
  pub duration_nano : ℕ
  pub frequency : ℤ

pub record Function : Type 0 where
  pub name_strindex : ℕ
  pub system_name_strindex : ℕ
  pub filename_strindex : ℕ
  pub start_line : ℕ

pub record Line : Type 0 where
  pub function_index : ℕ
  pub line : ℕ
  pub column : ℕ

pub record Location : Type 0 where
  pub mapping_index : ℕ
  pub address : ℕ
  pub lines : List Line

pub record Stack : Type 0 where
  pub location_indices : List ℕ

pub record KeyValueAndUnit : Type 0 where
  pub key_strindex : ℕ
  pub value : Option Text
  pub unit_strindex : ℕ

-- The row of each key.
abbrev pub string_row : Text → Text
string_row s = s

abbrev pub function_row : ℕ × ℕ × ℕ → Function
function_row (name, system_name, filename) = record {
  name_strindex = name;
  system_name_strindex = system_name;
  filename_strindex = filename;
  start_line = 0;
}

abbrev pub line_row : ℕ × ℕ → Line
line_row (function_index, line) = record {
  function_index = function_index;
  line = line;
  column = 0;
}

abbrev pub location_row : ℕ × List (ℕ × ℕ) → Location
location_row (address, line_key) = record {
  mapping_index = 0;
  address = address;
  lines = map line_row line_key;
}

abbrev pub stack_row : List ℕ → Stack
stack_row location_indices = record { location_indices = location_indices }

abbrev pub attribute_row : ℕ × Text → KeyValueAndUnit
attribute_row (key, value) = record { key_strindex = key; value = some value; unit_strindex = 0 }
