-- ===== src/Observability/Resource/Sources.antt =====
-- Where the values in `build_with_env` of crates/doggy-dns-observability/src/resource.rs come from.
use doggy_dns.Common.{
  ◌≡◌, refl, ap, ◌∙◌, true, false, Option, none, some, List, [], ◌∷◌, if◌then◌else◌, Bool-cases,
  inl, inr,
}
use doggy_dns.Common.Text.{
  Text, text, text_eq, text_eq_iff, is_empty, is_blank, trim, split_on, split_once,
}
use doggy_dns.Config.Schema.{ObservabilityConfig}
use doggy_dns.Observability.Auth.{Codecs, percent_decode}
use doggy_dns.Observability.Resource.Layers.{get-insert, get-insert_other}
use doggy_dns.Observability.Resource.{
  Attributes, get, insert, trimmed, or_else, unwrap_or, decoded_or_raw, add_pair, env_loop, add_env,
  config_loop, given_attributes,
}

-- The first of the values that is more than blanks, trimmed, or else the default.
pub data Chosen (default : Text) : List (Option Text) → Text → Type 0 where
  by_default : Chosen default [] default
  absent :
      (others : List (Option Text)) (value : Text)
      → Chosen default others value
      → Chosen default (none ∷ others) value
  blank :
      (raw : Text) (others : List (Option Text)) (value : Text)
      → is_empty (trim raw) ≡ true
      → Chosen default others value
      → Chosen default (some raw ∷ others) value
  given :
      (raw : Text) (others : List (Option Text))
      → is_empty (trim raw) ≡ false
      → Chosen default (some raw ∷ others) (trim raw)

pub trimmed-Chosen :
    (default : Text) (o : Option Text) (others : List (Option Text)) (value : Text)
    → Chosen default others value
    → Chosen default (o ∷ others) (unwrap_or (trimmed o) value)
trimmed-Chosen default none others value h = absent others value h
trimmed-Chosen default (some raw) others value h = elim (Bool-cases (is_empty (trim raw))) [
  | inl e ↦ rw e (blank raw others value e h)
  | inr e ↦ rw e (given raw others e)
]

pub unwrap_or-or_else :
    (o other : Option Text) (default : Text)
    → unwrap_or (or_else o other) default ≡ unwrap_or o (unwrap_or other default)
unwrap_or-or_else none other default = refl
unwrap_or-or_else (some value) other default = refl

pub Chosen-given :
    (default : Text) (raws : List (Option Text)) (value : Text)
    → is_empty default ≡ false
    → Chosen default raws value
    → is_empty value ≡ false
Chosen-given default raws value h by_default = h
Chosen-given default raws value h (absent others _ k) = Chosen-given default others value h k
Chosen-given default raws value h (blank raw others _ e k) = Chosen-given default others value h k
Chosen-given default raws value h (given raw others e) = e

-- The value of the last pair that has the key.
abbrev pub last_of : Text → List (Text × Text) → Option Text
last_of key [] = none
last_of key ((k, value) ∷ pairs) =
    or_else (last_of key pairs) (if text_eq k key then some value else none)

-- The configured pairs without blanks round them; one with a blank key does not count.
abbrev pub config_pairs : List (Text × Text) → List (Text × Text)
config_pairs [] = []
config_pairs ((key, value) ∷ others) =
    let later = config_pairs others in
    if is_blank key then later else (trim key, trim value) ∷ later

abbrev pub pair_onto : Codecs → Option (Text × Text) → List (Text × Text) → List (Text × Text)
pair_onto codecs none later = later
pair_onto codecs (some (key, value)) later =
    let key' = decoded_or_raw (trim key) (percent_decode codecs (trim key)) in
    let value' = decoded_or_raw (trim value) (percent_decode codecs (trim value)) in
    if is_empty key' then later else (key', value') ∷ later

abbrev decoded_pairs : Codecs → List Text → List (Text × Text)
decoded_pairs codecs [] = []
decoded_pairs codecs (pair ∷ pairs) =
    pair_onto codecs (split_once b'=' pair) (decoded_pairs codecs pairs)

-- The pairs `key=value` between the commas of OTEL_RESOURCE_ATTRIBUTES, decoded where that succeeds.
abbrev pub env_pairs : Codecs → Option Text → List (Text × Text)
env_pairs codecs none = []
env_pairs codecs (some raw) = if is_blank raw then [] else decoded_pairs codecs (split_on b',' raw)

inserted :
    (key k value : Text) (attributes : Attributes) (later : Option Text)
    → or_else later (get key (insert k value attributes))
      ≡ or_else (or_else later (if text_eq k key then some value else none)) (get key attributes)
inserted key k value attributes (some v) = refl
inserted key k value attributes none = elim (Bool-cases (text_eq k key)) [
  | inl e ↦
      let same = (text_eq_iff k key).0 e in
      let kept : get key (insert k value attributes) ≡ some value =
        rw same (get-insert key value attributes) in
      rw (kept, e)
  | inr e ↦ rw (get-insert_other k key value attributes e, e)
]

module _ (key : Text) where
  get-config_loop :
      (attributes : Attributes) (configured : List (Text × Text))
      → get key (config_loop attributes configured)
        ≡ or_else (last_of key (config_pairs configured)) (get key attributes)
  get-config_loop attributes [] = refl
  get-config_loop attributes ((k, value) ∷ others) = elim (Bool-cases (is_blank k)) [
    | inl e ↦ rw e (get-config_loop attributes others)
    | inr e ↦ rw e (
        get-config_loop (insert (trim k) (trim value) attributes) others
        ∙ inserted key (trim k) (trim value) attributes (last_of key (config_pairs others)))
  ]

  module _ (codecs : Codecs) where
    get-add_pair :
        (attributes : Attributes) (o : Option (Text × Text)) (later : List (Text × Text))
        → or_else (last_of key later) (get key (add_pair codecs attributes o))
          ≡ or_else (last_of key (pair_onto codecs o later)) (get key attributes)
    get-add_pair attributes none later = refl
    get-add_pair attributes (some (k, value)) later =
        let k' = decoded_or_raw (trim k) (percent_decode codecs (trim k)) in
        let value' = decoded_or_raw (trim value) (percent_decode codecs (trim value)) in
        elim (Bool-cases (is_empty k')) [
          | inl e ↦ rw e refl
          | inr e ↦ rw e (inserted key k' value' attributes (last_of key later))
        ]

    get-env_loop :
        (attributes : Attributes) (pairs : List Text)
        → get key (env_loop codecs attributes pairs)
          ≡ or_else (last_of key (decoded_pairs codecs pairs)) (get key attributes)
    get-env_loop attributes [] = refl
    get-env_loop attributes (pair ∷ pairs) =
        get-env_loop (add_pair codecs attributes (split_once b'=' pair)) pairs
        ∙ get-add_pair attributes (split_once b'=' pair) (decoded_pairs codecs pairs)

    get-add_env :
        (attributes : Attributes) (raw : Option Text)
        → get key (add_env codecs attributes raw)
          ≡ or_else (last_of key (env_pairs codecs raw)) (get key attributes)
    get-add_env attributes none = refl
    get-add_env attributes (some raw) = elim (Bool-cases (is_blank raw)) [
      | inl e ↦ rw e refl
      | inr e ↦ rw e (get-env_loop attributes (split_on b',' raw))
    ]

-- What is given for a key: by the configuration, else by OTEL_RESOURCE_ATTRIBUTES, else by the
-- exposure.
abbrev pub stated :
    Codecs
    → ObservabilityConfig
    → (exposure : Attributes) → (env : Text → Option Text) → (key : Text) → Option Text
stated codecs config exposure env key =
    or_else (last_of key (config_pairs config.resource_attributes)) (
      or_else (last_of key (env_pairs codecs (env (text "OTEL_RESOURCE_ATTRIBUTES"))))
        (get key exposure))

pub get-given_attributes :
    (codecs : Codecs) (config : ObservabilityConfig) (exposure : Attributes)
    (env : Text → Option Text) (key : Text)
    → get key (given_attributes codecs config exposure env) ≡ stated codecs config exposure env key
get-given_attributes codecs config exposure env key =
    get-config_loop key _ config.resource_attributes
    ∙ ap (or_else (last_of key (config_pairs config.resource_attributes)))
        (get-add_env key codecs exposure (env (text "OTEL_RESOURCE_ATTRIBUTES")))
