-- ===== src/Observability/Resource.antt =====
-- The attributes of a node: `build_with_env` of crates/doggy-dns-observability/src/resource.rs and
-- `detect_hostname_with` of exposure.rs.
-- The map of attributes is the list of its entries, each key once; `Node` is what is asked of the
-- operating system and of the build.
pub mod Layers
pub mod Sources
pub mod Identity
use doggy_dns.Common.{ℕ, Bool, true, false, Option, none, some, List, [], ◌∷◌, ◌++◌, if◌then◌else◌}
use doggy_dns.Common.Text.{Text, text, text_eq, is_empty, is_blank, trim, split_on, split_once}
use doggy_dns.Common.Results.{Result, ok, err}
use doggy_dns.Config.Schema.{ObservabilityConfig}
use doggy_dns.Config.Toml.{decimal}
use doggy_dns.Observability.Auth.{Codecs, HeaderError, percent_decode}

pub record Node : Type 0 where
  pub os_hostname : Option Text
  pub pid : ℕ
  pub version : Text

abbrev pub app_name : Text
app_name = text "doggy-dns"

abbrev pub Attributes : Type 0
Attributes = List (Text × Text)

abbrev pub get : Text → Attributes → Option Text
get key [] = none
get key ((k, value) ∷ attributes) = if text_eq k key then some value else get key attributes

abbrev pub insert : (key value : Text) → Attributes → Attributes
insert key value [] = (key, value) ∷ []
insert key value ((k, old) ∷ attributes) =
    let later = insert key value attributes in
    if text_eq k key then (k, value) ∷ attributes else (k, old) ∷ later

abbrev pub keep_or_insert : (key value : Text) → Attributes → Option Text → Attributes
keep_or_insert key value attributes (some _) = attributes
keep_or_insert key value attributes none = insert key value attributes

-- `entry(key).or_insert_with`
abbrev pub or_insert : (key value : Text) → Attributes → Attributes
or_insert key value attributes = keep_or_insert key value attributes (get key attributes)

-- The value without the blanks round it, if anything is left.
abbrev pub trimmed : Option Text → Option Text
trimmed none = none
trimmed (some value) = if is_empty (trim value) then none else some (trim value)

abbrev pub or_else : Option Text → Option Text → Option Text
or_else none other = other
or_else (some value) other = some value

abbrev pub unwrap_or : Option Text → Text → Text
unwrap_or none other = other
unwrap_or (some value) other = value

unfoldable pub detect_hostname_with : Node → (env : Text → Option Text) → Text
detect_hostname_with node env =
    unwrap_or
      (or_else (trimmed (env (text "HOSTNAME")))
        (or_else (trimmed (env (text "COMPUTERNAME"))) node.os_hostname))
      (text "unknown")

abbrev pub decoded_or_raw : (raw : Text) → Result HeaderError Text → Text
decoded_or_raw raw (ok value) = value
decoded_or_raw raw (err _) = raw

abbrev pub add_pair : Codecs → Attributes → Option (Text × Text) → Attributes
add_pair codecs attributes none = attributes
add_pair codecs attributes (some (key, value)) =
    let key' = decoded_or_raw (trim key) (percent_decode codecs (trim key)) in
    let value' = decoded_or_raw (trim value) (percent_decode codecs (trim value)) in
    if is_empty key' then attributes else insert key' value' attributes

abbrev pub env_loop : Codecs → Attributes → List Text → Attributes
env_loop codecs attributes [] = attributes
env_loop codecs attributes (pair ∷ pairs) =
    env_loop codecs (add_pair codecs attributes (split_once b'=' pair)) pairs

-- The attributes of OTEL_RESOURCE_ATTRIBUTES.
abbrev pub add_env : Codecs → Attributes → Option Text → Attributes
add_env codecs attributes none = attributes
add_env codecs attributes (some raw) =
    if is_blank raw then attributes else env_loop codecs attributes (split_on b',' raw)

-- The configured attributes.
abbrev pub config_loop : Attributes → List (Text × Text) → Attributes
config_loop attributes [] = attributes
config_loop attributes ((key, value) ∷ others) =
    config_loop (if is_blank key then attributes else insert (trim key) (trim value) attributes)
      others

abbrev pub given_attributes :
    Codecs → ObservabilityConfig → (exposure : Attributes) → (env : Text → Option Text) → Attributes
given_attributes codecs config exposure env =
    config_loop (add_env codecs exposure (env (text "OTEL_RESOURCE_ATTRIBUTES")))
      config.resource_attributes

abbrev pub service_name_of : ObservabilityConfig → (env : Text → Option Text) → Attributes → Text
service_name_of config env attributes =
    unwrap_or
      (or_else (trimmed config.service_name) (
        or_else (trimmed (env (text "OTEL_SERVICE_NAME")))
          (trimmed (get (text "service.name") attributes))))
      app_name

abbrev pub hostname_of : Node → (env : Text → Option Text) → Attributes → Text
hostname_of node env attributes =
    unwrap_or (trimmed (get (text "host.name") attributes)) (detect_hostname_with node env)

abbrev pub add_environment : Option Text → Attributes → Attributes
add_environment none attributes = attributes
add_environment (some environment) attributes =
    insert (text "deployment.environment.name") environment attributes

unfoldable pub build_with_env :
    Codecs
    → Node
    → ObservabilityConfig
    → (exposure : Attributes) → (env : Text → Option Text) → Attributes
unfolding detect_hostname_with
build_with_env codecs node config exposure env =
    let given = given_attributes codecs config exposure env in
    let hostname = hostname_of node env given in
    add_environment (trimmed config.environment) (
      or_insert (text "process.pid") (decimal node.pid) (
        or_insert (text "host.name") hostname (
          or_insert (text "service.instance.id") (hostname ++ (b'-' ∷ decimal node.pid)) (
            or_insert (text "service.version") node.version
              (insert (text "service.name") (service_name_of config env given) given)))))
