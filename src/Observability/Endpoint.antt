-- ===== src/Observability/Endpoint.antt =====
-- The URL of each signal: crates/doggy-dns-observability/src/endpoint.rs.
-- `Url::parse` is an argument, with the parts of its result that are looked at.
pub mod Resolved
use doggy_dns.Common.{
  ℕ, Bool, true, false, not, ◌&&◌, ◌||◌, Option, none, some, List, [], ◌∷◌, ◌++◌, any, ◌==◌,
  if◌then◌else◌,
}
use doggy_dns.Common.Text.{
  Text, text, text_eq, is_empty, is_blank, is_whitespace, trim, trim_end_by, ends_with,
}
use doggy_dns.Common.Results.{Result, ok, err, ◌>>=◌, ◌>>◌, ensure}
use doggy_dns.Config.Schema.{
  ObservabilityBackend, open_observe, otel_collector, vector, custom, ObservabilityConfig,
}

pub record Url : Type 0 where
  pub scheme : Text
  pub username : Text
  pub password : Option Text

pub data Signal : Type 0 where
  logs metrics traces profiles : Signal

pub data EndpointError : Type 0 where
  has_query : EndpointError
  has_version : EndpointError
  has_signal : Signal → EndpointError
  not_a_url : Text → EndpointError
  wrong_scheme : Text → EndpointError
  has_userinfo : Text → EndpointError
  has_whitespace : Text → EndpointError
  not_configured : Signal → EndpointError

abbrev pub path_segment : Signal → Text
path_segment logs = text "logs"
path_segment metrics = text "metrics"
path_segment traces = text "traces"
path_segment profiles = text "profiles"

abbrev pub env_endpoint : Signal → Text
env_endpoint logs = text "OTEL_EXPORTER_OTLP_LOGS_ENDPOINT"
env_endpoint metrics = text "OTEL_EXPORTER_OTLP_METRICS_ENDPOINT"
env_endpoint traces = text "OTEL_EXPORTER_OTLP_TRACES_ENDPOINT"
env_endpoint profiles = text "OTEL_EXPORTER_OTLP_PROFILES_ENDPOINT"

abbrev pub config_endpoint : Signal → ObservabilityConfig → Option Text
config_endpoint logs config = config.logs.endpoint
config_endpoint metrics config = config.metrics.endpoint
config_endpoint traces config = config.traces.endpoint
config_endpoint profiles config = config.profiles.endpoint

abbrev pub default_endpoint : ObservabilityBackend → Option Text
default_endpoint open_observe = some (text "http://127.0.0.1:5080/api/default")
default_endpoint otel_collector = some (text "http://127.0.0.1:4318")
default_endpoint vector = some (text "http://127.0.0.1:4318")
default_endpoint custom = none

abbrev pub trim_slashes : Text → Text
trim_slashes s = trim_end_by (λ c. c == b'/') s

-- The path that a signal is sent to below a base URL.
abbrev pub signal_path : Signal → Text
signal_path signal = text "/v1/" ++ path_segment signal

unfoldable pub join_signal_url : (base : Text) → Signal → Text
join_signal_url base signal = trim_slashes (trim base) ++ signal_path signal

-- The value without the blanks round it, if anything is left.
abbrev pub non_empty : Option Text → Option Text
non_empty none = none
non_empty (some value) = if is_empty (trim value) then none else some (trim value)

-- The value as it is, if it is not blank.
abbrev pub not_blank : Option Text → Option Text
not_blank none = none
not_blank (some value) = if is_blank value then none else some value

abbrev pub ensure_no_signal : Text → List Signal → Result EndpointError (Unit {0})
ensure_no_signal base [] = ok tt
ensure_no_signal base (signal ∷ signals) =
    ensure (not (ends_with base (signal_path signal))) (has_signal signal)
    >> ensure_no_signal base signals

abbrev pub ensure_base : Text → Result EndpointError (Unit {0})
ensure_base base =
    ensure (not (any (λ c. (c == b'?') || (c == b'#')) base)) has_query
    >> ensure (not (ends_with base (text "/v1"))) has_version
    >> ensure_no_signal base (logs ∷ metrics ∷ traces ∷ profiles ∷ [])

unfoldable pub ensure_base_endpoint : Text → Result EndpointError (Unit {0})
ensure_base_endpoint base = ensure_base (trim_slashes (trim base))

abbrev pub is_none : Option Text → Bool
is_none none = true
is_none (some _) = false

abbrev pub check_url : Text → Option Url → Result EndpointError Text
check_url url none = err (not_a_url url)
check_url url (some parsed) =
    ensure (text_eq parsed.scheme (text "http") || text_eq parsed.scheme (text "https"))
      (wrong_scheme url)
    >> ensure (is_empty parsed.username && is_none parsed.password) (has_userinfo url)
    >> ensure (not (any is_whitespace url)) (has_whitespace url)
    >> ok url

unfoldable pub validate_endpoint : (Text → Option Url) → Text → Result EndpointError Text
validate_endpoint parse url = check_url (trim_slashes url) (parse (trim_slashes url))

-- A base URL with the signal's path.
abbrev pub from_base : (Text → Option Url) → Signal → Text → Result EndpointError Text
from_base parse signal base =
    ensure_base_endpoint base >> validate_endpoint parse (join_signal_url base signal)

abbrev pub from_backend : (Text → Option Url) → Signal → Option Text → Result EndpointError Text
from_backend parse signal none = err (not_configured signal)
from_backend parse signal (some base) = validate_endpoint parse (join_signal_url base signal)

-- The value if there is one, and else what follows.
abbrev pub first_of :
    Option Text
    → (Text → Result EndpointError Text)
    → Result EndpointError Text
    → Result EndpointError Text
first_of none found otherwise = otherwise
first_of (some value) found otherwise = found value

unfoldable pub resolve_with_env :
    (Text → Option Url)
    → (env : Text → Option Text) → ObservabilityConfig
    → Signal
    → Result EndpointError Text
unfolding ensure_base_endpoint validate_endpoint join_signal_url
resolve_with_env parse env config signal =
    first_of (non_empty (config_endpoint signal config)) (validate_endpoint parse) (
      first_of (non_empty (some config.endpoint)) (from_base parse signal) (
        first_of (not_blank (env (env_endpoint signal)))
          (λ endpoint. validate_endpoint parse (trim endpoint))
          (first_of (not_blank (env (text "OTEL_EXPORTER_OTLP_ENDPOINT"))) (from_base parse signal)
            (from_backend parse signal (default_endpoint config.backend)))))
