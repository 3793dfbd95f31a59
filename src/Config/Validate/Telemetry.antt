-- ===== src/Config/Validate/Telemetry.antt =====
-- `validate_observability` and `validate_observability_url`:
-- crates/doggy-dns-basic/src/validate.rs.
pub mod Settings
use doggy_dns.Common.{
  ℕ, ◌^◌, Bool, true, false, not, ◌&&◌, ◌||◌, Option, none, some, List, [], ◌∷◌, ◌++◌, any, ltb,
  leb, ◌==◌, if◌then◌else◌,
}
use doggy_dns.Common.Text.{
  Text, text, text_eq, is_empty, is_blank, is_whitespace, lowercase, trim, trim_end_by, starts_with,
  ends_with,
}
use doggy_dns.Common.Results.{Result, ok, err, ◌>>=◌, ◌>>◌, ensure}
use doggy_dns.Config.Schema.{
  LogsConfig, MetricsConfig, TracesConfig, ProfilesConfig, BasicAuthConfig, ObservabilityConfig,
}
use doggy_dns.Config.Validate.Checks.{Host, ConfigError, invalid, Check, pass}

abbrev pub signal_loop : (name value : Text) → List Text → Check
signal_loop name value [] = pass
signal_loop name value (signal ∷ signals) =
    ensure (not (ends_with value (text "/v1/" ++ signal))) (invalid name)
    >> signal_loop name value signals

abbrev pub signal_names : List Text
signal_names = text "logs" ∷ text "metrics" ∷ text "traces" ∷ text "profiles" ∷ []

abbrev pub validate_base : (name value : Text) → Check
validate_base name value =
    ensure (not (any (λ c. (c == b'?') || (c == b'#')) value)) (invalid name)
    >> ensure (not (ends_with (trim_end_by (λ c. c == b'/') value) (text "/v1"))) (invalid name)
    >> signal_loop name value signal_names

-- The checks of a value without the blanks round it.
abbrev pub validate_trimmed : (name value : Text) → (allow_signal_path : Bool) → Check
validate_trimmed name value allow_signal_path =
    ensure (starts_with value (text "http://") || starts_with value (text "https://"))
      (invalid name)
    >> ensure (not (any is_whitespace value)) (invalid name)
    >> (if allow_signal_path then pass else validate_base name value)

unfoldable pub validate_observability_url : (name value : Text) → (allow_signal_path : Bool) → Check
validate_observability_url name value allow_signal_path =
    validate_trimmed name (trim value) allow_signal_path

abbrev pub check_endpoint : (name : Text) → Option Text → Check
check_endpoint name none = pass
check_endpoint name (some endpoint) =
    if is_blank endpoint then pass else validate_observability_url name endpoint true

abbrev pub check_service_name : Option Text → Check
check_service_name none = pass
check_service_name (some name) =
    ensure (not (is_blank name)) (invalid (text "observability.service_name"))

abbrev pub check_basic_auth : Option BasicAuthConfig → Check
check_basic_auth none = pass
check_basic_auth (some auth) =
    ensure (not (is_blank auth.username) && not (is_empty auth.password))
      (invalid (text "observability.basic_auth"))

abbrev pub is_level : Text → Bool
is_level level =
    text_eq level (text "trace")
    || text_eq level (text "debug")
    || text_eq level (text "info")
    || text_eq level (text "warn")
    || text_eq level (text "error")

-- An f64 in 0.0..=1.0 by its bits: those up to the bits of 1.0, and those of -0.0.
abbrev pub is_ratio : ℕ → Bool
is_ratio bits = leb bits 0x3FF0000000000000 || (bits == 2 ^ 63)

-- The name, the signals and the endpoints.
abbrev pub validate_endpoints : ObservabilityConfig → Check
validate_endpoints config =
    check_service_name config.service_name
    >> ensure
        (config.logs.enabled || config.metrics.enabled || config.traces.enabled
          || config.profiles.enabled)
        (invalid (text "observability.enabled"))
    >> (if is_blank config.endpoint
        then pass
        else validate_observability_url (text "observability.endpoint") config.endpoint false)
    >> check_endpoint (text "observability.logs.endpoint") config.logs.endpoint
    >> check_endpoint (text "observability.metrics.endpoint") config.metrics.endpoint
    >> check_endpoint (text "observability.traces.endpoint") config.traces.endpoint
    >> check_endpoint (text "observability.profiles.endpoint") config.profiles.endpoint

-- The settings of the signals; a negative `frequency_hz` has a bit pattern above 1000.
abbrev pub validate_signals : Host → ObservabilityConfig → Check
validate_signals host config =
    ensure (ltb 0 config.timeout_secs) (invalid (text "observability.timeout_secs"))
    >> ensure (is_level (lowercase config.logs.level)) (invalid (text "observability.logs.level"))
    >> ensure (ltb 0 config.metrics.interval_secs)
        (invalid (text "observability.metrics.interval_secs"))
    >> ensure (is_ratio config.traces.sample_ratio)
        (invalid (text "observability.traces.sample_ratio"))
    >> ensure (ltb 0 config.traces.max_queue_size)
        (invalid (text "observability.traces.max_queue_size"))
    >> ensure
        (ltb 0 config.traces.max_export_batch_size
          && leb config.traces.max_export_batch_size config.traces.max_queue_size)
        (invalid (text "observability.traces.max_export_batch_size"))
    >> ensure (ltb 0 config.traces.scheduled_delay_ms)
        (invalid (text "observability.traces.scheduled_delay_ms"))
    >> ensure (ltb 0 config.profiles.interval_secs)
        (invalid (text "observability.profiles.interval_secs"))
    >> ensure
        (ltb 0 config.profiles.duration_secs
          && leb config.profiles.duration_secs config.profiles.interval_secs)
        (invalid (text "observability.profiles.duration_secs"))
    >> ensure (leb 1 config.profiles.frequency_hz && leb config.profiles.frequency_hz 1000)
        (invalid (text "observability.profiles.frequency_hz"))
    >> (if config.profiles.enabled
        then ensure (host.is_linux || host.is_macos) (invalid (text "observability.profiles"))
        else pass)
    >> check_basic_auth config.basic_auth

unfoldable pub validate_observability : Host → ObservabilityConfig → Check
unfolding validate_observability_url
validate_observability host config =
    if config.enabled then validate_endpoints config >> validate_signals host config else pass
