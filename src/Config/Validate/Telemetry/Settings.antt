-- ===== src/Config/Validate/Telemetry/Settings.antt =====
-- Which telemetry settings `validate_observability` of crates/doggy-dns-basic/src/validate.rs
-- accepts.
use doggy_dns.Common.{
  ◌≤◌, ◌<◌, ◌≡◌, ◌↔◌, ◌⊎◌, inl, inr, refl, true, false, not, ◌||◌, Option, none, some, List, [],
  ◌∷◌, ◌++◌, any, All, ◌==◌, if◌then◌else◌, Bool-cases, arith,
}
use doggy_dns.Common.Text.{
  Text, text, is_empty, is_blank, is_whitespace, lowercase, trim, trim_end_by, starts_with,
  ends_with,
}
use doggy_dns.Common.Results.{◌>>◌}
use doggy_dns.Config.Schema.{BasicAuthConfig, ObservabilityConfig}
use doggy_dns.Config.Validate.Checks.{
  Host, invalid, Check, Passes, pass, ensure-Passes, then-Passes, not_iff, two_ensure-Passes,
  when_iff, both_iff,
}
use doggy_dns.Config.Validate.Telemetry.{
  signal_loop, signal_names, validate_base, validate_trimmed, validate_observability_url,
  check_endpoint, check_service_name, check_basic_auth, is_level, is_ratio, validate_endpoints,
  validate_signals, validate_observability,
}

abbrev pub IsUrl : Text → Type 0
IsUrl s =
    (starts_with s (text "http://") || starts_with s (text "https://") ≡ true)
    × (any is_whitespace s ≡ false)

-- The base URL carries no query, no fragment and no signal's path.
abbrev pub IsBaseUrl : Text → Type 0
IsBaseUrl s =
    IsUrl s
    × (any (λ c. (c == b'?') || (c == b'#')) s ≡ false)
    × (ends_with (trim_end_by (λ c. c == b'/') s) (text "/v1") ≡ false)
    × All (λ signal. ends_with s (text "/v1/" ++ signal) ≡ false) signal_names

abbrev pub IsEndpoint : Option Text → Type 0
IsEndpoint none = Unit
IsEndpoint (some s) = (is_blank s ≡ true) ⊎ IsUrl (trim s)

signal_loop_iff :
    (name value : Text) (signals : List Text)
    → Passes (signal_loop name value signals)
      ↔ All (λ signal. ends_with value (text "/v1/" ++ signal) ≡ false) signals
signal_loop_iff name value [] = ((λ h. tt), (λ h. refl))
signal_loop_iff name value (signal ∷ signals) = (
  (λ h. (ground arith, ground (arith, signal_loop_iff name value signals))),
  (λ h. ground (arith, signal_loop_iff name value signals)),
)

check_endpoint_iff :
    (name : Text) (endpoint : Option Text)
    → Passes (check_endpoint name endpoint) ↔ IsEndpoint endpoint
unfolding validate_observability_url
check_endpoint_iff name none = ((λ h. tt), (λ h. refl))
check_endpoint_iff name (some s) = ((λ h. ground arith), (λ h. ground arith))

validate_base_iff :
    (name value : Text)
    → Passes (validate_base name value) ↔ (
        (any (λ c. (c == b'?') || (c == b'#')) value ≡ false)
        × (ends_with (trim_end_by (λ c. c == b'/') value) (text "/v1") ≡ false)
        × All (λ signal. ends_with value (text "/v1/" ++ signal) ≡ false) signal_names)
validate_base_iff name value =
    let query = any (λ c. (c == b'?') || (c == b'#')) value in
    let version = ends_with (trim_end_by (λ c. c == b'/') value) (text "/v1") in
    let signals = signal_loop name value signal_names in
    let both = two_ensure-Passes (not query) (not version) (invalid name) (invalid name) signals in
    let loop = signal_loop_iff name value signal_names in
    (
      (λ h. let b = both.0 h in ((not_iff query).0 b.0, (not_iff version).0 b.1, loop.0 b.2)),
      (λ h. both.1 ((not_iff query).1 h.0, (not_iff version).1 h.1, loop.1 h.2)),
    )

validate_trimmed_iff :
    (name value : Text) → Passes (validate_trimmed name value false) ↔ IsBaseUrl value
validate_trimmed_iff name value =
    let scheme = starts_with value (text "http://") || starts_with value (text "https://") in
    let blank = any is_whitespace value in
    let both =
      two_ensure-Passes scheme (not blank) (invalid name) (invalid name)
        (validate_base name value) in
    let base = validate_base_iff name value in
    (
      (λ h.
          let b = both.0 h in
          let rest = base.0 b.2 in ((b.0, (not_iff blank).0 b.1), rest.0, rest.1, rest.2)),
      (λ h. both.1 (h.0.0, (not_iff blank).1 h.0.1, base.1 (h.1, h.2, h.3))),
    )

abbrev pub IsServiceName : Option Text → Type 0
IsServiceName none = Unit
IsServiceName (some name) = is_blank name ≡ false

abbrev pub IsAuth : Option BasicAuthConfig → Type 0
IsAuth none = Unit
IsAuth (some auth) = (is_blank auth.username ≡ false) × (is_empty auth.password ≡ false)

-- What the name, the signals and the endpoints must be.
pub record HasEndpoints (config : ObservabilityConfig) : Type 0 where
  pub service_name : IsServiceName config.service_name
  pub any_signal :
      (config.logs.enabled || config.metrics.enabled || config.traces.enabled
        || config.profiles.enabled)
      ≡ true
  pub base : (is_blank config.endpoint ≡ true) ⊎ IsBaseUrl (trim config.endpoint)
  pub logs : IsEndpoint config.logs.endpoint
  pub metrics : IsEndpoint config.metrics.endpoint
  pub traces : IsEndpoint config.traces.endpoint
  pub profiles : IsEndpoint config.profiles.endpoint

-- What the settings of the signals must be, whether they are enabled or not.
pub record HasSettings (host : Host) (config : ObservabilityConfig) : Type 0 where
  pub timeout : 0 < config.timeout_secs
  pub level : is_level (lowercase config.logs.level) ≡ true
  pub metrics_interval : 0 < config.metrics.interval_secs
  pub ratio : is_ratio config.traces.sample_ratio ≡ true
  pub batch : 0 < config.traces.max_export_batch_size
  pub queue : config.traces.max_export_batch_size ≤ config.traces.max_queue_size
  pub delay : 0 < config.traces.scheduled_delay_ms
  pub duration : 0 < config.profiles.duration_secs
  pub interval : config.profiles.duration_secs ≤ config.profiles.interval_secs
  pub frequency : (1 ≤ config.profiles.frequency_hz) × (config.profiles.frequency_hz ≤ 1000)
  pub platform : (config.profiles.enabled ≡ false) ⊎ ((host.is_linux || host.is_macos) ≡ true)
  pub auth : IsAuth config.basic_auth

check_service_name_iff :
    (name : Option Text) → Passes (check_service_name name) ↔ IsServiceName name
check_service_name_iff none = ((λ h. tt), (λ h. refl))
check_service_name_iff (some name) = ((λ h. ground arith), (λ h. ground arith))

check_basic_auth_iff :
    (auth : Option BasicAuthConfig) → Passes (check_basic_auth auth) ↔ IsAuth auth
check_basic_auth_iff none = ((λ h. tt), (λ h. refl))
check_basic_auth_iff (some auth) = ((λ h. (ground arith, ground arith)), (λ h. ground arith))

check_base_iff :
    (name endpoint : Text)
    → Passes (if is_blank endpoint then pass else validate_observability_url name endpoint false)
      ↔ ((is_blank endpoint ≡ true) ⊎ IsBaseUrl (trim endpoint))
unfolding validate_observability_url
check_base_iff name endpoint =
    let url = validate_trimmed_iff name (trim endpoint) in
    (
      (λ h. elim (Bool-cases (is_blank endpoint)) [
        | inl e ↦ inl e
        | inr e ↦ inr (url.0 (ground arith))
      ]),
      (λ h. elim h [ inl e ↦ rw e | inr u ↦ let v = url.1 u in ground arith ]),
    )

seven-Passes :
    (a b c d e f g : Check)
    → Passes a
    → Passes b
    → Passes c
    → Passes d
    → Passes e
    → Passes f
    → Passes g
    → Passes (a >> b >> c >> d >> e >> f >> g)
seven-Passes a b c d e f g ha hb hc hd he hf hg = rw (ha, hb, hc, hd, he, hf) hg

validate_endpoints_iff :
    (config : ObservabilityConfig) → Passes (validate_endpoints config) ↔ HasEndpoints config
validate_endpoints_iff config =
    let name = check_service_name_iff config.service_name in
    let base = check_base_iff (text "observability.endpoint") config.endpoint in
    let logs = check_endpoint_iff (text "observability.logs.endpoint") config.logs.endpoint in
    let metrics =
      check_endpoint_iff (text "observability.metrics.endpoint") config.metrics.endpoint in
    let traces = check_endpoint_iff (text "observability.traces.endpoint") config.traces.endpoint in
    let profiles =
      check_endpoint_iff (text "observability.profiles.endpoint") config.profiles.endpoint in
    let any_signal =
      ensure-Passes
        (config.logs.enabled || config.metrics.enabled || config.traces.enabled
          || config.profiles.enabled)
        (invalid (text "observability.enabled")) in
    (
      (λ h.
          let p = (then-Passes _ _).0 h in
          let t = (then-Passes _ _).0 p.0 in
          let m = (then-Passes _ _).0 t.0 in
          let l = (then-Passes _ _).0 m.0 in
          let b = (then-Passes _ _).0 l.0 in
          let s = (then-Passes _ _).0 b.0 in
          record {
            service_name = name.0 s.0;
            any_signal = any_signal.0 s.1;
            base = base.0 b.1;
            logs = logs.0 l.1;
            metrics = metrics.0 m.1;
            traces = traces.0 t.1;
            profiles = profiles.0 p.1;
          }),
      (λ h.
          seven-Passes _ _ _ _ _ _ _ (name.1 h.service_name) (any_signal.1 h.any_signal)
            (base.1 h.base) (logs.1 h.logs) (metrics.1 h.metrics) (traces.1 h.traces)
            (profiles.1 h.profiles)),
    )

validate_signals_iff :
    (host : Host) (config : ObservabilityConfig)
    → Passes (validate_signals host config) ↔ HasSettings host config
validate_signals_iff host config = (
  (λ h. record {
    timeout = ground arith;
    level = ground arith;
    metrics_interval = ground arith;
    ratio = ground arith;
    batch = ground arith;
    queue = ground arith;
    delay = ground arith;
    duration = ground arith;
    interval = ground arith;
    frequency = (ground arith, ground arith);
    platform = ground arith;
    auth = ground (arith, check_basic_auth_iff config.basic_auth);
  }),
  (λ h. ground (arith, check_basic_auth_iff config.basic_auth)),
)

-- Telemetry that is disabled is accepted as it is. Telemetry that is enabled is accepted just where
-- its name, signals and endpoints and all settings of the signals are what they must be: the batch
-- of spans is at least one and no larger than the queue, a profile is at least a second and no
-- longer than the interval, its frequency is 1 to 1000, the ratio is in 0 to 1, and the base URL
-- carries no query and no signal's path.
pub validate_observability_iff :
    (host : Host) (config : ObservabilityConfig)
    → Passes (validate_observability host config)
      ↔ ((config.enabled ≡ false) ⊎ (HasEndpoints config × HasSettings host config))
unfolding validate_observability
validate_observability_iff host config =
    when_iff config.enabled (validate_endpoints config >> validate_signals host config) (
      both_iff (validate_endpoints config) (validate_signals host config)
        (validate_endpoints_iff config) (validate_signals_iff host config))
