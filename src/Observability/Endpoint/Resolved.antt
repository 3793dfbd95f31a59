-- ===== src/Observability/Endpoint/Resolved.antt =====
-- What the URL is that `resolve_with_env` of crates/doggy-dns-observability/src/endpoint.rs finds.
use doggy_dns.Common.{◌≡◌, true, false, ◌&&◌, ◌||◌, Option, none, some, any}
use doggy_dns.Common.Text.{Text, text, text_eq, is_empty, is_whitespace, trim, ends_with}
use doggy_dns.Config.Schema.{ObservabilityConfig}
use doggy_dns.Observability.Endpoint.{
  Url, Signal, env_endpoint, config_endpoint, default_endpoint, trim_slashes, join_signal_url,
  non_empty, not_blank, is_none,
}

abbrev pub slash : Text
slash = text "/"

-- A URL that can be used: of HTTP, without credentials, blanks and a final slash.
pub record IsUsable (parse : Text → Option Url) (url : Text) : Type 0 where
  pub parsed :
      (u : Url) × (parse url ≡ some u)
      × (text_eq u.scheme (text "http") || text_eq u.scheme (text "https") ≡ true)
      × (is_empty u.username && is_none u.password ≡ true)
  pub unblank : any is_whitespace url ≡ false
  pub unslashed : ends_with url slash ≡ false

module _ (env : Text → Option Text) (config : ObservabilityConfig) (signal : Signal) where
  -- Where a URL comes from: the first setting that is given, in this order.
  pub data IsFrom : Text → Type 0 where
    signal_setting :
        (url : Text)
        → non_empty (config_endpoint signal config) ≡ some url
        → IsFrom (trim_slashes url)
    base_setting :
        (base : Text)
        → non_empty (config_endpoint signal config) ≡ none
        → non_empty (some config.endpoint) ≡ some base
        → IsFrom (join_signal_url base signal)
    signal_variable :
        (url : Text)
        → non_empty (config_endpoint signal config) ≡ none
        → non_empty (some config.endpoint) ≡ none
        → not_blank (env (env_endpoint signal)) ≡ some url
        → IsFrom (trim_slashes (trim url))
    base_variable :
        (base : Text)
        → non_empty (config_endpoint signal config) ≡ none
        → non_empty (some config.endpoint) ≡ none
        → not_blank (env (env_endpoint signal)) ≡ none
        → not_blank (env (text "OTEL_EXPORTER_OTLP_ENDPOINT")) ≡ some base
        → IsFrom (join_signal_url base signal)
    backend_default :
        (base : Text)
        → non_empty (config_endpoint signal config) ≡ none
        → non_empty (some config.endpoint) ≡ none
        → not_blank (env (env_endpoint signal)) ≡ none
        → not_blank (env (text "OTEL_EXPORTER_OTLP_ENDPOINT")) ≡ none
        → default_endpoint config.backend ≡ some base
        → IsFrom (join_signal_url base signal)

  module _ (parse : Text → Option Url) where
    abbrev Ends : Text → Type 0
    Ends found = IsUsable parse found × IsFrom found
