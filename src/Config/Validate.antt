-- ===== src/Config/Validate.antt =====
-- `validate_config` of crates/doggy-dns-basic/src/validate.rs.
-- `Host` is what the checks ask of the platform and of the address parsers of the standard library.
-- An error is the setting that its message names, with the plugin's index where it names one.
pub mod Checks
pub mod Fresh
pub mod Plugins
pub mod Telemetry
pub mod Server
pub mod Sections
pub mod Accepted
use doggy_dns.Common.{
  ℕ, ◌+◌, Bool, true, false, not, ◌&&◌, ◌||◌, Option, none, some, List, [], ◌∷◌, any, length, ltb,
  leb, ◌==◌, if◌then◌else◌,
}
use doggy_dns.Common.Text.{Text, text, text_eq, is_empty, starts_with, trim}
use doggy_dns.Common.Results.{Result, ok, err, ◌>>=◌, ◌>>◌, ensure}
use doggy_dns.Config.Validate.Checks.{Host, ConfigError, invalid, Check, pass, member, each_new}
use doggy_dns.Config.Schema.{
  CertConfig, ServerConfig, RemoteConfig, XdpConfig, ControlConfig, DoggyDnsConfig,
}
use doggy_dns.Config.Validate.Plugins.{validate_plugins, strip_dot}
use doggy_dns.Config.Validate.Telemetry.{validate_observability}

abbrev pub validate_affinity : (worker_threads : ℕ) → Option (List ℕ) → Check
validate_affinity worker_threads none = pass
validate_affinity worker_threads (some []) = err (invalid (text "server.cpu_affinity"))
validate_affinity worker_threads (some (core ∷ cores)) =
    ensure (length (core ∷ cores) == worker_threads) (invalid (text "server.cpu_affinity"))
    >> each_new ◌==◌ (λ _. pass) (λ _. invalid (text "server.cpu_affinity")) [] (core ∷ cores)

-- The certificates of TLS and of HTTPS.
abbrev pub validate_cert : Host → (cert key : Text) → Option CertConfig → Check
validate_cert host cert key none = pass
validate_cert host cert key (some config) =
    if config.enabled
    then ensure (host.path_exists config.cert_path) (invalid cert)
      >> ensure (host.path_exists config.key_path) (invalid key)
    else pass

unfoldable pub validate_server : Host → ServerConfig → Check
validate_server host server =
    ensure (ltb 0 server.worker_threads) (invalid (text "server.worker_threads"))
    >> ensure (leb 1 server.reuseport_listen_num) (invalid (text "server.reuseport_listen_num"))
    >> (if ltb 1 server.reuseport_listen_num
        then ensure host.is_linux (invalid (text "server.reuseport_listen_num"))
        else pass)
    >> validate_affinity server.worker_threads server.cpu_affinity
    >> validate_cert host (text "TLS cert_path") (text "TLS key_path") server.tls
    >> validate_cert host (text "HTTPS cert_path") (text "HTTPS key_path") server.https

unfoldable pub validate_remote : RemoteConfig → Check
validate_remote remote =
    if remote.enabled
    then ensure (not (is_empty remote.server_addr)) (invalid (text "remote_config.server_addr"))
      >> ensure (not (is_empty remote.data_id)) (invalid (text "remote_config.data_id"))
    else pass

unfoldable pub validate_xdp : XdpConfig → Check
validate_xdp xdp =
    if xdp.enabled
    then ensure (ltb 0 xdp.cache_size) (invalid (text "xdp.cache_size"))
      >> ensure (ltb 0 xdp.negative_ttl) (invalid (text "xdp.negative_ttl"))
      >> ensure (text_eq xdp.attach_mode (text "auto") || text_eq xdp.attach_mode (text "manual"))
          (invalid (text "xdp.attach_mode"))
      >> ensure (starts_with xdp.pin_path (text "/sys/fs/bpf/")) (invalid (text "xdp.pin_path"))
      >> ensure (not (any (λ c. c == b'.') xdp.pin_path)) (invalid (text "xdp.pin_path"))
    else pass

abbrev pub strip_bracket : Text → Option Text
strip_bracket [] = none
strip_bracket (c ∷ []) = if c == b']' then some [] else none
strip_bracket (c ∷ d ∷ s) =
    let rest = strip_bracket (d ∷ s) in elim rest [ none ↦ none | some inner ↦ some (c ∷ inner) ]

-- What stands between the brackets of an IPv6 address, or the text itself.
abbrev pub unbracket : Text → Text
unbracket [] = []
unbracket (c ∷ s) =
    if c == b'[' then elim (strip_bracket s) [ none ↦ c ∷ s | some inner ↦ inner ] else c ∷ s

-- `net::socket_addr` finds an address.
unfoldable pub is_bind_addr : Host → Text → Bool
is_bind_addr host addr = host.is_ip_addr (unbracket (trim addr))

abbrev pub is_nil : List Text → Bool
is_nil [] = true
is_nil (_ ∷ _) = false

abbrev pub control_endpoints : List Text
control_endpoints = text "mcp" ∷ text "healthz" ∷ text "readyz" ∷ []

abbrev pub known_endpoint : Text → Check
known_endpoint endpoint =
    ensure (member text_eq endpoint control_endpoints) (invalid (text "control.endpoints"))

unfoldable pub validate_control : Host → ControlConfig → Check
unfolding is_bind_addr
validate_control host control =
    if control.enabled
    then ensure (is_bind_addr host control.listen_addr) (invalid (text "control.listen_addr"))
      >> ensure (not (is_nil control.endpoints)) (invalid (text "control.endpoints"))
      >> each_new text_eq known_endpoint (λ _. invalid (text "control.endpoints")) []
          control.endpoints
    else pass

unfoldable pub validate_config : Host → DoggyDnsConfig → Check
unfolding validate_server validate_remote validate_plugins validate_observability validate_xdp
    validate_control
validate_config host config =
    validate_server host config.server
    >> validate_remote config.remote_config
    >> validate_plugins host config.plugins
    >> validate_observability host config.observability
    >> validate_xdp config.xdp
    >> validate_control host config.control
