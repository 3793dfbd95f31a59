-- ===== src/Config/Schema.antt =====
-- The sections of the configuration, with the fields that are read here:
-- crates/doggy-dns-basic/src/{server,remote,plugin,observability,xdp,control}.rs.
-- `sample_ratio` is an f64 by its 64 bits, `frequency_hz` an i32 by its 32 bits.
use doggy_dns.Common.{ℕ, Bool, Option, List}
use doggy_dns.Common.Text.{Text}

-- `TlsConfig` and `HttpsConfig`
pub record CertConfig : Type 0 where
  pub enabled : Bool
  pub cert_path : Text
  pub key_path : Text

pub record ServerConfig : Type 0 where
  pub worker_threads : ℕ
  pub reuseport_listen_num : ℕ
  pub cpu_affinity : Option (List ℕ)
  pub tls : Option CertConfig
  pub https : Option CertConfig

pub record RemoteConfig : Type 0 where
  pub enabled : Bool
  pub server_addr : Text
  pub data_id : Text

pub data PluginKind : Type 0 where
  nacos native forward : PluginKind

pub record PluginConfig : Type 0 where
  pub kind : PluginKind
  pub enabled : Bool
  pub server_addr : Option Text
  pub namespace : Option Text
  pub group : Option Text
  pub dns_zone : Option Text
  pub service_pattern : Option Text
  pub min_ttl : ℕ
  pub max_ttl : ℕ
  pub upstream : Option (List Text)

pub record LogsConfig : Type 0 where
  pub enabled : Bool
  pub level : Text
  pub endpoint : Option Text

pub record MetricsConfig : Type 0 where
  pub enabled : Bool
  pub interval_secs : ℕ
  pub endpoint : Option Text

pub record TracesConfig : Type 0 where
  pub enabled : Bool
  pub sample_ratio : ℕ
  pub max_queue_size : ℕ
  pub max_export_batch_size : ℕ
  pub scheduled_delay_ms : ℕ
  pub endpoint : Option Text

pub record ProfilesConfig : Type 0 where
  pub enabled : Bool
  pub interval_secs : ℕ
  pub duration_secs : ℕ
  pub frequency_hz : ℕ
  pub endpoint : Option Text

pub record BasicAuthConfig : Type 0 where
  pub username : Text
  pub password : Text

pub data ObservabilityBackend : Type 0 where
  open_observe otel_collector vector custom : ObservabilityBackend

pub record ObservabilityConfig : Type 0 where
  pub enabled : Bool
  pub backend : ObservabilityBackend
  pub endpoint : Text
  pub service_name : Option Text
  pub environment : Option Text
  pub timeout_secs : ℕ
  pub headers : List (Text × Text)
  pub basic_auth : Option BasicAuthConfig
  pub resource_attributes : List (Text × Text)
  pub logs : LogsConfig
  pub metrics : MetricsConfig
  pub traces : TracesConfig
  pub profiles : ProfilesConfig

pub record XdpConfig : Type 0 where
  pub enabled : Bool
  pub cache_size : ℕ
  pub negative_ttl : ℕ
  pub attach_mode : Text
  pub pin_path : Text

pub record ControlConfig : Type 0 where
  pub enabled : Bool
  pub listen_addr : Text
  pub port : ℕ
  pub endpoints : List Text

pub record DoggyDnsConfig : Type 0 where
  pub server : ServerConfig
  pub remote_config : RemoteConfig
  pub plugins : List PluginConfig
  pub observability : ObservabilityConfig
  pub xdp : XdpConfig
  pub control : ControlConfig
