-- ===== src/Tests/Settings.antt =====
-- Expansion, redaction and validation of small configurations.
use mathlib.Core.Logic.{◌↔◌}
use doggy_dns.Common.{◌≡◌, refl, true, false, Option, none, some, List, [], ◌∷◌, map, if◌then◌else◌}
use doggy_dns.Common.Text.{Text, text, text_eq}
use doggy_dns.Common.Results.{ok, err, ◌>>=◌}
use doggy_dns.Config.Env.{
  out_of_fuel, not_set, find_reference, expand_env, expand_loop, read_reference,
}
use doggy_dns.Config.Env.Template.{
  Template, literal, reference, render, resolve, expand_env-ends, expand_env-render,
}
use doggy_dns.Config.Toml.{Value, string, table, array, other, end, field, nil, cons}
use doggy_dns.Config.Toml.Leaves.{leaves}
use doggy_dns.Config.Env.Document.{expand_env_in_value}
use doggy_dns.Config.Env.Document.Strings.{expand_leaves, expand_env_in_value-leaves}
use doggy_dns.Config.Redact.{is_sensitive, redact_value}
use doggy_dns.Config.Redact.Hidden.{hide_leaf, hidden_paths, blank, redact_value-leaves}
use doggy_dns.Config.Schema.{PluginConfig, nacos, ObservabilityConfig, open_observe, DoggyDnsConfig}
use doggy_dns.Config.Validate.{validate_config}
use doggy_dns.Config.Validate.Checks.{Host, Passes, invalid_plugin}
use doggy_dns.Config.Validate.Plugins.{validate_plugins}
use doggy_dns.Config.Validate.Accepted.{IsConfig, validate_config_iff}

abbrev environment : Text → Option Text
environment name = if text_eq name (text "HOST") then some (text "10.0.0.7") else none

abbrev greeting : Template
greeting = reference (text "http://") (text "HOST") (literal (text ":80"))

expand_env-render_example : expand_env environment (render greeting) ≡ resolve environment greeting
unfolding find_reference
expand_env-render_example = expand_env-render environment greeting (refl, refl, refl, refl)

expands_host : expand_env environment (text "http://${HOST}:80") ≡ ok (text "http://10.0.0.7:80")
unfolding expand_env expand_loop find_reference read_reference
expands_host = refl

misses_port : expand_env environment (text "${HOST}:${PORT}") ≡ err (not_set (text "PORT"))
unfolding expand_env expand_loop find_reference read_reference
misses_port = refl

expand_env-ends_example :
    (let expanded = expand_env environment (text "a${HOST") in expanded ≡ err out_of_fuel) → ⊥
expand_env-ends_example = expand_env-ends environment (text "a${HOST")

abbrev document : Value
document = table (
    field (text "url") (string (text "http://${HOST}")) (
      field (text "token") (string (text "s3cret")) (
        field (text "ports") (array (cons (other (text "53")) (cons (string (text "853")) nil)))
          end)))

expand_env_in_value-leaves_example :
    (expand_env_in_value environment document >>= λ v. ok (leaves is_sensitive false [] v))
    ≡ expand_leaves environment is_sensitive (leaves is_sensitive false [] document)
expand_env_in_value-leaves_example = expand_env_in_value-leaves environment is_sensitive document

redact_value-leaves_example :
    (leaves is_sensitive false [] (redact_value document [] []).0
      ≡ map hide_leaf (leaves is_sensitive false [] document))
    × ((redact_value document [] []).1 ≡ hidden_paths (leaves is_sensitive false [] document))
    × (blank (redact_value document [] []).0 ≡ blank document)
redact_value-leaves_example = redact_value-leaves document

redacts_token : (redact_value document [] []).1 ≡ text "token" ∷ []
unfolding redact_value is_sensitive
redacts_token = refl

-- A string in an array under a sensitive key stays.
abbrev tokens : Value
tokens = table (field (text "token") (array (cons (string (text "s3cret")) nil)) end)

shows_tokens : redact_value tokens [] [] ≡ (tokens, [])
unfolding redact_value is_sensitive
shows_tokens = refl

abbrev host : Host
host = record {
  path_exists = λ path. false;
  is_ip_addr = λ address. true;
  is_socket_addr = λ address. false;
  is_linux = true;
  is_macos = false;
}

abbrev plugin : (zone : Text) → PluginConfig
plugin zone = record {
  kind = nacos;
  enabled = true;
  server_addr = some (text "127.0.0.1:8848");
  namespace = some (text "public");
  group = some (text "DEFAULT_GROUP");
  dns_zone = some zone;
  service_pattern = none;
  min_ttl = 10;
  max_ttl = 300;
  upstream = none;
}

abbrev telemetry : ObservabilityConfig
telemetry = record {
  enabled = false;
  backend = open_observe;
  endpoint = [];
  service_name = none;
  environment = none;
  resource_attributes = [];
  timeout_secs = 10;
  headers = [];
  basic_auth = none;
  logs = record { enabled = true; level = text "warn"; endpoint = none };
  metrics = record { enabled = true; interval_secs = 15; endpoint = none };
  traces = record {
    enabled = true;
    sample_ratio = 0;
    max_queue_size = 2048;
    max_export_batch_size = 512;
    scheduled_delay_ms = 5000;
    endpoint = none;
  };
  profiles = record {
    enabled = false;
    interval_secs = 60;
    duration_secs = 10;
    frequency_hz = 99;
    endpoint = none;
  };
}

abbrev config : List PluginConfig → DoggyDnsConfig
config plugins = record {
  server = record {
    worker_threads = 2;
    reuseport_listen_num = 1;
    cpu_affinity = some (0 ∷ 3 ∷ []);
    tls = none;
    https = none;
  };
  remote_config = record { enabled = false; server_addr = []; data_id = [] };
  plugins = plugins;
  observability = telemetry;
  xdp = record {
    enabled = true;
    cache_size = 65536;
    negative_ttl = 30;
    attach_mode = text "auto";
    pin_path = text "/sys/fs/bpf/doggy";
  };
  control = record {
    enabled = true;
    listen_addr = text "127.0.0.1";
    port = 19090;
    endpoints = text "mcp" ∷ text "readyz" ∷ [];
  };
}

abbrev two_zones : DoggyDnsConfig
two_zones = config (plugin (text "svc.local") ∷ plugin (text "other.local.") ∷ [])

validate_config_iff_example : Passes (validate_config host two_zones) ↔ IsConfig host two_zones
validate_config_iff_example = validate_config_iff host two_zones

accepts_two_zones : Passes (validate_config host two_zones)
unfolding validate_config
accepts_two_zones = refl

-- The same zone twice, but for the case and the final dot.
refuses_one_zone :
    validate_plugins host (plugin (text "svc.local") ∷ plugin (text "SVC.local.") ∷ [])
    ≡ err (invalid_plugin 1 (text "dns_zone"))
unfolding validate_plugins
refuses_one_zone = refl
