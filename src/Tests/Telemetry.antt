-- ===== src/Tests/Telemetry.antt =====
-- The request for a small profile, the headers and the URL of an exporter.
use doggy_dns.Common.{
  ℕ, ◌≡◌, refl, true, false, Option, none, some, List, [], ◌∷◌, All, length, if◌then◌else◌, arith,
}
use doggy_dns.Common.Text.{Text, text, text_eq}
use doggy_dns.Common.Results.{ok}
use doggy_dns.Config.Env.{expand_env, expand_loop, find_reference}
use doggy_dns.Config.Schema.{ObservabilityConfig, custom}
use doggy_dns.Observability.Profiles.{
  pos, negsuc, ProfileSymbol, CollectedProfile, period_of, build, build_export_request, same_text,
  same_function, same_location, same_attribute,
}
use doggy_dns.Observability.Tables.{index_of}
use native.Mathlib.Decide.{ℕ_discrete}
use doggy_dns.Observability.Profiles.Described.{IsSmall}
use doggy_dns.Observability.Profiles.Samples.{DescribesAll}
use doggy_dns.Observability.Profiles.Request.{NamesUnit, build_export_request-describes}
use doggy_dns.Observability.Profiles.Bounds.{InRange, BeginsWithZeros, build_export_request-InRange}
use doggy_dns.Observability.Auth.{Codecs, Headers, decode_bytes, resolve_headers}
use doggy_dns.Observability.Auth.Percent.{
  Piece, plain, escape, encode, bytes_of, decode_bytes-encode,
}
use doggy_dns.Observability.Auth.Configured.{last_named, Stands}
use doggy_dns.Observability.Auth.Names.{AreDistinct}
use doggy_dns.Observability.Auth.Headers.{IsCovered, IsSendable, resolve_headers-AreDistinct}
use doggy_dns.Observability.Resource.{Node, Attributes, get, build_with_env}
use doggy_dns.Observability.Resource.Identity.{Identifies, built, before, build_with_env-Identifies}
use doggy_dns.Observability.Endpoint.{Url, logs}

abbrev symbol : ProfileSymbol
symbol = record {
  name = text "main";
  system_name = text "_main";
  filename = text "main.rs";
  line = 7;
  address = 4096;
}

abbrev collected : CollectedProfile
collected = record {
  samples =
      record {
        frames = record { symbols = symbol ∷ symbol ∷ [] } ∷ record { symbols = [] } ∷ [];
        count = pos 3;
        thread_name = some (text " worker ");
      }
      ∷ record { frames = []; count = pos 1; thread_name = none }
      ∷ record {
        frames = record { symbols = symbol ∷ [] } ∷ [];
        count = negsuc 0;
        thread_name = none;
      }
      ∷ [];
  time_unix_nano = 5;
  duration_nano = 6;
  frequency = pos 100;
}

row_counts :
    (let d = (build_export_request [] collected).1 in
      (length d.strings.rows ≡ 7)
      × (length d.functions.rows ≡ 2)
      × (length d.locations.rows ≡ 2)
      × (length d.stacks.rows ≡ 2)
      × (length d.attributes.rows ≡ 2))
unfolding build_export_request index_of same_text same_function same_location same_attribute
    ℕ_discrete
row_counts = (refl, refl, refl, refl, refl)

is_small : IsSmall (build_export_request [] collected).1
is_small = record {
  strings = omega (arith, row_counts.0);
  functions = omega (arith, row_counts.1);
  locations = omega (arith, row_counts.2);
  stacks = omega (arith, row_counts.3);
  attributes = omega (arith, row_counts.4);
}

build_export_request-describes_example :
    (let request = build_export_request [] collected in
      DescribesAll (period_of collected) request.1 request.0.samples collected.samples
      × NamesUnit request.1 request.0)
build_export_request-describes_example = build_export_request-describes [] collected is_small

build_export_request-InRange_example :
    (let request = build_export_request [] collected in
      let tables = build {Mapping = ℕ} {Link = ℕ} 0 0 request.1 in
      BeginsWithZeros 0 0 tables × All (InRange tables) request.0.samples)
build_export_request-InRange_example =
    build_export_request-InRange {Mapping = ℕ} {Link = ℕ} 0 0 [] collected is_small

abbrev pieces : List Piece
pieces = plain b'a' ∷ escape true false 2 12 ∷ plain b'b' ∷ []

decode_bytes-encode_example : decode_bytes (encode pieces) ≡ ok (bytes_of pieces)
decode_bytes-encode_example =
    decode_bytes-encode pieces
      ((λ h. omega arith), ((omega arith, omega arith), ((λ h. omega arith), tt)))

abbrev codecs : Codecs
codecs = record {
  as_bytes = λ s. s;
  from_utf8 = λ bytes. some bytes;
  base64 = λ s. s;
  is_header_name = λ s. true;
  is_header_value = λ s. true;
}

abbrev environment : Text → Option Text
environment name =
    if text_eq name (text "OTEL_EXPORTER_OTLP_HEADERS")
    then some (text "X-Org=a%2Cb, stream-name=old")
    else none

abbrev telemetry : ObservabilityConfig
telemetry = record {
  enabled = true;
  backend = custom;
  endpoint = text " http://collector:4318/ ";
  service_name = none;
  environment = none;
  resource_attributes = [];
  timeout_secs = 10;
  headers = (text "Stream-Name", text "new") ∷ [];
  basic_auth = some (record { username = text "root"; password = text "pw" });
  logs = record { enabled = true; level = text "warn"; endpoint = none };
  metrics = record { enabled = true; interval_secs = 15; endpoint = none };
  traces = record {
    enabled = true;
    sample_ratio = 0;
    max_queue_size = 2048;
    max_export_batch_size = 512;
    scheduled_delay_ms = 5000;
    endpoint = none;
  };
  profiles = record {
    enabled = false;
    interval_secs = 60;
    duration_secs = 10;
    frequency_hz = 99;
    endpoint = none;
  };
}

abbrev sent : Headers
sent =
    (text "Authorization", text "Basic root:pw")
    ∷ (text "Stream-Name", text "new")
    ∷ (text "X-Org", text "a,b")
    ∷ []

sends : resolve_headers codecs environment telemetry ≡ ok sent
unfolding resolve_headers expand_env expand_loop find_reference
sends = refl

resolve_headers-AreDistinct_example :
    AreDistinct sent
    × All (Stands environment sent) (last_named telemetry.headers)
    × All (IsSendable codecs environment) sent
    × IsCovered codecs environment telemetry.basic_auth sent
resolve_headers-AreDistinct_example =
    resolve_headers-AreDistinct codecs environment telemetry sent sends

abbrev parse : Text → Option Url
parse url = some (record { scheme = text "http"; username = []; password = none })

abbrev logs_url : Text
logs_url = text "http://collector:4318/v1/logs"

abbrev node : Node
node = record { os_hostname = some (text "box"); pid = 42; version = text "0.1.0" }

abbrev attributes : Attributes
attributes = (text "doggy_dns.dns.port", text "53") ∷ []

build_with_env-Identifies_example :
    Identifies codecs node telemetry attributes environment
    × (get (text "doggy_dns.dns.port") (built codecs node telemetry attributes environment)
        ≡ before codecs node telemetry attributes environment (text "doggy_dns.dns.port"))
build_with_env-Identifies_example =
    build_with_env-Identifies codecs node telemetry attributes environment
      (text "doggy_dns.dns.port") (refl, refl, refl, refl, refl, refl)

identity :
    get (text "service.instance.id") (build_with_env codecs node telemetry attributes environment)
    ≡ some (text "box-42")
unfolding build_with_env
identity = refl
