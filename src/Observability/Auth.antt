-- ===== src/Observability/Auth.antt =====
-- The headers of the exporters: crates/doggy-dns-observability/src/auth.rs.
-- The map of headers is the list of its entries, each name once; `Codecs` is what is asked of the
-- UTF-8 and base64 codecs and of the checks on a header's name and value.
pub mod Percent
pub mod Names
pub mod Configured
pub mod Distinct
pub mod Headers
use doggy_dns.Common.{
  ℕ, ◌+◌, ◌-◌, ◌*◌, Bool, true, false, not, ◌&&◌, ◌||◌, Option, none, some, List, [], ◌∷◌, ◌++◌,
  any, leb, ◌==◌, if◌then◌else◌,
}
use doggy_dns.Common.Text.{
  Text, text, text_eq, is_empty, is_blank, lowercase, trim, split_on, split_once,
}
use doggy_dns.Common.Results.{Result, ok, err, ◌>>=◌, ◌>>◌, ensure}
use doggy_dns.Config.Env.{EnvError, expand_env}
use doggy_dns.Config.Schema.{BasicAuthConfig, ObservabilityConfig}

pub record Codecs : Type 0 where
  pub as_bytes : Text → List ℕ
  pub from_utf8 : List ℕ → Option Text
  pub base64 : Text → Text
  pub is_header_name : Text → Bool
  pub is_header_value : Text → Bool

pub data HeaderError : Type 0 where
  truncated_escape : HeaderError
  invalid_digit : HeaderError
  not_utf8 : HeaderError
  invalid_entry : Text → HeaderError
  empty_name : HeaderError
  invalid_reference : Text → EnvError → HeaderError
  empty_auth : HeaderError
  invalid_name : Text → HeaderError
  invalid_value : Text → HeaderError

unfoldable pub hex_value : ℕ → Result HeaderError ℕ
hex_value byte =
    if leb b'0' byte && leb byte b'9'
    then ok (byte - b'0')
    else if leb b'a' byte && leb byte b'f'
    then ok (byte - b'a' + 10)
    else if leb b'A' byte && leb byte b'F'
    then ok (byte - b'A' + 10)
    else err invalid_digit

-- A decoded byte before the others.
abbrev pub push_byte : ℕ → Result HeaderError (List ℕ) → Result HeaderError (List ℕ)
push_byte byte rest = rest >>= λ bytes. ok (byte ∷ bytes)

abbrev pub decode_escape :
    (high low : ℕ) → Result HeaderError (List ℕ) → Result HeaderError (List ℕ)
decode_escape high low rest =
    hex_value high >>= λ h. hex_value low >>= λ l. push_byte (h * 16 + l) rest

-- The loop over the bytes, from the left.
unfoldable pub decode_bytes : List ℕ → Result HeaderError (List ℕ)
unfolding hex_value
decode_bytes [] = ok []
decode_bytes (byte ∷ []) = if byte == b'%' then err truncated_escape else ok (byte ∷ [])
decode_bytes (byte ∷ next ∷ []) =
    let plain = push_byte byte (decode_bytes (next ∷ [])) in
    if byte == b'%' then err truncated_escape else plain
decode_bytes (byte ∷ high ∷ low ∷ rest) =
    let escaped = decode_escape high low (decode_bytes rest) in
    let plain = push_byte byte (decode_bytes (high ∷ low ∷ rest)) in
    if byte == b'%' then escaped else plain

abbrev pub utf8_text : Option Text → Result HeaderError Text
utf8_text none = err not_utf8
utf8_text (some s) = ok s

unfoldable pub percent_decode : Codecs → Text → Result HeaderError Text
unfolding decode_bytes
percent_decode codecs value =
    decode_bytes (codecs.as_bytes value) >>= λ decoded. utf8_text (codecs.from_utf8 decoded)

abbrev pub Headers : Type 0
Headers = List (Text × Text)

abbrev pub eq_ignore_ascii_case : Text → Text → Bool
eq_ignore_ascii_case s t = text_eq (lowercase s) (lowercase t)

abbrev pub find_name : Text → Headers → Option Text
find_name name [] = none
find_name name (header ∷ headers) =
    if eq_ignore_ascii_case header.0 name then some header.0 else find_name name headers

abbrev pub remove : Text → Headers → Headers
remove name [] = []
remove name (header ∷ headers) =
    let rest = remove name headers in if text_eq header.0 name then rest else header ∷ rest

abbrev pub remove_found : Option Text → Headers → Headers
remove_found none headers = headers
remove_found (some existing) headers = remove existing headers

-- `HashMap::insert`
abbrev pub insert : Text → Text → Headers → Headers
insert name value headers = (name, value) ∷ remove name headers

unfoldable pub insert_header : Headers → (name value : Text) → Headers
insert_header headers name value = insert name value (remove_found (find_name name headers) headers)

abbrev pub add_pair :
    Codecs → Headers → (pair : Text) → Option (Text × Text) → Result HeaderError Headers
add_pair codecs headers pair none = err (invalid_entry pair)
add_pair codecs headers pair (some (key, value)) = percent_decode codecs (trim key) >>= λ name.
    ensure (not (is_empty name)) empty_name >>= λ _.
    percent_decode codecs (trim value) >>= λ decoded. ok (insert_header headers name decoded)

-- The pairs of OTEL_EXPORTER_OTLP_HEADERS.
abbrev pub env_loop : Codecs → Headers → List Text → Result HeaderError Headers
env_loop codecs headers [] = ok headers
env_loop codecs headers (raw ∷ pairs) =
    let pair = trim raw in
    (if is_empty pair then ok headers else add_pair codecs headers pair (split_once b'=' pair))
    >>= λ headers'. env_loop codecs headers' pairs

abbrev pub env_headers : Codecs → Option Text → Result HeaderError Headers
env_headers codecs none = ok []
env_headers codecs (some raw) =
    if is_blank raw then ok [] else env_loop codecs [] (split_on b',' raw)

abbrev pub expanded : Text → Result EnvError Text → Result HeaderError Text
expanded name (ok s) = ok s
expanded name (err e) = err (invalid_reference name e)

-- The configured headers, which override those of the environment.
abbrev pub config_loop :
    (Text → Option Text) → Headers → List (Text × Text) → Result HeaderError Headers
config_loop env headers [] = ok headers
config_loop env headers ((key, value) ∷ others) = ensure (not (is_blank key)) empty_name >>= λ _.
    expanded key (expand_env env value) >>= λ value'.
    config_loop env (insert_header headers (trim key) value') others

abbrev pub is_authorized : Headers → Bool
is_authorized headers = any (λ h. eq_ignore_ascii_case h.0 (text "authorization")) headers

abbrev pub add_basic_auth :
    Codecs → (Text → Option Text) → Headers → BasicAuthConfig → Result HeaderError Headers
add_basic_auth codecs env headers auth =
    expanded (text "username") (expand_env env auth.username) >>= λ username.
    expanded (text "password") (expand_env env auth.password) >>= λ password.
    ensure (not (is_empty username) && not (is_empty password)) empty_auth >>= λ _. ok (
      insert (text "Authorization") (text "Basic " ++ codecs.base64 (username ++ (b':' ∷ password)))
        headers)

abbrev pub authorize :
    Codecs → (Text → Option Text) → Headers → Option BasicAuthConfig → Result HeaderError Headers
authorize codecs env headers none = ok headers
authorize codecs env headers (some auth) =
    if is_authorized headers then ok headers else add_basic_auth codecs env headers auth

abbrev pub check_headers : Codecs → Headers → Result HeaderError (Unit {0})
check_headers codecs [] = ok tt
check_headers codecs ((name, value) ∷ headers) =
    ensure (codecs.is_header_name name) (invalid_name name) >>= λ _.
    ensure (codecs.is_header_value value) (invalid_value name) >>= λ _. check_headers codecs headers

unfoldable pub resolve_headers :
    Codecs → (Text → Option Text) → ObservabilityConfig → Result HeaderError Headers
unfolding percent_decode insert_header
resolve_headers codecs env config =
    env_headers codecs (env (text "OTEL_EXPORTER_OTLP_HEADERS")) >>= λ from_env.
    config_loop env from_env config.headers >>= λ configured.
    authorize codecs env configured config.basic_auth >>= λ headers.
    check_headers codecs headers >>= λ _. ok headers
