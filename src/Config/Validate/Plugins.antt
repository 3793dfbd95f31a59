-- ===== src/Config/Validate/Plugins.antt =====
-- `validate_plugins` and its helpers: crates/doggy-dns-basic/src/validate.rs.
pub mod Zones
use doggy_dns.Common.{
  ℕ, ◌+◌, Bool, true, false, not, ◌&&◌, ◌||◌, Option, none, some, List, [], ◌∷◌, any, all, ltb, leb,
  ◌==◌, if◌then◌else◌,
}
use doggy_dns.Common.Text.{Text, text, text_eq, is_empty, is_blank, lowercase, split_on}
use doggy_dns.Common.Results.{Result, ok, err, ◌>>=◌, ◌>>◌, ensure}
use doggy_dns.Config.Schema.{PluginKind, nacos, native, forward, PluginConfig}
use doggy_dns.Config.Validate.Checks.{
  Host, ConfigError, invalid, invalid_plugin, Check, pass, member,
}

-- `len` of a text: the bytes of its UTF-8 form.
abbrev pub byte_length : Text → ℕ
byte_length [] = 0
byte_length (c ∷ s) =
    (if ltb c 0x80 then 1 else if ltb c 0x800 then 2 else if ltb c 0x10000 then 3 else 4)
    + byte_length s

-- `strip_suffix('.')`, or the text itself.
abbrev pub strip_dot : Text → Text
strip_dot [] = []
strip_dot (c ∷ []) = if c == b'.' then [] else c ∷ []
strip_dot (c ∷ d ∷ s) = c ∷ strip_dot (d ∷ s)

abbrev pub is_label_byte : ℕ → Bool
is_label_byte c =
    (leb b'0' c && leb c b'9')
    || (leb b'A' c && leb c b'Z')
    || (leb b'a' c && leb c b'z')
    || (c == b'-')
    || (c == b'_')

abbrev pub label_loop : (index : ℕ) → List Text → Check
label_loop index [] = pass
label_loop index (part ∷ parts) =
    ensure (not (is_empty part)) (invalid_plugin index (text "dns_zone"))
    >> ensure (leb (byte_length part) 63) (invalid_plugin index (text "dns_zone"))
    >> ensure (all is_label_byte part) (invalid_plugin index (text "dns_zone"))
    >> label_loop index parts

unfoldable pub validate_dns_zone : (index : ℕ) → (zone : Text) → Check
validate_dns_zone index zone =
    ensure (not (is_empty zone)) (invalid_plugin index (text "dns_zone"))
    >> ensure (leb (byte_length zone) 253) (invalid_plugin index (text "dns_zone"))
    >> label_loop index (split_on b'.' zone)

unfoldable pub validate_resolver_ttls : (index : ℕ) → PluginConfig → Check
validate_resolver_ttls index plugin =
    ensure (leb plugin.min_ttl plugin.max_ttl) (invalid_plugin index (text "min_ttl"))

abbrev pub upstream_loop : Host → (index : ℕ) → List Text → Check
upstream_loop host index [] = pass
upstream_loop host index (address ∷ addresses) =
    ensure (host.is_socket_addr address || host.is_ip_addr address)
      (invalid_plugin index (text "upstream"))
    >> upstream_loop host index addresses

abbrev pub check_upstream : Host → (index : ℕ) → Option (List Text) → Check
check_upstream host index none = pass
check_upstream host index (some []) = err (invalid_plugin index (text "upstream"))
check_upstream host index (some (address ∷ addresses)) =
    upstream_loop host index (address ∷ addresses)

unfoldable pub validate_upstream : Host → (index : ℕ) → PluginConfig → Check
validate_upstream host index plugin = check_upstream host index plugin.upstream

-- A value that is there and not blank.
abbrev pub is_given : Option Text → Bool
is_given none = false
is_given (some value) = not (is_blank value)

abbrev pub not_blank : Option Text → Bool
not_blank none = true
not_blank (some value) = not (is_blank value)

abbrev pub unwrap_or_default : Option Text → Text
unwrap_or_default none = []
unwrap_or_default (some value) = value

-- The zone that a nacos plugin is to serve, as it is compared.
abbrev pub zone_of : PluginConfig → Text
zone_of plugin = lowercase (strip_dot (unwrap_or_default plugin.dns_zone))

abbrev pub validate_required : (index : ℕ) → PluginConfig → Check
validate_required index plugin =
    ensure (is_given plugin.server_addr) (invalid_plugin index (text "server_addr"))
    >> ensure (is_given plugin.namespace) (invalid_plugin index (text "namespace"))
    >> ensure (is_given plugin.group) (invalid_plugin index (text "group"))
    >> ensure (is_given plugin.dns_zone) (invalid_plugin index (text "dns_zone"))

-- A nacos plugin, and the zones with its own added.
unfoldable pub validate_nacos :
    (index : ℕ) → (zones : List Text) → PluginConfig → Result ConfigError (List Text)
unfolding validate_dns_zone
validate_nacos index zones plugin =
    validate_required index plugin
    >> validate_dns_zone index (strip_dot (unwrap_or_default plugin.dns_zone))
    >> ensure (not (member text_eq (zone_of plugin) zones)) (invalid_plugin index (text "dns_zone"))
    >> ensure (not_blank plugin.service_pattern) (invalid_plugin index (text "service_pattern"))
    >> ok (zone_of plugin ∷ zones)

abbrev pub validate_kind :
    Host
    → (index : ℕ) → (zones : List Text) → PluginConfig
    → PluginKind
    → Result ConfigError (List Text)
validate_kind host index zones plugin nacos = validate_nacos index zones plugin
validate_kind host index zones plugin native = validate_resolver_ttls index plugin >> ok zones
validate_kind host index zones plugin forward =
    validate_resolver_ttls index plugin >> validate_upstream host index plugin >> ok zones

abbrev pub plugin_loop : Host → (index : ℕ) → (zones : List Text) → List PluginConfig → Check
plugin_loop host index zones [] = pass
plugin_loop host index zones (plugin ∷ plugins) =
    (if plugin.enabled then validate_kind host index zones plugin plugin.kind else ok zones)
    >>= λ zones'. plugin_loop host (index + 1) zones' plugins

abbrev pub is_enabled : PluginConfig → Bool
is_enabled plugin = plugin.enabled

unfoldable pub validate_plugins : Host → List PluginConfig → Check
unfolding validate_nacos validate_resolver_ttls validate_upstream
validate_plugins host [] = pass
validate_plugins host (plugin ∷ plugins) =
    ensure (any is_enabled (plugin ∷ plugins)) (invalid (text "plugins"))
    >> plugin_loop host 0 [] (plugin ∷ plugins)
