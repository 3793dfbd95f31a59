-- ===== src/Config/Validate/Plugins/Zones.antt =====
-- Which plugins `validate_plugins` of crates/doggy-dns-basic/src/validate.rs accepts.
use doggy_dns.Common.{
  ℕ, ◌+◌, ◌≤◌, ◌≡◌, ◌≢◌, ◌↔◌, ◌⊎◌, inl, inr, refl, Bool, true, false, not, Option, none, some, List,
  [], ◌∷◌, ◌++◌, any, all, All, if◌then◌else◌, arith,
}
use doggy_dns.Common.Text.{Text, text, text_eq, text_eq_iff, is_empty, split_on}
use doggy_dns.Common.Results.{ok, ◌>>=◌, ensure}
use doggy_dns.Config.Schema.{PluginKind, nacos, native, forward, PluginConfig}
use doggy_dns.Config.Validate.Checks.{
  Host, invalid, Check, Passes, Distinct, ensure-Passes, then-Passes,
}
use doggy_dns.Config.Validate.Fresh.{AreFresh, fresh_beside_iff, AreFresh-nil, member_iff}
use doggy_dns.Config.Validate.Plugins.{
  byte_length, strip_dot, is_label_byte, label_loop, validate_dns_zone, validate_resolver_ttls,
  upstream_loop, check_upstream, validate_upstream, is_given, not_blank, unwrap_or_default, zone_of,
  validate_nacos, validate_kind, plugin_loop, is_enabled, validate_plugins,
}

abbrev pub IsLabel : Text → Type 0
IsLabel s = (s ≢ []) × (byte_length s ≤ 63) × (all is_label_byte s ≡ true)

abbrev pub IsZone : Text → Type 0
IsZone s = (s ≢ []) × (byte_length s ≤ 253) × All IsLabel (split_on b'.' s)

is_empty_iff : (s : Text) → (not (is_empty s) ≡ true) ↔ (s ≢ [])
is_empty_iff [] = ((λ h e. cc), (λ h. absurd (h refl)))
is_empty_iff (c ∷ s) = ((λ h e. cc), (λ h. refl))

label_loop_iff :
    (index : ℕ) (parts : List Text) → Passes (label_loop index parts) ↔ All IsLabel parts
label_loop_iff index [] = ((λ h. tt), (λ h. refl))
label_loop_iff index (part ∷ parts) = (
  (λ h. ground (arith, label_loop_iff index parts, is_empty_iff part)),
  (λ h. ground (arith, label_loop_iff index parts, is_empty_iff part)),
)

validate_dns_zone_iff :
    (index : ℕ) (zone : Text) → Passes (validate_dns_zone index zone) ↔ IsZone zone
unfolding validate_dns_zone
validate_dns_zone_iff index zone = (
  (λ h. ground (arith, label_loop_iff index (split_on b'.' zone), is_empty_iff zone)),
  (λ h. ground (arith, label_loop_iff index (split_on b'.' zone), is_empty_iff zone)),
)

abbrev pub IsAddress : Host → Text → Type 0
IsAddress host a = (host.is_socket_addr a ≡ true) ⊎ (host.is_ip_addr a ≡ true)

abbrev pub AreUpstream : Host → Option (List Text) → Type 0
AreUpstream host none = Unit
AreUpstream host (some addresses) = (addresses ≢ []) × All (IsAddress host) addresses

upstream_loop_iff :
    (host : Host) (index : ℕ) (addresses : List Text)
    → Passes (upstream_loop host index addresses) ↔ All (IsAddress host) addresses
upstream_loop_iff host index [] = ((λ h. tt), (λ h. refl))
upstream_loop_iff host index (a ∷ addresses) = (
  (λ h. ground (arith, upstream_loop_iff host index addresses)),
  (λ h. ground (arith, upstream_loop_iff host index addresses)),
)

check_upstream_iff :
    (host : Host) (index : ℕ) (upstream : Option (List Text))
    → Passes (check_upstream host index upstream) ↔ AreUpstream host upstream
check_upstream_iff host index none = ((λ h. tt), (λ h. refl))
check_upstream_iff host index (some []) = ((λ h. cc), (λ h. absurd (h.0 refl)))
check_upstream_iff host index (some (a ∷ addresses)) = (
  (λ h. ((λ e. cc), (upstream_loop_iff host index (a ∷ addresses)).0 h)),
  (λ h. (upstream_loop_iff host index (a ∷ addresses)).1 h.1),
)

abbrev pub IsNacos : PluginConfig → Type 0
IsNacos plugin =
    (is_given plugin.server_addr ≡ true)
    × (is_given plugin.namespace ≡ true)
    × (is_given plugin.group ≡ true)
    × (is_given plugin.dns_zone ≡ true)
    × IsZone (strip_dot (unwrap_or_default plugin.dns_zone))
    × (not_blank plugin.service_pattern ≡ true)

abbrev pub IsOfKind : Host → PluginConfig → PluginKind → Type 0
IsOfKind host plugin nacos = IsNacos plugin
IsOfKind host plugin native = plugin.min_ttl ≤ plugin.max_ttl
IsOfKind host plugin forward = (plugin.min_ttl ≤ plugin.max_ttl) × AreUpstream host plugin.upstream

-- The zones that a plugin of a kind adds to those in use.
abbrev pub zones_of : PluginConfig → PluginKind → List Text
zones_of plugin nacos = zone_of plugin ∷ []
zones_of plugin native = []
zones_of plugin forward = []

validate_nacos_iff :
    (index : ℕ) (zones : List Text) (plugin : PluginConfig) (go : List Text → Check)
    → Passes (validate_nacos index zones plugin >>= go) ↔ (
        IsNacos plugin × All (λ z. zone_of plugin ≢ z) zones × Passes (go (zone_of plugin ∷ zones)))
unfolding validate_nacos
validate_nacos_iff index zones plugin go = (
  (λ h. ground (
    arith,
    validate_dns_zone_iff index (strip_dot (unwrap_or_default plugin.dns_zone)),
    member_iff text_eq text_eq_iff (zone_of plugin) zones,
  )),
  (λ h. ground (
    arith,
    validate_dns_zone_iff index (strip_dot (unwrap_or_default plugin.dns_zone)),
    member_iff text_eq text_eq_iff (zone_of plugin) zones,
  )),
)

validate_kind_iff :
    (host : Host) (index : ℕ) (zones : List Text) (plugin : PluginConfig) (kind : PluginKind)
    → (go : List Text → Check)
    → Passes (validate_kind host index zones plugin kind >>= go) ↔ (
        IsOfKind host plugin kind
        × AreFresh zones (zones_of plugin kind)
        × Passes (go (zones_of plugin kind ++ zones)))
unfolding validate_resolver_ttls validate_upstream
validate_kind_iff host index zones plugin nacos go = (
  (λ h. let r = (validate_nacos_iff index zones plugin go).0 h in (r.0, (r.1, tt), r.2)),
  (λ h. (validate_nacos_iff index zones plugin go).1 (h.0, h.1.0, h.2)),
)
validate_kind_iff host index zones plugin native go =
    ((λ h. (ground arith, tt, ground arith)), (λ h. ground arith))
validate_kind_iff host index zones plugin forward go = (
  (λ h. (
    ground (arith, check_upstream_iff host index plugin.upstream),
    tt,
    ground (arith, check_upstream_iff host index plugin.upstream),
  )),
  (λ h. ground (arith, check_upstream_iff host index plugin.upstream)),
)

abbrev pub IsAccepted : Host → PluginConfig → Type 0
IsAccepted host plugin = if plugin.enabled then IsOfKind host plugin plugin.kind else Unit

-- The zones of the enabled nacos plugins, in lower case and without a final dot.
abbrev pub nacos_zones : List PluginConfig → List Text
nacos_zones [] = []
nacos_zones (plugin ∷ plugins) =
    (if plugin.enabled then zones_of plugin plugin.kind else []) ++ nacos_zones plugins

plugin_step_iff :
    (enabled : Bool) (host : Host) (index : ℕ) (zones : List Text) (plugin : PluginConfig)
    → (go : List Text → Check)
    → (let own = if enabled then zones_of plugin plugin.kind else [] in
        Passes
          ((if enabled then validate_kind host index zones plugin plugin.kind else ok zones) >>= go)
        ↔ ((if enabled then IsOfKind host plugin plugin.kind else Unit)
            × AreFresh zones own
            × Passes (go (own ++ zones))))
plugin_step_iff true host index zones plugin go =
    validate_kind_iff host index zones plugin plugin.kind go
plugin_step_iff false host index zones plugin go = ((λ h. (tt, tt, h)), (λ h. h.2))

-- A plugin adds one zone or none.
data AtMostOne : List Text → Type 0 where
  no_zone : AtMostOne []
  one_zone : (z : Text) → AtMostOne (z ∷ [])

own-AtMostOne :
    (enabled : Bool) (plugin : PluginConfig) (kind : PluginKind)
    → AtMostOne (if enabled then zones_of plugin kind else [])
own-AtMostOne false plugin kind = no_zone
own-AtMostOne true plugin nacos = one_zone (zone_of plugin)
own-AtMostOne true plugin native = no_zone
own-AtMostOne true plugin forward = no_zone

fresh-Distinct_iff :
    (used own later : List Text)
    → AtMostOne own
    → (AreFresh used own × AreFresh (own ++ used) later × Distinct later)
      ↔ (AreFresh used (own ++ later) × Distinct (own ++ later))
fresh-Distinct_iff used [] later no_zone = ((λ h. (h.1, h.2)), (λ h. (tt, h.0, h.1)))
fresh-Distinct_iff used (z ∷ (_ ∷ _)) later x = elim x [ ]
fresh-Distinct_iff used (z ∷ []) later (one_zone _) = (
  (λ h. let r = (fresh_beside_iff z used later).0 h.1 in ((h.0.0, r.1), (r.0, h.2))),
  (λ h. ((h.0.0, tt), (fresh_beside_iff z used later).1 (h.1.0, h.0.1), h.1.1)),
)

plugin_loop_iff :
    (host : Host) (index : ℕ) (zones : List Text) (plugins : List PluginConfig)
    → Passes (plugin_loop host index zones plugins) ↔ (
        All (IsAccepted host) plugins
        × AreFresh zones (nacos_zones plugins)
        × Distinct (nacos_zones plugins))
plugin_loop_iff host index zones [] = ((λ h. (tt, tt, tt)), (λ h. refl))
plugin_loop_iff host index zones (plugin ∷ plugins) =
    let own = if plugin.enabled then zones_of plugin plugin.kind else [] in
    let step =
      plugin_step_iff plugin.enabled host index zones plugin
        (λ zones'. plugin_loop host (index + 1) zones' plugins) in
    let later = plugin_loop_iff host (index + 1) (own ++ zones) plugins in
    let both =
      fresh-Distinct_iff zones own (nacos_zones plugins)
        (own-AtMostOne plugin.enabled plugin plugin.kind) in
    (
      (λ h.
          let s = step.0 h in
          let l = later.0 s.2 in let b = both.0 (s.1, l.1, l.2) in ((s.0, l.0), b.0, b.1)),
      (λ h. let b = both.1 (h.1, h.2) in step.1 (h.0.0, b.0, later.1 (h.0.1, b.1, b.2))),
    )

-- A configuration without plugins is accepted; one with plugins is accepted just where one of them
-- is enabled, each that is enabled has what its kind asks for, and no two enabled nacos plugins
-- serve the same zone, whatever the case and the final dot.
pub validate_plugins_iff :
    (host : Host) (plugins : List PluginConfig)
    → Passes (validate_plugins host plugins) ↔ (
        (plugins ≡ [])
        ⊎ ((any is_enabled plugins ≡ true)
            × All (IsAccepted host) plugins
            × Distinct (nacos_zones plugins)))
unfolding validate_plugins
validate_plugins_iff host [] = ((λ h. inl refl), (λ h. refl))
validate_plugins_iff host (plugin ∷ plugins) =
    let first = ensure-Passes (any is_enabled (plugin ∷ plugins)) (invalid (text "plugins")) in
    let loop = plugin_loop_iff host 0 [] (plugin ∷ plugins) in
    let both =
      then-Passes (ensure (any is_enabled (plugin ∷ plugins)) (invalid (text "plugins"))) _ in
    (
      (λ h. let b = both.0 h in let l = loop.0 b.1 in inr (first.0 b.0, l.0, l.2)),
      (λ h. elim h [
        | inl e ↦ cc
        | inr r ↦
            both.1 (first.1 r.0, loop.1 (r.1, AreFresh-nil (nacos_zones (plugin ∷ plugins)), r.2))
      ]),
    )
