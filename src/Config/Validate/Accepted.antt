-- ===== src/Config/Validate/Accepted.antt =====
-- Which configurations `validate_config` of crates/doggy-dns-basic/src/validate.rs accepts.
use doggy_dns.Common.{◌≡◌, ◌↔◌, ◌⊎◌, true, false, [], any, All}
use doggy_dns.Config.Schema.{DoggyDnsConfig}
use doggy_dns.Config.Validate.Checks.{Host, Passes, Distinct, both_iff}
use doggy_dns.Config.Validate.Plugins.{is_enabled}
use doggy_dns.Config.Validate.Plugins.Zones.{IsAccepted, nacos_zones, validate_plugins_iff}
use doggy_dns.Config.Validate.Telemetry.Settings.{
  HasEndpoints, HasSettings, validate_observability_iff,
}
use doggy_dns.Config.Validate.{validate_config}
use doggy_dns.Config.Validate.Server.{IsServer, validate_server_iff}
use doggy_dns.Config.Validate.Sections.{
  IsRemote, IsXdp, IsControl, validate_remote_iff, validate_xdp_iff, validate_control_iff,
}

pub record IsConfig (host : Host) (config : DoggyDnsConfig) : Type 0 where
  pub server : IsServer host config.server
  pub remote : IsRemote config.remote_config
  pub plugins :
      (config.plugins ≡ [])
      ⊎ ((any is_enabled config.plugins ≡ true)
          × All (IsAccepted host) config.plugins
          × Distinct (nacos_zones config.plugins))
  pub observability :
      (config.observability.enabled ≡ false)
      ⊎ (HasEndpoints config.observability × HasSettings host config.observability)
  pub xdp : (config.xdp.enabled ≡ false) ⊎ IsXdp config.xdp
  pub control : (config.control.enabled ≡ false) ⊎ IsControl host config.control

-- A configuration is accepted just where each of its parts is what that part must be: a worker and a
-- listener, one core for each worker and none for two, the certificates of what is served, the
-- address of the remote configuration, the plugins with their zones, the telemetry, the sizes and
-- the pin path of the XDP maps, and the address and the endpoints of the control plane. A part that
-- is not enabled is not looked at.
pub validate_config_iff :
    (host : Host) (config : DoggyDnsConfig)
    → Passes (validate_config host config) ↔ IsConfig host config
unfolding validate_config
validate_config_iff host config =
    let parts =
      both_iff _ _
        (both_iff _ _
          (both_iff _ _
            (both_iff _ _
              (both_iff _ _ (validate_server_iff host config.server)
                (validate_remote_iff config.remote_config))
              (validate_plugins_iff host config.plugins))
            (validate_observability_iff host config.observability))
          (validate_xdp_iff config.xdp))
        (validate_control_iff host config.control) in
    (
      (λ h.
          let p = parts.0 h in
          record {
            server = p.0.0.0.0.0;
            remote = p.0.0.0.0.1;
            plugins = p.0.0.0.1;
            observability = p.0.0.1;
            xdp = p.0.1;
            control = p.1;
          }),
      (λ h. parts.1 (((((h.server, h.remote), h.plugins), h.observability), h.xdp), h.control)),
    )
