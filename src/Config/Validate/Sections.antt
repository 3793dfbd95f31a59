-- ===== src/Config/Validate/Sections.antt =====
-- Which sections for the remote configuration, XDP and the control plane
-- `validate_config` of crates/doggy-dns-basic/src/validate.rs accepts.
use doggy_dns.Common.{
  ◌<◌, ◌≡◌, ◌≢◌, ◌↔◌, ◌⊎◌, inl, inr, refl, Bool, true, false, not, ◌||◌, List, [], ◌∷◌, any, All,
  ltb, ◌==◌, arith,
}
use doggy_dns.Common.Text.{Text, text, text_eq, text_eq_iff, is_empty, starts_with}
use doggy_dns.Common.Results.{◌>>◌, ensure}
use doggy_dns.Config.Schema.{RemoteConfig, XdpConfig, ControlConfig}
use doggy_dns.Config.Validate.Checks.{
  Host, invalid, Passes, member, each_new, Distinct, ensure-Passes, when_iff, both_iff, ensure_iff,
}
use doggy_dns.Config.Validate.Fresh.{each_new-nil_iff}
use doggy_dns.Config.Validate.{
  validate_remote, validate_xdp, is_bind_addr, is_nil, control_endpoints, known_endpoint,
  validate_control,
}
use doggy_dns.Config.Validate.Server.{positive_iff}

or_iff : (a b : Bool) → ((a || b) ≡ true) ↔ ((a ≡ true) ⊎ (b ≡ true))
or_iff true b = ((λ h. inl refl), (λ h. refl))
or_iff false b = ((λ h. inr h), (λ h. elim h [ inl e ↦ cc | inr e ↦ e ]))

given_iff : (s : Text) → (not (is_empty s) ≡ true) ↔ (s ≢ [])
given_iff [] = ((λ h e. cc), (λ h. absurd (h refl)))
given_iff (c ∷ s) = ((λ h e. cc), (λ h. refl))

listed_iff : (l : List Text) → (not (is_nil l) ≡ true) ↔ (l ≢ [])
listed_iff [] = ((λ h e. cc), (λ h. absurd (h refl)))
listed_iff (x ∷ l) = ((λ h e. cc), (λ h. refl))

undotted_iff : (s : Text) → (not (any (λ c. c == b'.') s) ≡ true) ↔ All (λ c. c ≢ b'.') s
undotted_iff [] = ((λ h. tt), (λ h. refl))
undotted_iff (c ∷ s) = (
  (λ h. ((λ e. ground arith), ground (arith, undotted_iff s))),
  (λ h. ground (arith, undotted_iff s)),
)

mode_iff :
    (s : Text)
    → (text_eq s (text "auto") || text_eq s (text "manual") ≡ true)
      ↔ ((s ≡ text "auto") ⊎ (s ≡ text "manual"))
mode_iff s =
    let auto = text_eq_iff s (text "auto") in
    let manual = text_eq_iff s (text "manual") in
    (
      (λ h. elim ((or_iff (text_eq s (text "auto")) _).0 h) [
        | inl e ↦ inl (auto.0 e)
        | inr e ↦ inr (manual.0 e)
      ]),
      (λ h.
          (or_iff (text_eq s (text "auto")) _).1
            (elim h [ inl e ↦ inl (auto.1 e) | inr e ↦ inr (manual.1 e) ])),
    )

abbrev pub IsRemote : RemoteConfig → Type 0
IsRemote remote = (remote.enabled ≡ false) ⊎ ((remote.server_addr ≢ []) × (remote.data_id ≢ []))

pub validate_remote_iff :
    (remote : RemoteConfig) → Passes (validate_remote remote) ↔ IsRemote remote
unfolding validate_remote
validate_remote_iff remote = when_iff remote.enabled _ (
    both_iff _ _ (ensure_iff _ _ (given_iff remote.server_addr))
      (ensure_iff _ _ (given_iff remote.data_id)))

pub record IsXdp (xdp : XdpConfig) : Type 0 where
  pub size : 0 < xdp.cache_size
  pub negative : 0 < xdp.negative_ttl
  pub mode : (xdp.attach_mode ≡ text "auto") ⊎ (xdp.attach_mode ≡ text "manual")
  pub under_bpffs : starts_with xdp.pin_path (text "/sys/fs/bpf/") ≡ true
  pub undotted : All (λ c. c ≢ b'.') xdp.pin_path

checks-IsXdp :
    (xdp : XdpConfig)
    → Passes (
        ensure (ltb 0 xdp.cache_size) (invalid (text "xdp.cache_size"))
        >> ensure (ltb 0 xdp.negative_ttl) (invalid (text "xdp.negative_ttl"))
        >> ensure
            (text_eq xdp.attach_mode (text "auto") || text_eq xdp.attach_mode (text "manual"))
            (invalid (text "xdp.attach_mode"))
        >> ensure (starts_with xdp.pin_path (text "/sys/fs/bpf/")) (invalid (text "xdp.pin_path"))
        >> ensure (not (any (λ c. c == b'.') xdp.pin_path)) (invalid (text "xdp.pin_path")))
      ↔ IsXdp xdp
checks-IsXdp xdp =
    let parts =
      both_iff _ _
        (both_iff _ _
          (both_iff _ _
            (both_iff _ _ (ensure_iff _ _ (positive_iff xdp.cache_size))
              (ensure_iff _ _ (positive_iff xdp.negative_ttl)))
            (ensure_iff _ _ (mode_iff xdp.attach_mode)))
          (ensure-Passes (starts_with xdp.pin_path (text "/sys/fs/bpf/")) _))
        (ensure_iff _ _ (undotted_iff xdp.pin_path)) in
    (
      (λ h.
          let p = parts.0 h in
          record {
            size = p.0.0.0.0;
            negative = p.0.0.0.1;
            mode = p.0.0.1;
            under_bpffs = p.0.1;
            undotted = p.1;
          }),
      (λ h. parts.1 ((((h.size, h.negative), h.mode), h.under_bpffs), h.undotted)),
    )

pub validate_xdp_iff :
    (xdp : XdpConfig) → Passes (validate_xdp xdp) ↔ ((xdp.enabled ≡ false) ⊎ IsXdp xdp)
unfolding validate_xdp
validate_xdp_iff xdp = when_iff xdp.enabled _ (checks-IsXdp xdp)

-- The endpoints that are served: some of those that are known, each once.
pub record IsControl (host : Host) (control : ControlConfig) : Type 0 where
  pub addr : is_bind_addr host control.listen_addr ≡ true
  pub given : control.endpoints ≢ []
  pub known : All (λ e. member text_eq e control_endpoints ≡ true) control.endpoints
  pub once : Distinct control.endpoints

known_iff :
    (es : List Text)
    → All (λ e. Passes (known_endpoint e)) es
      ↔ All (λ e. member text_eq e control_endpoints ≡ true) es
known_iff [] = ((λ h. tt), (λ h. tt))
known_iff (e ∷ es) =
    let first = ensure-Passes (member text_eq e control_endpoints) _ in
    ((λ h. (first.0 h.0, (known_iff es).0 h.1)), (λ h. (first.1 h.0, (known_iff es).1 h.1)))

checks-IsControl :
    (host : Host) (control : ControlConfig)
    → Passes (
        ensure (is_bind_addr host control.listen_addr) (invalid (text "control.listen_addr"))
        >> ensure (not (is_nil control.endpoints)) (invalid (text "control.endpoints"))
        >> each_new text_eq known_endpoint
            (λ _. invalid (text "control.endpoints"))
            []
            control.endpoints)
      ↔ IsControl host control
checks-IsControl host control =
    let parts =
      both_iff _ _
        (both_iff _ _ (ensure-Passes (is_bind_addr host control.listen_addr) _)
          (ensure_iff _ _ (listed_iff control.endpoints)))
        (each_new-nil_iff text_eq text_eq_iff known_endpoint _ control.endpoints) in
    (
      (λ h.
          let p = parts.0 h in
          record {
            addr = p.0.0;
            given = p.0.1;
            known = (known_iff control.endpoints).0 p.1.0;
            once = p.1.1;
          }),
      (λ h. parts.1 ((h.addr, h.given), ((known_iff control.endpoints).1 h.known, h.once))),
    )

pub validate_control_iff :
    (host : Host) (control : ControlConfig)
    → Passes (validate_control host control) ↔ ((control.enabled ≡ false) ⊎ IsControl host control)
unfolding validate_control
validate_control_iff host control = when_iff control.enabled _ (checks-IsControl host control)
