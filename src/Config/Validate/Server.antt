-- ===== src/Config/Validate/Server.antt =====
-- Which sections for the server `validate_config` of crates/doggy-dns-basic/src/validate.rs accepts.
use doggy_dns.Common.{
  ℕ, ◌≤◌, ◌<◌, ◌≡◌, ◌≢◌, ◌↔◌, ◌⊎◌, inl, inr, refl, true, false, Option, none, some, List, [], ◌∷◌,
  All, length, ltb, leb, ◌==◌, ==_iff, if◌then◌else◌, arith,
}
use doggy_dns.Common.Text.{Text, text}
use doggy_dns.Common.Results.{ensure}
use doggy_dns.Config.Schema.{CertConfig, ServerConfig}
use doggy_dns.Config.Validate.Checks.{
  Host, invalid, Passes, pass, Distinct, ensure-Passes, then-Passes, when_iff, both_iff, ensure_iff,
}
use doggy_dns.Config.Validate.Fresh.{each_new-nil_iff}
use doggy_dns.Config.Validate.{validate_affinity, validate_cert, validate_server}

All-pass : {A : Type 0} (xs : List A) → All (λ _. Passes pass) xs
All-pass [] = tt
All-pass (x ∷ xs) = (refl, All-pass xs)

pub positive_iff : (n : ℕ) → (ltb 0 n ≡ true) ↔ (0 < n)
positive_iff n = ((λ h. ground arith), (λ h. ground arith))

-- One core for each worker, and no core for two.
abbrev pub IsAffinity : ℕ → Option (List ℕ) → Type 0
IsAffinity workers none = Unit
IsAffinity workers (some cores) = (cores ≢ []) × (length cores ≡ workers) × Distinct cores

validate_affinity_iff :
    (workers : ℕ) (affinity : Option (List ℕ))
    → Passes (validate_affinity workers affinity) ↔ IsAffinity workers affinity
validate_affinity_iff workers none = ((λ h. tt), (λ h. refl))
validate_affinity_iff workers (some []) = ((λ h. cc), (λ h. absurd (h.0 refl)))
validate_affinity_iff workers (some (core ∷ cores)) =
    let e = invalid (text "server.cpu_affinity") in
    let loop = each_new-nil_iff ◌==◌ ==_iff (λ _. pass) (λ _. e) (core ∷ cores) in
    let size = ensure-Passes (length (core ∷ cores) == workers) e in
    let same = ==_iff (length (core ∷ cores)) workers in
    (
      (λ h. let b = (then-Passes _ _).0 h in ((λ p. cc), same.0 (size.0 b.0), (loop.0 b.1).1)),
      (λ h. (then-Passes _ _).1 (size.1 (same.1 h.1), loop.1 (All-pass (core ∷ cores), h.2))),
    )

-- The files of a certificate that is to be served.
abbrev pub HasFiles : Host → Option CertConfig → Type 0
HasFiles host none = Unit
HasFiles host (some config) =
    (config.enabled ≡ false)
    ⊎ ((host.path_exists config.cert_path ≡ true) × (host.path_exists config.key_path ≡ true))

validate_cert_iff :
    (host : Host) (cert key : Text) (config : Option CertConfig)
    → Passes (validate_cert host cert key config) ↔ HasFiles host config
validate_cert_iff host cert key none = ((λ h. tt), (λ h. refl))
validate_cert_iff host cert key (some config) = when_iff config.enabled _ (
    both_iff _ _ (ensure-Passes (host.path_exists config.cert_path) (invalid cert))
      (ensure-Passes (host.path_exists config.key_path) (invalid key)))

pub record IsServer (host : Host) (server : ServerConfig) : Type 0 where
  pub workers : 0 < server.worker_threads
  pub listeners : 1 ≤ server.reuseport_listen_num
  pub many_listeners : (server.reuseport_listen_num ≤ 1) ⊎ (host.is_linux ≡ true)
  pub affinity : IsAffinity server.worker_threads server.cpu_affinity
  pub tls : HasFiles host server.tls
  pub https : HasFiles host server.https

at_least_one_iff : (n : ℕ) → (leb 1 n ≡ true) ↔ (1 ≤ n)
at_least_one_iff n = ((λ h. ground arith), (λ h. ground arith))

listeners_iff :
    (host : Host) (n : ℕ)
    → Passes (
        if ltb 1 n
        then ensure host.is_linux (invalid (text "server.reuseport_listen_num"))
        else pass)
      ↔ ((n ≤ 1) ⊎ (host.is_linux ≡ true))
listeners_iff host n =
    let guarded = when_iff (ltb 1 n) _ (ensure-Passes host.is_linux _) in
    (
      (λ h. elim (guarded.0 h) [ inl e ↦ inl (ground arith) | inr e ↦ inr e ]),
      (λ h. guarded.1 (elim h [ inl e ↦ inl (ground arith) | inr e ↦ inr e ])),
    )

pub validate_server_iff :
    (host : Host) (server : ServerConfig)
    → Passes (validate_server host server) ↔ IsServer host server
unfolding validate_server
validate_server_iff host server =
    let parts =
      both_iff _ _
        (both_iff _ _
          (both_iff _ _
            (both_iff _ _
              (both_iff _ _ (ensure_iff _ _ (positive_iff server.worker_threads))
                (ensure_iff _ _ (at_least_one_iff server.reuseport_listen_num)))
              (listeners_iff host server.reuseport_listen_num))
            (validate_affinity_iff server.worker_threads server.cpu_affinity))
          (validate_cert_iff host _ _ server.tls))
        (validate_cert_iff host _ _ server.https) in
    (
      (λ h.
          let p = parts.0 h in
          record {
            workers = p.0.0.0.0.0;
            listeners = p.0.0.0.0.1;
            many_listeners = p.0.0.0.1;
            affinity = p.0.0.1;
            tls = p.0.1;
            https = p.1;
          }),
      (λ h. parts.1 (((((h.workers, h.listeners), h.many_listeners), h.affinity), h.tls), h.https)),
    )
