-- ===== src/Nacos/Watcher/Ledger.antt =====
-- Which names the watcher has subscribed: `instances` of crates/doggy-dns-nacos/src/watcher.rs.
use text.Mathlib.TextEquality.{eq_iff}
use doggy_dns.Common.{
  String, ◌≡◌, ◌≢◌, ◌⊎◌, refl, ap, sym, ◌∙◌, Bool, true, false, Option, none, some, List, ◌∷◌,
  Bool-cases, inl, inr,
}
use doggy_dns.Common.Dns.{IpAddr}
use doggy_dns.Nacos.Backoff.{
  QueryEntry, client_cache, cache_first, server_first, cache_only, entry_of, is_open,
  record_success,
}
use doggy_dns.Nacos.Watcher.{
  CatalogAnswer, instances, unknown, unavailable, Environment, Watcher, Reply-cases, contains,
  answer_from_server, answer_from_cache, or_server, or_unavailable, or_cache, read_by, instances_of,
  armed, cache_hit_of, read_client_cache, subscribe_name, record_remote_failure,
}

-- The ledger after a query: as it was, or with the queried name added to it, which it did not
-- hold and which the client has just subscribed.
pub Armed : Environment → String → List String → List String → Type 0
Armed env service before after =
    (after ≡ before)
    ⊎ ((after ≡ (service ∷ before)) × ((contains before service ≡ false) × (env.subscribes ≡ true)))

subscribe_name-Armed :
    (env : Environment) (service : String) (w : Watcher)
    → Armed env service w.subscribed (subscribe_name env service w).subscribed
unfolding subscribe_name Armed
subscribe_name-Armed env service w = elim (Bool-cases (contains w.subscribed service)) [
  | inl e ↦ rw e (inl refl)
  | inr e ↦ elim (Bool-cases env.subscribes) [
    | inl s ↦ rw (e, s) (inr (refl, (refl, refl)))
    | inr s ↦ rw (e, s) (inl refl)
  ]
]

contains-here :
    (service : String) (names : List String) → contains (service ∷ names) service ≢ false
contains-here service names h = let e = (eq_iff service service).1 refl in cc

Armed-trans :
    (env : Environment) (service : String) (before mid after : List String)
    → Armed env service before mid
    → Armed env service mid after
    → Armed env service before after
unfolding Armed
Armed-trans env service before mid after (inl e) (inl e2) = inl (e2 ∙ e)
Armed-trans env service before mid after (inl e) (inr (a, (c, s))) =
    inr (a ∙ ap (λ l. service ∷ l) e, (sym (ap (λ l. contains l service) e) ∙ c, s))
Armed-trans env service before mid after (inr h) (inl e2) = inr (e2 ∙ h.0, h.1)
Armed-trans env service before mid after (inr (e, h)) (inr (a, (c, s))) = absurd (
    let x : contains (service ∷ before) service ≡ false =
      sym (ap (λ l. contains l service) e) ∙ c in
    contains-here service before x)

module _ (parse_ip : String → Option IpAddr) where
  armed-Armed :
      (env : Environment) (service : String) (w : Watcher) (o : Option CatalogAnswer)
      → Armed env service w.subscribed (armed parse_ip env service w o).0.subscribed
  unfolding armed Armed
  armed-Armed env service w none = inl refl
  armed-Armed env service w (some answer) = subscribe_name-Armed env service w

  cache-Armed :
      (env : Environment) (service : String) (w : Watcher)
      → Armed env service w.subscribed (answer_from_cache parse_ip env service w).0.subscribed
  unfolding answer_from_cache subscribe_name Armed
  cache-Armed env service w = elim (Reply-cases env.cache_read) [
    | inl (list, e) ↦ rw e (armed-Armed env service w (cache_hit_of parse_ip list))
    | inr (inl e) ↦ rw e (inl refl)
    | inr (inr e) ↦ rw e (inl refl)
  ]

  server-Armed :
      (env : Environment) (service : String) (w : Watcher)
      → Armed env service w.subscribed (answer_from_server parse_ip env service w).0.subscribed
  unfolding answer_from_server subscribe_name Armed record_remote_failure
  server-Armed env service w = elim (Reply-cases env.server) [
    | inl (list, e) ↦
        rw e (subscribe_name-Armed env service (record w { backoff = record_success w.backoff }))
    | inr (inl e) ↦ rw e (inl refl)
    | inr (inr e) ↦ rw e (inl refl)
  ]

  client-Armed :
      (env : Environment) (service : String) (w : Watcher)
      → Armed env service w.subscribed (read_client_cache parse_ip env service w).0.subscribed
  unfolding read_client_cache Armed record_remote_failure
  client-Armed env service w = elim (Reply-cases env.client_read) [
    | inl (list, e) ↦ rw e (inl refl)
    | inr (inl e) ↦ rw e (inl refl)
    | inr (inr e) ↦ rw e (inl refl)
  ]

  or_server-Armed :
      (env : Environment) (service : String) (r : Watcher × Option CatalogAnswer)
      → (before : List String) → Armed env service before r.0.subscribed
      → Armed env service before (or_server parse_ip env service r).0.subscribed
  unfolding or_server
  or_server-Armed env service (w, none) before h =
      Armed-trans env service before w.subscribed _ h (server-Armed env service w)
  or_server-Armed env service (w, some answer) before h = h

  or_unavailable-ledger :
      (r : Watcher × Option CatalogAnswer)
      → (or_unavailable parse_ip r).0.subscribed ≡ r.0.subscribed
  unfolding or_unavailable
  or_unavailable-ledger (w, none) = refl
  or_unavailable-ledger (w, some answer) = refl

  or_unavailable-Armed :
      (env : Environment) (service : String) (w : Watcher)
      → Armed env service w.subscribed
          (or_unavailable parse_ip (answer_from_cache parse_ip env service w)).0.subscribed
  or_unavailable-Armed env service w =
      rw (or_unavailable-ledger (answer_from_cache parse_ip env service w))
        (cache-Armed env service w)

  or_cache-Armed :
      (env : Environment) (service : String) (r : Watcher × CatalogAnswer)
      → (before : List String) → Armed env service before r.0.subscribed
      → Armed env service before (or_cache parse_ip env service r).0.subscribed
  unfolding or_cache
  or_cache-Armed env service (w, instances cs) before h = h
  or_cache-Armed env service (w, unknown) before h = h
  or_cache-Armed env service (w, unavailable) before h =
      Armed-trans env service before w.subscribed _ h (or_unavailable-Armed env service w)

  read_by-Armed :
      (entry : QueryEntry) (env : Environment) (service : String) (w : Watcher)
      → Armed env service w.subscribed (read_by parse_ip entry env service w).0.subscribed
  unfolding read_by
  read_by-Armed client_cache env service w = client-Armed env service w
  read_by-Armed cache_first env service w =
      or_server-Armed env service (answer_from_cache parse_ip env service w) w.subscribed
        (cache-Armed env service w)
  read_by-Armed server_first env service w =
      or_cache-Armed env service (answer_from_server parse_ip env service w) w.subscribed
        (server-Armed env service w)
  read_by-Armed cache_only env service w = or_unavailable-Armed env service w

  -- A query leaves the ledger as it was or adds the queried name to it, and then only a name that
  -- the ledger did not hold, that the pattern selects and that the client has subscribed.
  pub instances_of-Armed :
      (is_selected : String → Bool) (env : Environment) (service : String) (w : Watcher)
      → ((instances_of parse_ip is_selected env service w).0.subscribed ≡ w.subscribed)
        ⊎ ((is_selected service ≡ true)
            × Armed env service w.subscribed
                (instances_of parse_ip is_selected env service w).0.subscribed)
  unfolding instances_of
  instances_of-Armed is_selected env service w = elim (Bool-cases (is_selected service)) [
    | inl s ↦ rw s (
        inr (
          refl,
          read_by-Armed
              (entry_of (contains w.subscribed service) w.backoff.confirmed
                (is_open w.backoff env.now))
              env service w,
        ))
    | inr s ↦ rw s (inl refl)
  ]
