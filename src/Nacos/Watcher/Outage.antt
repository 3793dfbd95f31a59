-- ===== src/Nacos/Watcher/Outage.antt =====
-- What a query answers while the registry is out of reach.
use doggy_dns.Common.{
  String, ◌≡◌, ◌≢◌, refl, ap, Bool, true, false, Option, none, some, List, [], ◌∷◌, inl, inr,
}
use doggy_dns.Common.Dns.{IpAddr}
use doggy_dns.Nacos.Backoff.{
  QueryEntry, client_cache, cache_first, server_first, cache_only, entry_of, is_open,
}
use doggy_dns.Nacos.Watcher.{
  CachedInstance, CatalogAnswer, instances, unknown, unavailable, Reply, replied, Environment,
  Watcher, ServiceInstance, Reply-cases, contains, answer_from_server, answer_from_cache, or_server,
  or_unavailable, or_cache, read_by, instances_of, armed, subscribe_name, cache_hit_of, hit_from,
  usable_instances,
}

-- The server did not reply.
abbrev pub IsOut : Reply → Type 0
IsOut r = (list : List ServiceInstance) → r ≢ replied list

module _ (parse_ip : String → Option IpAddr) where
  hit-ne-unknown : (cs : List CachedInstance) → hit_from parse_ip cs ≢ some unknown
  unfolding hit_from
  hit-ne-unknown [] e = cc
  hit-ne-unknown (c ∷ cs) e = cc

  armed-ne-unknown :
      (env : Environment) (service : String) (w : Watcher) (o : Option CatalogAnswer)
      → o ≢ some unknown
      → (armed parse_ip env service w o).1 ≢ some unknown
  unfolding armed
  armed-ne-unknown env service w none h = h
  armed-ne-unknown env service w (some answer) h = h

  cache-ne-unknown :
      (env : Environment) (service : String) (w : Watcher)
      → (answer_from_cache parse_ip env service w).1 ≢ some unknown
  unfolding answer_from_cache cache_hit_of subscribe_name
  cache-ne-unknown env service w = elim (Reply-cases env.cache_read) [
    | inl (list, e) ↦ rw e (
        armed-ne-unknown env service w (cache_hit_of parse_ip list)
          (hit-ne-unknown (usable_instances parse_ip list)))
    | inr (inl e) ↦ rw e (λ c. cc)
    | inr (inr e) ↦ rw e (λ c. cc)
  ]

  or_unavailable-ne-unknown :
      (r : Watcher × Option CatalogAnswer)
      → r.1 ≢ some unknown
      → (or_unavailable parse_ip r).1 ≢ unknown
  unfolding or_unavailable
  or_unavailable-ne-unknown (w, none) h e = cc
  or_unavailable-ne-unknown (w, some answer) h e = h (ap some e)

  server-unavailable :
      (env : Environment) (service : String) (w : Watcher)
      → IsOut env.server
      → (answer_from_server parse_ip env service w).1 ≡ unavailable
  unfolding answer_from_server
  server-unavailable env service w h = elim (Reply-cases env.server) [
    | inl (list, e) ↦ absurd (h list e)
    | inr (inl e) ↦ rw e refl
    | inr (inr e) ↦ rw e refl
  ]

  or_server-ne-unknown :
      (env : Environment) (service : String) (r : Watcher × Option CatalogAnswer)
      → IsOut env.server
      → r.1 ≢ some unknown
      → (or_server parse_ip env service r).1 ≢ unknown
  unfolding or_server
  or_server-ne-unknown env service (w, none) out h e =
      let u = server-unavailable env service w out in cc
  or_server-ne-unknown env service (w, some answer) out h e = h (ap some e)

  or_cache-ne-unknown :
      (env : Environment) (service : String) (r : Watcher × CatalogAnswer)
      → r.1 ≡ unavailable
      → (or_cache parse_ip env service r).1 ≢ unknown
  unfolding or_cache
  or_cache-ne-unknown env service (w, instances cs) h e = cc
  or_cache-ne-unknown env service (w, unknown) h e = cc
  or_cache-ne-unknown env service (w, unavailable) h e =
      or_unavailable-ne-unknown (answer_from_cache parse_ip env service w)
        (cache-ne-unknown env service w) e

  read_by-ne-unknown :
      (entry : QueryEntry) (env : Environment) (service : String) (w : Watcher)
      → entry ≢ client_cache
      → IsOut env.server
      → (read_by parse_ip entry env service w).1 ≢ unknown
  unfolding read_by
  read_by-ne-unknown client_cache env service w ne out = absurd (ne refl)
  read_by-ne-unknown cache_first env service w ne out =
      or_server-ne-unknown env service (answer_from_cache parse_ip env service w) out
        (cache-ne-unknown env service w)
  read_by-ne-unknown server_first env service w ne out =
      or_cache-ne-unknown env service (answer_from_server parse_ip env service w)
        (server-unavailable env service w out)
  read_by-ne-unknown cache_only env service w ne out =
      or_unavailable-ne-unknown (answer_from_cache parse_ip env service w)
        (cache-ne-unknown env service w)

  pub entry_of-unledgered :
      (confirmed window_open : Bool) → entry_of false confirmed window_open ≢ client_cache
  unfolding entry_of
  entry_of-unledgered true true e = cc
  entry_of-unledgered true false e = cc
  entry_of-unledgered false true e = cc
  entry_of-unledgered false false e = cc

  -- A name that the pattern selects and that the watcher has not subscribed is never answered as
  -- unknown while the server does not reply, whatever the caches hold and whatever the breaker's
  -- state is.
  pub outage-ne-unknown :
      (is_selected : String → Bool) (env : Environment) (service : String) (w : Watcher)
      → is_selected service ≡ true
      → contains w.subscribed service ≡ false
      → IsOut env.server
      → (instances_of parse_ip is_selected env service w).1 ≢ unknown
  unfolding instances_of
  outage-ne-unknown is_selected env service w selected fresh out =
      rw (selected, fresh)
        (read_by-ne-unknown (entry_of false w.backoff.confirmed (is_open w.backoff env.now)) env
          service w (entry_of-unledgered w.backoff.confirmed (is_open w.backoff env.now)) out)
