-- ===== src/Nacos/Watcher/Usable.antt =====
-- The instances that a query is answered with.
use doggy_dns.Common.{String, ◌≡◌, ◌≢◌, ◌⊎◌, true, ◌&&◌, Option, some, List, [], ◌∷◌, All}
use doggy_dns.Common.Dns.{IpAddr}
use doggy_dns.Nacos.Watcher.{
  CachedInstance, CatalogAnswer, instances, unknown, unavailable, replied, Environment, Watcher,
  ServiceInstance, usable_instances, from_service_instance,
}

module _ (parse_ip : String → Option IpAddr) where
  -- The instance that the client holds stands in the list: healthy, enabled, its address read.
  pub ComesFrom : List ServiceInstance → CachedInstance → Type 0
  ComesFrom [] c = ⊥
  ComesFrom (i ∷ rest) c =
      (((i.healthy && i.enabled) ≡ true) × (from_service_instance parse_ip i ≡ some c))
      ⊎ ComesFrom rest c

  -- The list is the reply to one of the calls of the query.
  abbrev pub IsHeard : Environment → List ServiceInstance → Type 0
  IsHeard env list =
      (env.server ≡ replied list)
      ⊎ ((env.cache_read ≡ replied list) ⊎ (env.client_read ≡ replied list))

  -- What the replies of the query say for the answer: instances are some of the usable ones of a
  -- reply and at least one, and a name is unknown if a reply holds no usable instance.
  pub IsAttested : Environment → CatalogAnswer → Type 0
  IsAttested env (instances cs) =
      (list : List ServiceInstance) × (IsHeard env list × ((cs ≢ []) × All (ComesFrom list) cs))
  IsAttested env unknown =
      (list : List ServiceInstance) × (IsHeard env list × (usable_instances parse_ip list ≡ []))
  IsAttested env unavailable = Unit

  -- `IsAttested` of an answer that may be missing.
  abbrev AttestedIf : Environment → Option CatalogAnswer → Type 0
  AttestedIf env o = (answer : CatalogAnswer) → o ≡ some answer → IsAttested env answer
