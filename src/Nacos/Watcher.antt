-- ===== src/Nacos/Watcher.antt =====
-- `NacosServiceWatcher`: crates/doggy-dns-nacos/src/watcher.rs. What the Nacos client replies to the
-- calls of one query is an environment; `parse_ip` is `IpAddr::from_str`, and `is_selected` the
-- match of the compiled service pattern. One query makes each call at most once. Log lines are left
-- out, and queries are taken one after another.
pub mod Usable
pub mod Outage
pub mod Ledger
use text.Mathlib.Text.{◌==◌ as str_eq}
use doggy_dns.Common.{
  ◌≡◌, ◌⊎◌, refl, inl, inr, ℕ, String, Bool, true, false, ◌&&◌, ◌||◌, Option, none, some, List, [],
  ◌∷◌, if◌then◌else◌, any, length,
}
use doggy_dns.Common.Dns.{IpAddr}
use doggy_dns.Nacos.Backoff.{
  FailureBackoff, record_failure, record_success, is_open, QueryEntry, client_cache, cache_first,
  server_first, cache_only, entry_of, new_backoff,
}

pub record ServiceInstance : Type 0 where
  pub ip : String
  pub port : ℕ
  pub healthy : Bool
  pub enabled : Bool

pub record CachedInstance : Type 0 where
  pub ip : IpAddr
  pub port : ℕ
  pub healthy : Bool

pub data CatalogAnswer : Type 0 where
  instances : List CachedInstance → CatalogAnswer
  unknown : CatalogAnswer
  unavailable : CatalogAnswer

-- A call under `tokio::time::timeout`.
pub data Reply : Type 0 where
  replied : List ServiceInstance → Reply
  call_failed : Reply
  timed_out : Reply

pub Reply-cases :
    (r : Reply)
    → ((list : List ServiceInstance) × (r ≡ replied list)) ⊎ ((r ≡ call_failed) ⊎ (r ≡ timed_out))
Reply-cases (replied list) = inl (list, refl)
Reply-cases call_failed = inr (inl refl)
Reply-cases timed_out = inr (inr refl)

-- The replies to the calls of one query, and the clock at its start and after a failed call.
pub record Environment : Type 0 where
  pub now : ℕ
  pub later : ℕ
  pub server : Reply
  pub cache_read : Reply
  pub client_read : Reply
  pub subscribes : Bool

pub record Watcher : Type 0 where
  pub subscribed : List String
  pub backoff : FailureBackoff

abbrev pub new_watcher : Watcher
new_watcher = record { subscribed = []; backoff = new_backoff }

unfoldable pub subscribed_count : Watcher → ℕ
subscribed_count w = length w.subscribed

abbrev pub contains : List String → String → Bool
contains names service = any (λ n. str_eq n service) names

unfoldable pub subscribe_name : Environment → String → Watcher → Watcher
subscribe_name env service w =
    if contains w.subscribed service
    then w
    else if env.subscribes
    then record w { subscribed = service ∷ w.subscribed }
    else w

unfoldable pub record_remote_failure : Environment → Watcher → Watcher
record_remote_failure env w = record w { backoff = (record_failure w.backoff env.later).0 }

module _ (parse_ip : String → Option IpAddr) where
  unfoldable pub from_service_instance : ServiceInstance → Option CachedInstance
  from_service_instance i = elim (parse_ip i.ip) [
    | none ↦ none
    | some ip ↦ some (record { ip = ip; port = i.port; healthy = i.healthy })
  ]

  unfoldable pub keep_usable : ServiceInstance → List CachedInstance → List CachedInstance
  unfolding from_service_instance
  keep_usable i rest =
      if i.healthy && i.enabled
      then elim (from_service_instance i) [ none ↦ rest | some c ↦ c ∷ rest ]
      else rest

  unfoldable pub usable_instances : List ServiceInstance → List CachedInstance
  unfolding keep_usable
  usable_instances [] = []
  usable_instances (i ∷ rest) = keep_usable i (usable_instances rest)

  unfoldable pub answer_from : List CachedInstance → CatalogAnswer
  answer_from [] = unknown
  answer_from (c ∷ cs) = instances (c ∷ cs)

  -- `answer_of`: no usable instance is an unknown name.
  unfoldable pub answer_of : List ServiceInstance → CatalogAnswer
  unfolding answer_from usable_instances
  answer_of list = answer_from (usable_instances list)

  unfoldable pub hit_from : List CachedInstance → Option CatalogAnswer
  hit_from [] = none
  hit_from (c ∷ cs) = some (instances (c ∷ cs))

  -- `cache_hit_of`: no usable instance is no answer.
  unfoldable pub cache_hit_of : List ServiceInstance → Option CatalogAnswer
  unfolding hit_from usable_instances
  cache_hit_of list = hit_from (usable_instances list)

  unfoldable pub answer_from_server : Environment → String → Watcher → Watcher × CatalogAnswer
  answer_from_server env service w = elim env.server [
    | replied confirmed ↦
        let w' = subscribe_name env service (record w { backoff = record_success w.backoff }) in
        (w', answer_of confirmed)
    | call_failed ↦ (record_remote_failure env w, unavailable)
    | timed_out ↦ (record_remote_failure env w, unavailable)
  ]

  -- A hit arms the subscription.
  armed : Environment → String → Watcher → Option CatalogAnswer → Watcher × Option CatalogAnswer
  armed env service w none = (w, none)
  armed env service w (some answer) = (subscribe_name env service w, some answer)

  unfoldable pub answer_from_cache : Environment → String → Watcher → Watcher × Option CatalogAnswer
  unfolding armed
  answer_from_cache env service w = elim env.cache_read [
    | replied list ↦ armed env service w (cache_hit_of list)
    | call_failed ↦ (w, none)
    | timed_out ↦ (w, none)
  ]

  unfoldable pub read_client_cache : Environment → String → Watcher → Watcher × CatalogAnswer
  read_client_cache env service w = elim env.client_read [
    | replied list ↦ (w, answer_of list)
    | call_failed ↦ (w, unavailable)
    | timed_out ↦ (record_remote_failure env w, unavailable)
  ]

  or_server : Environment → String → Watcher × Option CatalogAnswer → Watcher × CatalogAnswer
  or_server env service (w, some answer) = (w, answer)
  or_server env service (w, none) = answer_from_server env service w

  or_unavailable : Watcher × Option CatalogAnswer → Watcher × CatalogAnswer
  or_unavailable (w, some answer) = (w, answer)
  or_unavailable (w, none) = (w, unavailable)

  or_cache : Environment → String → Watcher × CatalogAnswer → Watcher × CatalogAnswer
  or_cache env service (w, instances cs) = (w, instances cs)
  or_cache env service (w, unknown) = (w, unknown)
  or_cache env service (w, unavailable) = or_unavailable (answer_from_cache env service w)

  unfoldable pub read_by : QueryEntry → Environment → String → Watcher → Watcher × CatalogAnswer
  unfolding or_server or_unavailable or_cache
  read_by client_cache env service w = read_client_cache env service w
  read_by cache_first env service w = or_server env service (answer_from_cache env service w)
  read_by server_first env service w = or_cache env service (answer_from_server env service w)
  read_by cache_only env service w = or_unavailable (answer_from_cache env service w)

  unfoldable pub instances_of :
      (is_selected : String → Bool) → Environment → String → Watcher → Watcher × CatalogAnswer
  instances_of is_selected env service w =
      let entry =
        entry_of (contains w.subscribed service) w.backoff.confirmed (is_open w.backoff env.now) in
      if is_selected service then read_by entry env service w else (w, unknown)
