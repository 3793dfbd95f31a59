-- ===== src/Tests/Serving.antt =====
-- A chain of a zone and a forwarder, the handler in front of it, and the counters' poller.
use mathlib.Core.Logic.{◌↔◌}
use mathlib.Core.List.{Perm}
use doggy_dns.Common.{
  ℕ, ◌+◌, ◌%◌, ◌≡◌, ◌≤◌, refl, Bool, true, false, Option, none, some, List, [], ◌∷◌, arith,
}
use doggy_dns.Common.Dns.{
  Name, RecordType, RData, Record, Lookup, skip, continue_ok, continue_err, LookupError,
  name_exists,
}
use doggy_dns.Cache.Pin.{
  cache_shape_mismatch, cache_shape_mismatch-nil_iff, PinnedCacheShape, DeclaredCacheShape,
}
use doggy_dns.Plugin.Chain.{NamedHandler, resolve, answered_by, soa_for}
use doggy_dns.Plugin.Chain.First.{soa_after, resolve-first, soa_for-kept}
use doggy_dns.Plugin.Resolver.{failed, forward_lookup, native_lookup}
use doggy_dns.Plugin.Resolver.Codes.{StandsFor, forward-classified}
use doggy_dns.Handler.Answer.{
  serialize_for_xdp, Response, udp, response_code_for_lookup_error, is_negative_cacheable,
}
use doggy_dns.Handler.Rotation.{AnswerRotation, apply}
use doggy_dns.Handler.Rotation.Turns.{get_elem?, after, rotation-takes_turns, apply-Perm}
use doggy_dns.Handler.Flow.{Handler, Request, handle_request}
use doggy_dns.Handler.Flow.Cached.{IsHandedOver, handle_request-IsHandedOver}
use doggy_dns.Kernel.Program.{XdpStats}
use doggy_dns.Stats.{Label, hit, zero_stats, stats_poller}
use doggy_dns.Stats.Totals.{counter, tally, final, stats_poller_total}

abbrev apex : Record
apex = record { owner = []; ttl = 30; rdata = RData.soa [] [] 1 3600 600 86400 30 }

abbrev skipping : NamedHandler
skipping = record {
  name = "native";
  origin = [];
  owns_zone = false;
  lookup = λ at name rtype. skip;
  apex_soa = none;
}

-- The SOA can be had only at the request 1, and every name is NODATA.
abbrev zone_lookup : ℕ → Name → RecordType → Lookup
zone_lookup at name RecordType.soa = continue_ok (apex ∷ [])
zone_lookup at name _ = continue_err name_exists

abbrev zone_handler : NamedHandler
zone_handler = record {
  name = "nacos";
  origin = [];
  owns_zone = true;
  lookup = zone_lookup;
  apex_soa = none;
}

resolve-first_example : resolve 1 [] RecordType.a (skipping ∷ zone_handler ∷ skipping ∷ []) ≡ (
  skipping ∷ (soa_for 1 zone_handler (continue_err name_exists)).0 ∷ skipping ∷ [],
  answered_by zone_handler
      (continue_err name_exists)
      (soa_for 1 zone_handler (continue_err name_exists)).1,
)
resolve-first_example =
    resolve-first 1 [] RecordType.a (skipping ∷ []) zone_handler (skipping ∷ []) (refl, tt) refl

soa_fetched : (soa_for 1 zone_handler (continue_err name_exists)).1 ≡ some apex
unfolding soa_for
soa_fetched = refl

-- A positive answer and a negative one between the two.
abbrev between : List (ℕ × Lookup)
between = (2, continue_ok (apex ∷ [])) ∷ (3, continue_err name_exists) ∷ []

soa_for-kept_example :
    ((true ≡ true) × (true ≡ true))
    × (true ≡ true
        → (soa_for 4
            (soa_after (soa_for 1 zone_handler (continue_err name_exists)).0 between)
            (continue_err name_exists)).1
          ≡ some apex)
soa_for-kept_example =
    soa_for-kept 1 4 zone_handler (continue_err name_exists) (continue_err name_exists) between apex
      soa_fetched

forward-classified_example :
    ((e : LookupError) × ((forward_lookup
            (failed (record { is_nx_domain = false; is_no_records_found = true; dns = none }))
          ≡ continue_err e)
        × StandsFor
            (record { is_nx_domain = false; is_no_records_found = true; dns = none })
            (response_code_for_lookup_error e)))
    × (native_lookup
          (failed (record { is_nx_domain = false; is_no_records_found = true; dns = none }))
        ≡ skip)
forward-classified_example =
    forward-classified (record { is_nx_domain = false; is_no_records_found = true; dns = none })

abbrev three : List ℕ
three = 10 ∷ 11 ∷ 12 ∷ []

abbrev rotating : AnswerRotation
rotating = record { enabled = true; cursor = 4 }

rotation-takes_turns_example :
    get_elem? (apply (after 2 rotating three) three).1 0 ≡ get_elem? three ((4 + 2) % 3)
rotation-takes_turns_example =
    rotation-takes_turns 2 rotating three refl (omega arith) (omega arith)

apply-Perm_example : Perm (apply rotating three).1 three
apply-Perm_example = apply-Perm rotating three

abbrev encoded : List ℕ
encoded = 0 ∷ 0 ∷ 129 ∷ 128 ∷ 0 ∷ 1 ∷ []

abbrev emit : ℕ → Response → Option (List ℕ)
emit limit response = some encoded

abbrev sends : Response → Bool
sends response = true

abbrev handler : Handler
handler = record {
  middlewares = [];
  chain = zone_handler ∷ [];
  xdp_enabled = true;
  rotation = rotating;
}

abbrev request : Request
request = record { info = some ([], RecordType.a); protocol = udp; edns = none }

sample_encoded :
    (handle_request emit sends 1 handler request).1.outcome.response_bytes ≡ some encoded
unfolding handle_request resolve answered_by response_code_for_lookup_error serialize_for_xdp
sample_encoded = refl

handle_request-IsHandedOver_example :
    IsHandedOver emit sends handler request (handle_request emit sends 1 handler request).1 encoded
    × (is_negative_cacheable (handle_request emit sends 1 handler request).1.outcome.response_code
        ≡ true)
handle_request-IsHandedOver_example =
    handle_request-IsHandedOver emit sends 1 handler request encoded sample_encoded

abbrev reads : List (Option XdpStats)
reads = some (record zero_stats { hit = 3 }) ∷ none ∷ some (record zero_stats { hit = 5 }) ∷ []

rises :
    (a b : ℕ)
    → a ≤ b
    → (l : Label)
    → counter l (record zero_stats { hit = a }) ≤ counter l (record zero_stats { hit = b })
rises a b h hit = h
rises a b h Label.negative_hit = omega arith
rises a b h Label.miss = omega arith
rises a b h Label.expired = omega arith
rises a b h Label.drop = omega arith

stats_poller_total_example :
    tally hit (stats_poller reads none) ≡ counter hit (final zero_stats reads none)
stats_poller_total_example = stats_poller_total hit reads none (
  rises 0 3 (omega arith),
  (rises 3 3 (omega arith), (rises 3 5 (omega arith), rises 5 5 (omega arith))),
)

abbrev pinned : PinnedCacheShape
pinned = record { is_lru_hash = true; key_size = 16; value_size = 528; max_entries = 100 }

abbrev declared : DeclaredCacheShape
declared = record { key_size = 16; value_size = 528; max_entries = 100 }

cache_shape_mismatch-nil_iff_example : (cache_shape_mismatch pinned declared ≡ []) ↔ (
    (pinned.is_lru_hash ≡ true)
    × ((pinned.key_size ≡ declared.key_size)
        × ((pinned.value_size ≡ declared.value_size)
            × (pinned.max_entries ≡ declared.max_entries))))
cache_shape_mismatch-nil_iff_example = cache_shape_mismatch-nil_iff pinned declared
