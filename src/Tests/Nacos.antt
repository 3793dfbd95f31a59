-- ===== src/Tests/Nacos.antt =====
-- A zone `z` with the group `g` and the namespace `n`, and one service `s`.
use mathlib.Core.Logic.{◌↔◌}
use doggy_dns.Common.{
  ℕ, String, ◌≡◌, ◌≢◌, ◌⊎◌, refl, Bool, true, false, Option, none, some, List, [], ◌∷◌, arith,
  length, ◌==◌, leb, if◌then◌else◌,
}
use doggy_dns.Common.Dns.{Name, RecordType, IpAddr, v4, RData, Record, skip}
use doggy_dns.Nacos.Backoff.{is_open}
use doggy_dns.Nacos.Backoff.History.{failed_at, answered, after, window, any_answer, is_open-window}
use doggy_dns.Nacos.Watcher.{
  ServiceInstance, CatalogAnswer, instances, unknown, replied, timed_out, Environment, new_watcher,
  instances_of,
}
use doggy_dns.Nacos.Watcher.Outage.{IsOut, outage-ne-unknown}
use doggy_dns.Nacos.Watcher.Ledger.{Armed, instances_of-Armed}
use doggy_dns.Nacos.Mapping.{
  Text, service_name_from_name, stitch_labels, label_text, push_labels, label_matches,
  eq_ignore_ascii_case,
}
use doggy_dns.Nacos.Mapping.Spelling.{service_labels, service_name-one_spelling}
use doggy_dns.Nacos.Authority.{Authority, lookup}
use doggy_dns.Nacos.Authority as Authority
use doggy_dns.Nacos.Authority.Negative.{IsSaid, lookup-IsSaid, lookup-skip_iff}
use doggy_dns.Nacos.Authority.Chained.{nacos_handler, soa_of, in_zone-stops}
use doggy_dns.Plugin.Chain.{resolve, is_err}

abbrev parse_ip : String → Option IpAddr
parse_ip ip = some (v4 167772161)

abbrev every_service : String → Bool
every_service service = true

abbrev instance_up : ServiceInstance
instance_up = record { ip = "10.0.0.1"; port = 8080; healthy = true; enabled = true }

-- The server is out of reach and the cache file holds one instance.
abbrev outage : Environment
outage = record {
  now = 100;
  later = 101;
  server = timed_out;
  cache_read = replied (instance_up ∷ []);
  client_read = replied (instance_up ∷ []);
  subscribes = true;
}

is_open-window_example :
    (is_open (after (failed_at 12 ∷ failed_at 11 ∷ failed_at 10 ∷ answered ∷ [])) 20
      ≡ window (failed_at 12 ∷ failed_at 11 ∷ failed_at 10 ∷ answered ∷ []) 20)
    × ((after (failed_at 12 ∷ failed_at 11 ∷ failed_at 10 ∷ answered ∷ [])).confirmed
        ≡ any_answer (failed_at 12 ∷ failed_at 11 ∷ failed_at 10 ∷ answered ∷ []))
is_open-window_example =
    is_open-window (failed_at 12 ∷ failed_at 11 ∷ failed_at 10 ∷ answered ∷ []) 20 (omega arith)

outage-IsOut : IsOut outage.server
outage-IsOut list e = cc

outage-ne-unknown_example : (instances_of parse_ip every_service outage "s" new_watcher).1 ≢ unknown
outage-ne-unknown_example =
    outage-ne-unknown parse_ip every_service outage "s" new_watcher refl refl outage-IsOut

instances_of-Armed_example :
    ((instances_of parse_ip every_service outage "s" new_watcher).0.subscribed ≡ [])
    ⊎ ((every_service "s" ≡ true)
        × Armed outage "s" []
            (instances_of parse_ip every_service outage "s" new_watcher).0.subscribed)
instances_of-Armed_example = instances_of-Armed parse_ip every_service outage "s" new_watcher

abbrev any_bytes : List ℕ → Bool
any_bytes bytes = true

abbrev zone : Name
zone = (122 ∷ []) ∷ []

-- `s.g.n.z`, and the same with `G` for `g`.
abbrev service_name : Name
service_name = (115 ∷ []) ∷ (103 ∷ []) ∷ (110 ∷ []) ∷ zone

abbrev shouted_name : Name
shouted_name = (115 ∷ []) ∷ (71 ∷ []) ∷ (110 ∷ []) ∷ zone

spelt : service_name_from_name any_bytes service_name zone (103 ∷ []) (110 ∷ []) ≡ some (115 ∷ [])
unfolding service_name_from_name stitch_labels label_text push_labels label_matches
    eq_ignore_ascii_case
spelt = refl

shouted : service_name_from_name any_bytes shouted_name zone (103 ∷ []) (110 ∷ []) ≡ some (115 ∷ [])
unfolding service_name_from_name stitch_labels label_text push_labels label_matches
    eq_ignore_ascii_case
shouted = refl

service_name-one_spelling_example :
    service_labels any_bytes service_name zone ≡ service_labels any_bytes shouted_name zone
service_name-one_spelling_example =
    service_name-one_spelling any_bytes service_name shouted_name zone (103 ∷ []) (110 ∷ [])
      (115 ∷ []) spelt shouted

-- A test of membership by the number of labels, which serves the names used here.
abbrev longer : Name → Name → Bool
longer origin name = leb (length origin) (length name)

abbrev catalog_up : Text → CatalogAnswer
catalog_up service = instances (record { ip = v4 167772161; port = 8080; healthy = true } ∷ [])

-- `z.` is the zone, and any other text here its mailbox.
abbrev read_name : Text → Option Name
read_name name = if length name == 2 then some zone else some ((104 ∷ []) ∷ zone)

-- The authority of the zone that is written `z..`.
abbrev authority : Authority
authority =
    Authority.new read_name (λ name. 122 ∷ 46 ∷ []) (λ name. name) (122 ∷ 46 ∷ 46 ∷ []) (103 ∷ [])
      (110 ∷ []) 30

spelt_here :
    service_name_from_name any_bytes service_name authority.origin authority.group
      authority.namespace
    ≡ some (115 ∷ [])
unfolding Authority.new Authority.trim_end_dots service_name_from_name stitch_labels label_text
    push_labels label_matches eq_ignore_ascii_case
spelt_here = refl

inside_here : longer authority.origin service_name ≡ true
unfolding Authority.new Authority.trim_end_dots
inside_here = refl

below_here : (length service_name == length authority.origin) ≡ false
unfolding Authority.new Authority.trim_end_dots
below_here = refl

lookup-IsSaid_example :
    IsSaid authority service_name RecordType.a
      (catalog_up (115 ∷ []))
      (lookup any_bytes longer catalog_up authority service_name RecordType.a)
lookup-IsSaid_example =
    lookup-IsSaid any_bytes longer catalog_up authority service_name RecordType.a (115 ∷ [])
      inside_here below_here spelt_here

lookup-skip_iff_example :
    (lookup any_bytes longer catalog_up authority [] RecordType.a ≡ skip)
    ↔ (longer authority.origin [] ≡ false)
lookup-skip_iff_example = lookup-skip_iff any_bytes longer catalog_up authority [] RecordType.a

-- The SOA that the handler keeps after its first negative answer.
abbrev apex : Record
apex = record { owner = zone; ttl = 30; rdata = RData.soa zone zone 1 3600 600 86400 30 }

-- The zone's apex is in the zone, by that test.
apex_here : longer authority.origin authority.origin ≡ true
unfolding Authority.new Authority.trim_end_dots
apex_here = refl

-- A name of the zone that spells no service.
abbrev no_service : Name
no_service = (115 ∷ []) ∷ zone

no_service_here : longer authority.origin no_service ≡ true
unfolding Authority.new Authority.trim_end_dots
no_service_here = refl

in_zone-stops_example :
    (let l = lookup any_bytes longer catalog_up authority no_service RecordType.a in
      resolve 1 no_service RecordType.a
        (nacos_handler any_bytes longer (λ at. catalog_up) "nacos" (some apex) authority ∷ [])
      ≡ (
        nacos_handler any_bytes longer
              (λ at. catalog_up)
              "nacos"
              (if is_err l then some (soa_of (some apex) authority) else some apex)
              authority
            ∷ [],
        record {
          outcome = l;
          handler_name = some "nacos";
          authoritative = true;
          soa = if is_err l then some (soa_of (some apex) authority) else none;
        },
      ))
in_zone-stops_example =
    in_zone-stops any_bytes longer (λ at. catalog_up) 1 no_service RecordType.a "nacos" (some apex)
      authority [] [] tt no_service_here apex_here
