-- ===== src/Nacos/Authority.antt =====
-- `NacosAuthority`: crates/doggy-dns-nacos/src/authority.rs. `zone_of` is the test of hickory's
-- `LowerName`, and `catalog` what the ServiceCatalog holds at the moment of the query.
-- `from_ascii`, `print` and `lower` are hickory's `Name::from_ascii`, a name's `Display` and
-- `LowerName::from`.
pub mod Negative
pub mod Chained
use doggy_dns.Common.{
  ℕ, Bool, true, false, ◌&&◌, ◌||◌, Option, none, some, List, [], ◌∷◌, ◌++◌, ◌==◌, if◌then◌else◌,
  length,
}
use doggy_dns.Common.Dns.{
  Name, RecordType, is_soa, Record, RData, ResponseCode, Lookup, continue_ok, continue_err, skip,
  LookupError, name_exists, response_code,
}
use doggy_dns.Nacos.Watcher.{CachedInstance, CatalogAnswer, instances, unknown, unavailable}
use doggy_dns.Nacos.Mapping.{Text, dot, service_name_from_name, to_dns_records}

pub record Authority : Type 0 where
  pub ttl : ℕ
  pub origin : Name
  pub group : Text
  pub namespace : Text
  pub apex_soa : Record

-- "hostmaster."
abbrev pub hostmaster : Text
hostmaster = 104 ∷ 111 ∷ 115 ∷ 116 ∷ 109 ∷ 97 ∷ 115 ∷ 116 ∷ 101 ∷ 114 ∷ dot ∷ []

-- A byte before a text that is trimmed: a dot with nothing behind it goes.
abbrev pub trim_onto : ℕ → Text → Text
trim_onto byte [] = if byte == dot then [] else byte ∷ []
trim_onto byte (next ∷ rest) = byte ∷ next ∷ rest

-- `trim_end_matches('.')`.
unfoldable pub trim_end_dots : Text → Text
trim_end_dots [] = []
trim_end_dots (byte ∷ rest) = trim_onto byte (trim_end_dots rest)

-- `unwrap_or_default` of a name: the root.
abbrev pub name_or_root : Option Name → Name
name_or_root none = []
name_or_root (some name) = name

module _ (from_ascii : Text → Option Name) (print : Name → Text) where
  unfoldable pub build_soa_record : Name → ℕ → Record
  build_soa_record zone ttl =
      let admin = name_or_root (from_ascii (hostmaster ++ print zone)) in
      record { owner = zone; ttl = ttl; rdata = RData.soa zone admin 1 3600 600 86400 ttl }

  unfoldable pub new : (lower : Name → Name) → (dns_zone group namespace : Text) → ℕ → Authority
  unfolding build_soa_record trim_end_dots
  new lower dns_zone group namespace ttl =
      let zone = name_or_root (from_ascii (trim_end_dots dns_zone ++ (dot ∷ []))) in
      record {
        ttl = ttl;
        origin = lower zone;
        group = group;
        namespace = namespace;
        apex_soa = build_soa_record zone ttl;
      }

abbrev pub is_address_type : RecordType → Bool
is_address_type RecordType.a = true
is_address_type RecordType.aaaa = true
is_address_type _ = false

unfoldable pub nxdomain : Lookup
nxdomain = continue_err (response_code ResponseCode.nx_domain)

unfoldable pub servfail : Lookup
servfail = continue_err (response_code ResponseCode.serv_fail)

unfoldable pub section : List Record → Lookup
section [] = continue_err name_exists
section (r ∷ rs) = continue_ok (r ∷ rs)

unfoldable pub answer : Authority → Name → List CachedInstance → RecordType → Lookup
unfolding section
answer z name cs rtype =
    if is_address_type rtype
    then section (to_dns_records name cs z.ttl rtype)
    else continue_err name_exists

unfoldable pub answer_known : Authority → Name → RecordType → CatalogAnswer → Lookup
unfolding nxdomain servfail
answer_known z name rtype (instances cs) = answer z name cs rtype
answer_known z name rtype unknown = nxdomain
answer_known z name rtype unavailable = servfail

module _ (is_utf8 : List ℕ → Bool) (zone_of : Name → Name → Bool)
    (catalog : Text → CatalogAnswer) where
  unfoldable pub lookup : Authority → Name → RecordType → Lookup
  unfolding nxdomain
  lookup z name rtype =
      if zone_of z.origin name
      then if length name == length z.origin
        then (if is_soa rtype then continue_ok (z.apex_soa ∷ []) else continue_err name_exists)
        else elim (service_name_from_name is_utf8 name z.origin z.group z.namespace) [
          | none ↦ nxdomain
          | some service ↦ answer_known z name rtype (catalog service)
        ]
      else skip
