-- ===== src/Nacos/Authority/Negative.antt =====
-- What the Nacos authority answers a name of its zone, and a name outside it.
use doggy_dns.Common.{
  ℕ, ◌≡◌, ◌≢◌, ◌↔◌, ◌⊎◌, inl, inr, refl, Bool, true, false, some, List, [], ◌∷◌, ◌==◌, length, map,
  ap, ◌∙◌, arith, Bool-cases, Option-cases,
}
use doggy_dns.Common.Dns.{
  Name, RecordType, other_type, IpAddr, v4, v6, RData, Record, ResponseCode, Lookup, continue_ok,
  continue_err, skip, name_exists, response_code,
}
use doggy_dns.Nacos.Watcher.{CachedInstance, CatalogAnswer, instances, unknown, unavailable}
use doggy_dns.Nacos.Mapping.{Text, service_name_from_name, to_dns_records, record_of, keep_record}
use doggy_dns.Nacos.Authority.{
  Authority, section, answer, answer_known, lookup, nxdomain, servfail, is_address_type,
}

abbrev v4_onto : IpAddr → List ℕ → List ℕ
v4_onto (v4 ip) ips = ip ∷ ips
v4_onto (v6 ip) ips = ips

abbrev v6_onto : IpAddr → List ℕ → List ℕ
v6_onto (v4 ip) ips = ips
v6_onto (v6 ip) ips = ip ∷ ips

-- The IPv4 addresses of the instances, in order.
abbrev pub v4s : List CachedInstance → List ℕ
v4s [] = []
v4s (i ∷ cs) = v4_onto i.ip (v4s cs)

-- The IPv6 addresses of the instances, in order.
abbrev pub v6s : List CachedInstance → List ℕ
v6s [] = []
v6s (i ∷ cs) = v6_onto i.ip (v6s cs)

-- The addresses of the family that the type asks for, as record data.
abbrev pub addresses : RecordType → List CachedInstance → List RData
addresses RecordType.a cs = map RData.a (v4s cs)
addresses RecordType.aaaa cs = map RData.aaaa (v6s cs)
addresses RecordType.soa cs = []
addresses (other_type _) cs = []

abbrev pub owned : Name → (ttl : ℕ) → RData → Record
owned name ttl rdata = record { owner = name; ttl = ttl; rdata = rdata }

module _ (name : Name) (ttl : ℕ) where
  a-addresses :
      (ip : IpAddr) (ips : List ℕ)
      → keep_record (record_of name ttl RecordType.a ip) (map (owned name ttl) (map RData.a ips))
        ≡ map (owned name ttl) (map RData.a (v4_onto ip ips))
  unfolding keep_record record_of
  a-addresses (v4 ip) ips = refl
  a-addresses (v6 ip) ips = refl

  aaaa-addresses :
      (ip : IpAddr) (ips : List ℕ)
      → keep_record
          (record_of name ttl RecordType.aaaa ip)
          (map (owned name ttl) (map RData.aaaa ips))
        ≡ map (owned name ttl) (map RData.aaaa (v6_onto ip ips))
  unfolding keep_record record_of
  aaaa-addresses (v4 ip) ips = refl
  aaaa-addresses (v6 ip) ips = refl

  to_dns_records-addresses :
      (rtype : RecordType) (cs : List CachedInstance)
      → is_address_type rtype ≡ true
      → to_dns_records name cs ttl rtype ≡ map (owned name ttl) (addresses rtype cs)
  unfolding to_dns_records
  to_dns_records-addresses RecordType.a [] e = refl
  to_dns_records-addresses RecordType.a (i ∷ cs) e =
      ap (keep_record (record_of name ttl RecordType.a i.ip))
        (to_dns_records-addresses RecordType.a cs e)
      ∙ a-addresses i.ip (v4s cs)
  to_dns_records-addresses RecordType.aaaa [] e = refl
  to_dns_records-addresses RecordType.aaaa (i ∷ cs) e =
      ap (keep_record (record_of name ttl RecordType.aaaa i.ip))
        (to_dns_records-addresses RecordType.aaaa cs e)
      ∙ aaaa-addresses i.ip (v6s cs)
  to_dns_records-addresses RecordType.soa cs e = cc
  to_dns_records-addresses (other_type n) cs e = cc

-- NODATA where no instance has an address of the family that the type asks for, and else one
-- record for each such address, in the instances' order, with the queried name and the zone's TTL.
pub IsData : Authority → Name → RecordType → List CachedInstance → Lookup → Type 0
IsData z name rtype cs l =
    ((addresses rtype cs ≡ []) × (l ≡ continue_err name_exists))
    ⊎ ((addresses rtype cs ≢ []) × (l ≡ continue_ok (map (owned name z.ttl) (addresses rtype cs))))

section-IsData :
    (z : Authority) (name : Name) (rs : List RData)
    → ((rs ≡ []) × (section (map (owned name z.ttl) rs) ≡ continue_err name_exists))
      ⊎ ((rs ≢ [])
          × (section (map (owned name z.ttl) rs) ≡ continue_ok (map (owned name z.ttl) rs)))
unfolding section
section-IsData z name [] = inl (refl, refl)
section-IsData z name (r ∷ rs) = inr ((λ e. cc), refl)

not_address :
    (rtype : RecordType) (cs : List CachedInstance)
    → is_address_type rtype ≡ false
    → addresses rtype cs ≡ []
not_address RecordType.a cs e = cc
not_address RecordType.aaaa cs e = cc
not_address RecordType.soa cs e = refl
not_address (other_type n) cs e = refl

answer-IsData :
    (z : Authority) (name : Name) (cs : List CachedInstance) (rtype : RecordType)
    → IsData z name rtype cs (answer z name cs rtype)
unfolding answer IsData
answer-IsData z name cs rtype = elim (Bool-cases (is_address_type rtype)) [
  | inr e ↦ rw e (inl (not_address rtype cs e, refl))
  | inl e ↦
      rw (e, to_dns_records-addresses name z.ttl rtype cs e)
        (section-IsData z name (addresses rtype cs))
]

-- What the catalog says of the service decides the answer.
pub IsSaid : Authority → Name → RecordType → CatalogAnswer → Lookup → Type 0
IsSaid z name rtype (instances cs) l = IsData z name rtype cs l
IsSaid z name rtype unknown l = l ≡ continue_err (response_code ResponseCode.nx_domain)
IsSaid z name rtype unavailable l = l ≡ continue_err (response_code ResponseCode.serv_fail)

answer_known-IsSaid :
    (z : Authority) (name : Name) (rtype : RecordType) (c : CatalogAnswer)
    → IsSaid z name rtype c (answer_known z name rtype c)
unfolding answer_known IsSaid nxdomain servfail
answer_known-IsSaid z name rtype (instances cs) = answer-IsData z name cs rtype
answer_known-IsSaid z name rtype unknown = refl
answer_known-IsSaid z name rtype unavailable = refl

IsSaid-ne-skip :
    (z : Authority) (name : Name) (rtype : RecordType) (c : CatalogAnswer) (l : Lookup)
    → IsSaid z name rtype c l
    → l ≢ skip
unfolding IsSaid IsData
IsSaid-ne-skip z name rtype (instances cs) l (inl (none_left, e)) k = cc
IsSaid-ne-skip z name rtype (instances cs) l (inr (some_left, e)) k = cc
IsSaid-ne-skip z name rtype unknown l e k = cc
IsSaid-ne-skip z name rtype unavailable l e k = cc

module _ (is_utf8 : List ℕ → Bool) (zone_of : Name → Name → Bool)
    (catalog : Text → CatalogAnswer) where
  -- A name below the apex that spells a service of the zone's group and namespace is answered by
  -- what the catalog says of that service: SERVFAIL if it is unavailable, NXDOMAIN if it is
  -- unknown, and else one record for each address, of the family that the type asks for, of the
  -- instances that the catalog holds, in their order, with the queried name as its owner and the
  -- zone's TTL; it is NODATA just where there is no such address.
  pub lookup-IsSaid :
      (z : Authority) (name : Name) (rtype : RecordType) (service : Text)
      → zone_of z.origin name ≡ true
      → (length name == length z.origin) ≡ false
      → service_name_from_name is_utf8 name z.origin z.group z.namespace ≡ some service
      → IsSaid z name rtype (catalog service) (lookup is_utf8 zone_of catalog z name rtype)
  unfolding lookup
  lookup-IsSaid z name rtype service inside below spelt =
      rw (inside, below, spelt) (answer_known-IsSaid z name rtype (catalog service))

  inside-ne-skip :
      (z : Authority) (name : Name) (rtype : RecordType)
      → zone_of z.origin name ≡ true
      → lookup is_utf8 zone_of catalog z name rtype ≢ skip
  unfolding lookup nxdomain
  inside-ne-skip z name rtype inside k = elim (Bool-cases (length name == length z.origin)) [
    | inl e ↦ ground arith
    | inr e ↦
        elim (Option-cases (service_name_from_name is_utf8 name z.origin z.group z.namespace)) [
          | inl n ↦ ground arith
          | inr (service, s) ↦
              IsSaid-ne-skip z name rtype (catalog service)
                (lookup is_utf8 zone_of catalog z name rtype)
                (lookup-IsSaid z name rtype service inside e s) k
        ]
  ]

  -- The authority leaves a name to the next one just where the name is not in its zone.
  pub lookup-skip_iff :
      (z : Authority) (name : Name) (rtype : RecordType)
      → (lookup is_utf8 zone_of catalog z name rtype ≡ skip) ↔ (zone_of z.origin name ≡ false)
  unfolding lookup
  lookup-skip_iff z name rtype = (
    (λ k. elim (Bool-cases (zone_of z.origin name)) [
      | inl e ↦ absurd (inside-ne-skip z name rtype e k)
      | inr e ↦ e
    ]),
    (λ e. rw e refl),
  )
