-- ===== src/Nacos/Authority/Chained.antt =====
-- The Nacos authority as a handler of the chain.
use doggy_dns.Common.{
  ℕ, String, ◌≡◌, ◌≢◌, refl, ap, ◌∙◌, Bool, true, false, Option, none, some, List, ◌∷◌, ◌++◌, All,
  length, ◌==◌, if◌then◌else◌, Bool-cases, inl, inr, arith,
}
use doggy_dns.Common.Dns.{Name, RecordType, Record, Lookup, skip}
use doggy_dns.Nacos.Watcher.{CatalogAnswer}
use doggy_dns.Nacos.Mapping.{Text}
use doggy_dns.Nacos.Authority.{Authority, lookup}
use doggy_dns.Nacos.Authority.Negative.{lookup-skip_iff}
use doggy_dns.Plugin.Chain.{NamedHandler, resolve, is_skip, is_err, answered_by, soa_for, fetch_soa}
use doggy_dns.Plugin.Chain.First.{Skips, resolve-first}

is_skip-skip : (l : Lookup) → l ≢ skip → is_skip l ≡ false
is_skip-skip skip h = absurd (h refl)
is_skip-skip (Lookup.continue_ok rs) h = refl
is_skip-skip (Lookup.break_ok rs) h = refl
is_skip-skip (Lookup.continue_err e) h = refl
is_skip-skip (Lookup.break_err e) h = refl

-- The SOA of a negative answer: the one that is kept, or the zone's.
abbrev pub soa_of : Option Record → Authority → Record
soa_of none z = z.apex_soa
soa_of (some cached) z = cached

module _ (is_utf8 : List ℕ → Bool) (zone_of : Name → Name → Bool)
    (catalog : ℕ → Text → CatalogAnswer) where
  -- The handler of a zone, with the SOA that it keeps if it has fetched one. What the catalog holds
  -- depends on the moment.
  unfoldable pub nacos_handler : String → Option Record → Authority → NamedHandler
  nacos_handler name kept z = record {
    name = name;
    origin = z.origin;
    owns_zone = true;
    lookup = λ at. lookup is_utf8 zone_of (catalog at) z;
    apex_soa = kept;
  }

  -- The zone's SOA stands at the apex, whatever the catalog holds.
  fetches_apex :
      (at : ℕ) (label : String) (kept : Option Record) (z : Authority)
      → zone_of z.origin z.origin ≡ true
      → fetch_soa at (nacos_handler label kept z) ≡ some z.apex_soa
  unfolding nacos_handler fetch_soa lookup
  fetches_apex at label kept z inside =
      let apex : (length z.origin == length z.origin) ≡ true = ground arith in
      rw (inside, apex) refl

  keeps_apex :
      (at : ℕ) (label : String) (kept : Option Record) (z : Authority) (l : Lookup)
      → zone_of z.origin z.origin ≡ true
      → soa_for at (nacos_handler label kept z) l ≡ (
        nacos_handler label (if is_err l then some (soa_of kept z) else kept) z,
        if is_err l then some (soa_of kept z) else none,
      )
  unfolding nacos_handler soa_for
  keeps_apex at label none z l inside = elim (Bool-cases (is_err l)) [
    | inl e ↦ rw (e, fetches_apex at label none z inside) refl
    | inr e ↦ rw e refl
  ]
  keeps_apex at label (some cached) z l inside = elim (Bool-cases (is_err l)) [
    | inl e ↦ rw e refl
    | inr e ↦ rw e refl
  ]

  -- A query for a name of the zone stops at the zone's handler, if those before it skip the query
  -- and the zone's apex is in the zone: the result is the zone's own answer, as an authority's, with
  -- an SOA just where it is negative, which is the one that the handler has kept or else the zone's
  -- own, and which the handler keeps from then on; and the handlers after it, whatever they are,
  -- have no part in the result and do not change.
  pub in_zone-stops :
      (at : ℕ) (name : Name) (rtype : RecordType) (label : String) (kept : Option Record)
      (z : Authority) (before after : List NamedHandler)
      → All (Skips at name rtype) before
      → zone_of z.origin name ≡ true
      → zone_of z.origin z.origin ≡ true
      → (let l = lookup is_utf8 zone_of (catalog at) z name rtype in
          resolve at name rtype (before ++ (nacos_handler label kept z ∷ after)) ≡ (
            before
                ++ (nacos_handler label (if is_err l then some (soa_of kept z) else kept) z
                    ∷ after),
            record {
              outcome = l;
              handler_name = some label;
              authoritative = true;
              soa = if is_err l then some (soa_of kept z) else none;
            },
          ))
  unfolding answered_by nacos_handler
  in_zone-stops at name rtype label kept z before after skips inside apex =
      let l = lookup is_utf8 zone_of (catalog at) z name rtype in
      let own = nacos_handler label kept z in
      resolve-first at name rtype before own after skips (
        is_skip-skip l
          (λ k. let out = (lookup-skip_iff is_utf8 zone_of (catalog at) z name rtype).0 k in cc))
      ∙ ap (λ (s : NamedHandler × Option Record). (before ++ (s.0 ∷ after), answered_by own l s.1))
          (keeps_apex at label kept z l apex)
