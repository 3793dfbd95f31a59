-- ===== src/Plugin/Chain.antt =====
-- `AuthorityChain`: crates/doggy-dns-plugin/src/authority_chain.rs. A handler's lookup may answer
-- differently from one request to the next, so it takes the number of the request. Requests are
-- taken one after another.
pub mod First
use doggy_dns.Common.{
  ℕ, String, Bool, true, false, ◌&&◌, Option, none, some, List, [], ◌∷◌, if◌then◌else◌,
}
use doggy_dns.Common.Dns.{
  Name, RecordType, Record, Lookup, continue_ok, break_ok, continue_err, break_err, skip,
}

pub record NamedHandler : Type 0 where
  pub name : String
  pub origin : Name
  -- The zone type is primary or secondary.
  pub owns_zone : Bool
  pub lookup : ℕ → Name → RecordType → Lookup
  pub apex_soa : Option Record

pub record ResolveResult : Type 0 where
  pub outcome : Lookup
  pub handler_name : Option String
  pub authoritative : Bool
  pub soa : Option Record

abbrev pub first : List Record → Option Record
first [] = none
first (r ∷ _) = some r

abbrev pub records_of : Lookup → List Record
records_of (continue_ok rs) = rs
records_of (break_ok rs) = rs
records_of _ = []

abbrev pub is_err : Lookup → Bool
is_err (continue_err _) = true
is_err (break_err _) = true
is_err _ = false

-- `apex_soa`: the first record of the handler's own SOA.
unfoldable pub fetch_soa : ℕ → NamedHandler → Option Record
fetch_soa at h = first (records_of (h.lookup at h.origin RecordType.soa))

-- The SOA of a negative answer; one that is fetched is kept.
unfoldable pub soa_for : ℕ → NamedHandler → Lookup → NamedHandler × Option Record
unfolding fetch_soa
soa_for at h result =
    let fetched = fetch_soa at h in
    if h.owns_zone && is_err result
    then elim h.apex_soa [
      | some cached ↦ (h, some cached)
      | none ↦ elim fetched [
        | some apex ↦ (record h { apex_soa = some apex }, some apex)
        | none ↦ (h, none)
      ]
    ]
    else (h, none)

unfoldable pub answered_by : NamedHandler → Lookup → Option Record → ResolveResult
answered_by h result apex = record {
  outcome = result;
  handler_name = some h.name;
  authoritative = h.owns_zone;
  soa = apex;
}

abbrev pub all_skipped : ResolveResult
all_skipped = record { outcome = skip; handler_name = none; authoritative = false; soa = none }

unfoldable pub respond :
    ℕ → NamedHandler → Lookup → List NamedHandler → List NamedHandler × ResolveResult
respond at h result rest =
    ((soa_for at h result).0 ∷ rest, answered_by h result (soa_for at h result).1)

abbrev pub is_skip : Lookup → Bool
is_skip skip = true
is_skip _ = false

unfoldable pub resolve :
    ℕ → Name → RecordType → List NamedHandler → List NamedHandler × ResolveResult
unfolding respond
resolve at name rtype [] = ([], all_skipped)
resolve at name rtype (h ∷ handlers) =
    let rest = resolve at name rtype handlers in
    let result = h.lookup at name rtype in
    if is_skip result then (h ∷ rest.0, rest.1) else respond at h result handlers
