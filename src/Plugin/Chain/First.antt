-- ===== src/Plugin/Chain/First.antt =====
-- Which handler of the chain answers, and the SOA that goes with it.
use doggy_dns.Common.{
  ℕ, ◌≡◌, inl, inr, refl, true, false, ◌&&◌, some, List, [], ◌∷◌, ◌++◌, All, Bool-cases,
  Option-cases, arith,
}
use doggy_dns.Common.Dns.{Name, RecordType, Record, Lookup}
use doggy_dns.Plugin.Chain.{
  NamedHandler, answered_by, soa_for, fetch_soa, respond, resolve, is_skip, is_err, all_skipped,
}

-- The handler leaves the query to the next one.
abbrev pub Skips : ℕ → Name → RecordType → NamedHandler → Type 0
Skips at name rtype h = is_skip (h.lookup at name rtype) ≡ true

-- The first handler that does not skip the query answers it, with its own name and flags, and the
-- only handler that changes is that one, by the SOA it keeps.
pub resolve-first :
    (at : ℕ) (name : Name) (rtype : RecordType) (before : List NamedHandler) (h : NamedHandler)
    (after : List NamedHandler)
    → All (Skips at name rtype) before
    → is_skip (h.lookup at name rtype) ≡ false
    → resolve at name rtype (before ++ (h ∷ after)) ≡ (
      before ++ ((soa_for at h (h.lookup at name rtype)).0 ∷ after),
      answered_by h (h.lookup at name rtype) (soa_for at h (h.lookup at name rtype)).1,
    )
unfolding resolve respond
resolve-first at name rtype [] h after skips answers = rw answers refl
resolve-first at name rtype (g ∷ before) h after skips answers =
    let ih = resolve-first at name rtype before h after skips.1 answers in rw (skips.0, ih) refl

-- A query that every handler skips changes none of them and has no authority.
pub resolve-all_skipped :
    (at : ℕ) (name : Name) (rtype : RecordType) (handlers : List NamedHandler)
    → All (Skips at name rtype) handlers
    → resolve at name rtype handlers ≡ (handlers, all_skipped)
unfolding resolve
resolve-all_skipped at name rtype [] skips = refl
resolve-all_skipped at name rtype (g ∷ handlers) skips =
    let ih = resolve-all_skipped at name rtype handlers skips.1 in rw (skips.0, ih) refl

soa_for-state :
    (at : ℕ) (h : NamedHandler) (result : Lookup) (r : Record)
    → (soa_for at h result).1 ≡ some r
    → (h.owns_zone ≡ true)
      × ((is_err result ≡ true)
          × (((soa_for at h result).0.owns_zone ≡ true)
              × ((soa_for at h result).0.apex_soa ≡ some r)))
unfolding soa_for
soa_for-state at h result r e = elim (Bool-cases (h.owns_zone && is_err result)) [
  | inr b ↦ absurd (ground arith)
  | inl b ↦
      let owns : h.owns_zone ≡ true = ground arith in
      let err : is_err result ≡ true = ground arith in
      elim (Option-cases h.apex_soa) [
        | inr (cached, s) ↦ (owns, (err, (ground arith, ground arith)))
        | inl n ↦ elim (Option-cases (fetch_soa at h)) [
          | inr (apex, f) ↦ (owns, (err, (ground arith, ground arith)))
          | inl m ↦ absurd (ground arith)
        ]
      ]
]

soa_for-cached :
    (at : ℕ) (h : NamedHandler) (result : Lookup) (r : Record)
    → h.owns_zone ≡ true
    → h.apex_soa ≡ some r
    → is_err result ≡ true
    → (soa_for at h result).1 ≡ some r
unfolding soa_for
soa_for-cached at h result r owns cached err = ground arith

-- The handler owns its zone and keeps the SOA.
abbrev Keeps : Record → NamedHandler → Type 0
Keeps r h = (h.owns_zone ≡ true) × (h.apex_soa ≡ some r)

soa_for-Keeps :
    (at : ℕ) (h : NamedHandler) (result : Lookup) (r : Record)
    → Keeps r h
    → Keeps r (soa_for at h result).0
unfolding soa_for
soa_for-Keeps at h result r (owns, kept) = (ground arith, ground arith)

-- The handler after a sequence of requests, each with its number and what its lookup returned.
pub soa_after : NamedHandler → List (ℕ × Lookup) → NamedHandler
soa_after h [] = h
soa_after h ((at, result) ∷ requests) = soa_after (soa_for at h result).0 requests

soa_after-Keeps :
    (h : NamedHandler) (requests : List (ℕ × Lookup)) (r : Record)
    → Keeps r h
    → Keeps r (soa_after h requests)
unfolding soa_after
soa_after-Keeps h [] r k = k
soa_after-Keeps h ((at, result) ∷ requests) r k =
    soa_after-Keeps (soa_for at h result).0 requests r (soa_for-Keeps at h result r k)

-- Only an error of a handler that owns its zone carries an SOA, and an SOA that a handler's
-- negative answer once carried goes with each of its later negative answers, whatever requests the
-- handler answered in between, positive and negative, and whatever its lookups returned.
pub soa_for-kept :
    (at later : ℕ) (h : NamedHandler) (result next : Lookup) (between : List (ℕ × Lookup))
    (r : Record)
    → (soa_for at h result).1 ≡ some r
    → ((h.owns_zone ≡ true) × (is_err result ≡ true))
      × (is_err next ≡ true
          → (soa_for later (soa_after (soa_for at h result).0 between) next).1 ≡ some r)
soa_for-kept at later h result next between r e =
    let x = soa_for-state at h result r e in
    let (owns, kept) = soa_after-Keeps (soa_for at h result).0 between r x.1.1 in
    (
      (x.0, x.1.0),
      λ negative.
          soa_for-cached later (soa_after (soa_for at h result).0 between) next r owns kept
            negative,
    )
