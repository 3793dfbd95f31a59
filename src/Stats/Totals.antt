-- ===== src/Stats/Totals.antt =====
-- What the poller reports adds up to what the counters counted.
use doggy_dns.Common.{
  ℕ, ◌+◌, ◌≤◌, ◌≡◌, refl, ◌∙◌, Bool, true, false, Option, none, some, List, [], ◌∷◌, ◌++◌, arith,
  if◌then◌else◌, Bool-cases, inl, inr,
}
use doggy_dns.Kernel.Program.{XdpStats}
use doggy_dns.Stats.{
  XdpStatsDelta, Label, hit, negative_hit, miss, expired, drop, delta_from, positive_only, labelled,
  entries, emit_delta, poll, poll_ticks, zero_stats, stats_poller,
}

abbrev pub counter : Label → XdpStats → ℕ
counter hit s = s.hit
counter negative_hit s = s.negative_hit
counter miss s = s.miss
counter expired s = s.expired
counter drop s = s.drop

abbrev same_label : Label → Label → Bool
same_label hit hit = true
same_label negative_hit negative_hit = true
same_label miss miss = true
same_label expired expired = true
same_label drop drop = true
same_label _ _ = false

-- How much was sent to the sink under a label.
abbrev pub tally : Label → List (Label × ℕ) → ℕ
tally l [] = 0
tally l ((k, count) ∷ rest) = if same_label l k then count + tally l rest else tally l rest

tally-append : (l : Label) (xs ys : List (Label × ℕ)) → tally l (xs ++ ys) ≡ tally l xs + tally l ys
tally-append l [] ys = omega arith
tally-append l ((k, count) ∷ xs) ys = elim (Bool-cases (same_label l k)) [
  | inl same ↦ ground (arith, tally-append l xs ys)
  | inr other ↦ ground (arith, tally-append l xs ys)
]

-- Leaving out the zero counts changes no total.
tally-positive_only : (l : Label) (xs : List (Label × ℕ)) → tally l (positive_only xs) ≡ tally l xs
unfolding positive_only
tally-positive_only l [] = refl
tally-positive_only l ((k, count) ∷ xs) = ground (arith, tally-positive_only l xs)

-- No counter of `current` is below the baseline.
abbrev pub Rises : XdpStats → XdpStats → Type 0
Rises previous current = (l : Label) → counter l previous ≤ counter l current

abbrev delta_of : Label → XdpStatsDelta → ℕ
delta_of hit d = d.hit
delta_of negative_hit d = d.negative_hit
delta_of miss d = d.miss
delta_of expired d = d.expired
delta_of drop d = d.drop

tally-labelled : (l : Label) (d : XdpStatsDelta) → tally l (labelled d) ≡ delta_of l d
unfolding labelled
tally-labelled hit d = omega arith
tally-labelled _ d = omega arith

tally-entries : (l : Label) (d : XdpStatsDelta) → tally l (entries d) ≡ delta_of l d
unfolding entries
tally-entries l d = tally-positive_only l (labelled d) ∙ tally-labelled l d

delta_from_rise :
    (l : Label) (previous current : XdpStats)
    → Rises previous current
    → delta_of l (delta_from current previous) + counter l previous ≡ counter l current
unfolding delta_from
delta_from_rise hit previous current h = ground (arith, h hit)
delta_from_rise negative_hit previous current h = ground (arith, h negative_hit)
delta_from_rise miss previous current h = ground (arith, h miss)
delta_from_rise expired previous current h = ground (arith, h expired)
delta_from_rise drop previous current h = ground (arith, h drop)

-- The baseline after a read, and reads whose counters never fall below the baseline.
abbrev pub baseline : XdpStats → Option XdpStats → XdpStats
baseline previous none = previous
baseline previous (some current) = current

abbrev pub ReadRises : XdpStats → Option XdpStats → Type 0
ReadRises previous read = Rises previous (baseline previous read)

abbrev pub AllRise : XdpStats → List (Option XdpStats) → Option XdpStats → Type 0
AllRise previous [] last = ReadRises previous last
AllRise previous (read ∷ reads) last =
    ReadRises previous read × AllRise (baseline previous read) reads last

abbrev pub final : XdpStats → List (Option XdpStats) → Option XdpStats → XdpStats
final previous [] last = baseline previous last
final previous (read ∷ reads) last = final (baseline previous read) reads last

poll-baseline :
    (previous : XdpStats) (read : Option XdpStats) → (poll previous read).0 ≡ baseline previous read
unfolding poll emit_delta
poll-baseline previous none = refl
poll-baseline previous (some current) = refl

tally-poll :
    (l : Label) (previous : XdpStats) (read : Option XdpStats)
    → ReadRises previous read
    → tally l (poll previous read).1 + counter l previous ≡ counter l (baseline previous read)
unfolding poll emit_delta
tally-poll l previous none h = omega arith
tally-poll l previous (some current) h =
    omega
      (arith, tally-entries l (delta_from current previous), delta_from_rise l previous current h)

tally-poll_ticks :
    (l : Label) (previous : XdpStats) (reads : List (Option XdpStats)) (last : Option XdpStats)
    → AllRise previous reads last
    → tally l (poll_ticks previous reads last) + counter l previous
      ≡ counter l (final previous reads last)
unfolding poll_ticks
tally-poll_ticks l previous [] last h = tally-poll l previous last h
tally-poll_ticks l previous (read ∷ reads) last h =
    let sent = (poll previous read).1 in
    rw (poll-baseline previous read) (
      omega (
        arith,
        tally-append l sent (poll_ticks (baseline previous read) reads last),
        tally-poll l previous read h.0,
        tally-poll_ticks l (baseline previous read) reads last h.1,
      ))

-- Over any sequence of reads, failed ones included, in which no counter goes backwards, the totals
-- sent to the sink are the counters of the last successful read.
pub stats_poller_total :
    (l : Label) (reads : List (Option XdpStats)) (last : Option XdpStats)
    → AllRise zero_stats reads last
    → tally l (stats_poller reads last) ≡ counter l (final zero_stats reads last)
unfolding stats_poller
stats_poller_total hit reads last h = omega (arith, tally-poll_ticks hit zero_stats reads last h)
stats_poller_total l reads last h = omega (arith, tally-poll_ticks l zero_stats reads last h)
