-- ===== src/Stats.antt =====
-- The fast-path counters in userspace: crates/doggy-dns-xdp/src/stats.rs and stats/reader.rs.
pub mod Totals
use doggy_dns.Common.{
  ℕ, ◌+◌, ◌-◌, ◌%◌, ◌^◌, String, Bool, true, false, ◌||◌, Option, none, some, List, [], ◌∷◌, ◌++◌,
  ltb, leb, if◌then◌else◌,
}
use doggy_dns.Kernel.Program.{XdpStats}

pub record XdpStatsDelta : Type 0 where
  pub hit : ℕ
  pub negative_hit : ℕ
  pub miss : ℕ
  pub expired : ℕ
  pub drop : ℕ
  pub reset : Bool

-- A counter that went backwards is that of a new map.
step : (current previous : ℕ) → ℕ × Bool
step current previous =
    if leb previous current then (current - previous, false) else (current, true)

unfoldable pub delta_from : (current previous : XdpStats) → XdpStatsDelta
unfolding step
delta_from current previous =
    let (hit, hit_reset) = step current.hit previous.hit in
    let (negative_hit, negative_reset) = step current.negative_hit previous.negative_hit in
    let (miss, miss_reset) = step current.miss previous.miss in
    let (expired, expired_reset) = step current.expired previous.expired in
    let (drop, drop_reset) = step current.drop previous.drop in
    record {
      hit = hit;
      negative_hit = negative_hit;
      miss = miss;
      expired = expired;
      drop = drop;
      reset = hit_reset || negative_reset || miss_reset || expired_reset || drop_reset;
    }

pub data Label : Type 0 where
  hit negative_hit miss expired drop : Label

positive_only : List (Label × ℕ) → List (Label × ℕ)
positive_only [] = []
positive_only ((label, count) ∷ rest) =
    let kept = positive_only rest in if ltb 0 count then (label, count) ∷ kept else kept

-- The array of `XdpStatsDelta::entries`, before its filter.
labelled : XdpStatsDelta → List (Label × ℕ)
labelled d =
    (hit, d.hit)
    ∷ (negative_hit, d.negative_hit)
    ∷ (miss, d.miss)
    ∷ (expired, d.expired)
    ∷ (drop, d.drop)
    ∷ []

-- `XdpStatsDelta::entries`
pub entries : XdpStatsDelta → List (Label × ℕ)
entries d = positive_only (labelled d)

-- `emit_delta`: the new baseline and the calls of `sink`.
pub emit_delta : (previous current : XdpStats) → XdpStats × List (Label × ℕ)
emit_delta previous current = (current, entries (delta_from current previous))

abbrev pub zero_stats : XdpStats
zero_stats = record { hit = 0; negative_hit = 0; miss = 0; expired = 0; drop = 0 }

add_stats : XdpStats → XdpStats → XdpStats
add_stats total value = record {
  hit = (total.hit + value.hit) % 2 ^ 64;
  negative_hit = (total.negative_hit + value.negative_hit) % 2 ^ 64;
  miss = (total.miss + value.miss) % 2 ^ 64;
  expired = (total.expired + value.expired) % 2 ^ 64;
  drop = (total.drop + value.drop) % 2 ^ 64;
}

sum_slots : XdpStats → List XdpStats → XdpStats
sum_slots total [] = total
sum_slots total (value ∷ values) = sum_slots (add_stats total value) values

-- `XdpStatsReader::snapshot` over the CPU slots that the map read returns; `none` is its error.
unfoldable pub snapshot : Option (List XdpStats) → Option XdpStats
unfolding sum_slots add_stats
snapshot none = none
snapshot (some values) = some (sum_slots zero_stats values)

-- One round of the poller on a read of the map: the baseline and what was sent to the sink.
pub poll : XdpStats → Option XdpStats → XdpStats × List (Label × ℕ)
poll previous none = (previous, [])
poll previous (some current) = emit_delta previous current

-- The poller over the reads of its ticks, with one last read when it is told to stop.
poll_ticks : XdpStats → List (Option XdpStats) → Option XdpStats → List (Label × ℕ)
poll_ticks previous [] last = (poll previous last).1
poll_ticks previous (read ∷ reads) last =
    let (baseline, sent) = poll previous read in sent ++ poll_ticks baseline reads last

unfoldable pub stats_poller : List (Option XdpStats) → Option XdpStats → List (Label × ℕ)
unfolding poll_ticks poll emit_delta entries labelled positive_only delta_from
stats_poller reads last = poll_ticks zero_stats reads last
