-- ===== src/Kernel/Program.antt =====
-- The XDP program itself: `dns_xdp`, `try_dns_xdp` and `record` of
-- xdp/doggy-dns-xdp-ebpf/src/main.rs. The maps are arguments: `config` is XDP_CONFIG's entry 0,
-- `cache` a lookup in DNS_CACHE, `now` the kernel clock, and `adjust_tail f old new` is
-- `bpf_xdp_adjust_tail(ctx, new - old)`, with `none` for a refusal. Log lines are left out.
pub mod Outcomes
pub mod Taken
pub mod Served
pub mod Drops
pub mod EndToEnd
pub mod Answered
use mathlib.Core.Bool.{not}
use doggy_dns.Common.{
  ℕ, ◌+◌, ◌-◌, ◌*◌, ◌%◌, ◌^◌, bit_and, bit_or, Bool, true, false, ◌||◌, Option, none, some, ltb,
  leb, ◌==◌, if◌then◌else◌,
}
use doggy_dns.Cache.Hash.{CacheKey}
use doggy_dns.Cache.Entry.{CacheValue, flag_negative}
use doggy_dns.Kernel.Memory.{Memory, Frame, read_u16_be}
use doggy_dns.Kernel.Question.{Question, parse_dns_question, dns_hdr_len}
use doggy_dns.Kernel.Reply.{write_nxdomain, write_positive, min_positive_len, max_dns_len}
use doggy_dns.Kernel.Headers.{finalize_headers, eth_hdr_len, ip_hdr_size, udp_hdr_len}

abbrev pub eth_p_ip : ℕ
eth_p_ip = 0x0800

abbrev pub ipproto_udp : ℕ
ipproto_udp = 17

abbrev pub max_udp_dns_len : ℕ
max_udp_dns_len = 1500

pub data Outcome : Type 0 where
  hit negative_hit miss expired drop : Outcome

pub data Action : Type 0 where
  pass tx xdp_drop : Action

-- What `try_dns_xdp` returns, with the frame as it leaves it. After `failed` the frame is dropped.
pub data Verdict : Type 0 where
  finished : Action → Option Outcome → Frame → Verdict
  failed : Verdict

abbrev pub passed : Frame → Verdict
passed f = finished pass none f

unfoldable pub key_of : Question → CacheKey
key_of q = record {
  name_hash = q.name_hash;
  qtype_class = bit_or (q.qtype * 2 ^ 16 % 2 ^ 32) q.qclass;
  pad = 0;
}

abbrev pub negative : CacheValue → Bool
negative entry = not (bit_and entry.flags flag_negative == 0)

-- Where the parts of one packet lie, and what the query asks.
pub record Query : Type 0 where
  pub ip_hdr_len : ℕ
  pub udp_offset : ℕ
  pub dns_offset : ℕ
  pub old_dns_len : ℕ
  pub question : Question

-- Steps 1 to 5: the headers and the question. `none` passes the packet.
unfoldable pub parse_query : Option ℕ → Frame → Option Query
parse_query config f =
    let ip_hdr_len = bit_and (f.byte eth_hdr_len) 0x0F * 4 in
    let udp_offset = eth_hdr_len + ip_hdr_len in
    let dns_offset = udp_offset + udp_hdr_len in
    let udp_len = read_u16_be f.byte (udp_offset + 4) in
    let dns_flags = read_u16_be f.byte (dns_offset + 2) in
    if ltb f.size eth_hdr_len
    then none
    else if not (read_u16_be f.byte 12 == eth_p_ip)
    then none
    else if ltb f.size (eth_hdr_len + ip_hdr_size)
    then none
    else if not (f.byte (eth_hdr_len + 9) == ipproto_udp)
    then none
    else if ltb ip_hdr_len 20 || ltb f.size (eth_hdr_len + ip_hdr_len)
    then none
    else if ltb f.size (udp_offset + udp_hdr_len)
    then none
    else elim config [
      | none ↦ none
      | some dns_port ↦
          if not (read_u16_be f.byte (udp_offset + 2) == dns_port)
          then none
          else if ltb udp_len udp_hdr_len || ltb max_udp_dns_len udp_len
          then none
          else if ltb f.size (dns_offset + dns_hdr_len)
          then none
          else if not (bit_and dns_flags 0x8000 == 0)
              || not (read_u16_be f.byte (dns_offset + 4) == 1)
          then none
          else elim (parse_dns_question f dns_offset) [
            | none ↦ none
            | some question ↦ some (record {
              ip_hdr_len = ip_hdr_len;
              udp_offset = udp_offset;
              dns_offset = dns_offset;
              old_dns_len = udp_len - udp_hdr_len;
              question = question;
            })
          ]
    ]

-- The length of the reply's DNS message.
unfoldable pub reply_len : Query → CacheValue → ℕ
reply_len q entry = if negative entry then dns_hdr_len + q.question.question_len else entry.resp_len

-- The DNS message of the reply.
unfoldable pub write_reply : Query → CacheValue → (m : Memory) (end txid : ℕ) → Option Memory
write_reply q entry m end txid =
    if negative entry
    then write_nxdomain m q.dns_offset end
    else write_positive m q.dns_offset end entry entry.resp_len txid

outcome_of : CacheValue → Outcome
outcome_of entry = if negative entry then negative_hit else hit

finish_reply : Query → CacheValue → ℕ → Option Memory → Verdict
finish_reply q entry end none = failed
finish_reply q entry end (some m) =
    elim (finalize_headers m end q.ip_hdr_len q.udp_offset (reply_len q entry)) [
      | none ↦ failed
      | some m' ↦ finished tx (some (outcome_of entry)) (record { byte = m'; size = end })
    ]

-- Steps 8 and 9, on the resized frame.
rewrite_frame : Query → CacheValue → (txid : ℕ) → Frame → Verdict
rewrite_frame q entry txid f =
    if ltb f.size (q.dns_offset + reply_len q entry)
    then failed
    else finish_reply q entry f.size (write_reply q entry f.byte f.size txid)

module _ (adjust_tail : Frame → (old new : ℕ) → Option Frame) where
  -- Step 8: the resize.
  resize_frame : Query → CacheValue → Frame → Verdict
  resize_frame q entry f =
      let txid = read_u16_be f.byte q.dns_offset in
      elim (adjust_tail f q.old_dns_len (reply_len q entry)) [
        | none ↦ passed f
        | some f' ↦ rewrite_frame q entry txid f'
      ]

  -- Step 7, and the range check of a cached length.
  answer_query : (now : ℕ) → Query → CacheValue → Frame → Verdict
  answer_query now q entry f =
      if leb entry.expires_at now
      then finished pass (some expired) f
      else if negative entry
      then resize_frame q entry f
      else if ltb entry.resp_len min_positive_len || ltb max_dns_len entry.resp_len
      then passed f
      else resize_frame q entry f

  -- Step 6: the lookup.
  look_up : (CacheKey → Option CacheValue) → (now : ℕ) → Query → Frame → Verdict
  look_up cache now q f = elim (cache (key_of q.question)) [
    | none ↦ finished pass (some miss) f
    | some entry ↦ answer_query now q entry f
  ]

  unfoldable pub try_dns_xdp :
      Option ℕ → (CacheKey → Option CacheValue) → (now : ℕ) → Frame → Verdict
  unfolding look_up answer_query resize_frame rewrite_frame finish_reply write_reply reply_len
      outcome_of key_of
  try_dns_xdp config cache now f = elim (parse_query config f) [
    | none ↦ passed f
    | some q ↦ look_up cache now q f
  ]

-- Per-CPU counters.
pub record XdpStats : Type 0 where
  pub hit : ℕ
  pub negative_hit : ℕ
  pub miss : ℕ
  pub expired : ℕ
  pub drop : ℕ

abbrev next_count : ℕ → ℕ
next_count n = (n + 1) % 2 ^ 64

-- `record`; the entry of XDP_STATS may be missing.
unfoldable pub count_outcome : Outcome → Option XdpStats → Option XdpStats
count_outcome o none = none
count_outcome hit (some s) = some (record s { hit = next_count s.hit })
count_outcome negative_hit (some s) = some (record s { negative_hit = next_count s.negative_hit })
count_outcome miss (some s) = some (record s { miss = next_count s.miss })
count_outcome expired (some s) = some (record s { expired = next_count s.expired })
count_outcome drop (some s) = some (record s { drop = next_count s.drop })

-- The action, the frame that goes on if there is one, and the counters.
pub record Handled : Type 0 where
  pub action : Action
  pub frame : Option Frame
  pub stats : Option XdpStats

settle : Option XdpStats → Verdict → Handled
settle stats (finished action none f) = record { action = action; frame = some f; stats = stats }
settle stats (finished action (some o) f) = record {
  action = action;
  frame = some f;
  stats = count_outcome o stats;
}
settle stats failed = record { action = xdp_drop; frame = none; stats = count_outcome drop stats }

unfoldable pub dns_xdp :
    (Frame → (old new : ℕ) → Option Frame)
    → Option ℕ
    → (CacheKey → Option CacheValue)
    → (now : ℕ) → Option XdpStats
    → Frame
    → Handled
unfolding try_dns_xdp settle count_outcome
dns_xdp adjust_tail config cache now stats f =
    settle stats (try_dns_xdp adjust_tail config cache now f)
