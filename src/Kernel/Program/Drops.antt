-- ===== src/Kernel/Program/Drops.antt =====
-- When the XDP program drops a packet.
use doggy_dns.Common.{
  ℕ, ◌+◌, ◌≤◌, ◌≡◌, ◌≢◌, false, Option, none, some, arith, Bool-cases, Option-cases, inl, inr,
}
use doggy_dns.Cache.Hash.{CacheKey}
use doggy_dns.Cache.Entry.{CacheValue}
use doggy_dns.Kernel.Memory.{Memory, Frame, read_u16_be}
use doggy_dns.Kernel.Reply.{write_nxdomain, min_positive_len, max_dns_len}
use doggy_dns.Kernel.Reply.Copy.{write_positive_lem}
use doggy_dns.Kernel.Headers.Payload.{finalize_headers_done}
use doggy_dns.Kernel.Program.{
  failed, Query, parse_query, key_of, negative, reply_len, write_reply, finish_reply, rewrite_frame,
  resize_frame, answer_query, look_up, try_dns_xdp,
}
use doggy_dns.Kernel.Program.Outcomes.{parse_query-IsDnsQuery}

-- The law of `bpf_xdp_adjust_tail` that the program relies on: an accepted resize changes the size
-- by the difference that was asked for.
abbrev pub ResizesBy : (Frame → (old new : ℕ) → Option Frame) → Type 0
ResizesBy adjust_tail =
    (f : Frame) (old new : ℕ) (g : Frame)
    → adjust_tail f old new ≡ some g
    → g.size + old ≡ f.size + new

write_nxdomain-ne-none :
    (m : Memory) (dns end : ℕ) → dns + 12 ≤ end → write_nxdomain m dns end ≢ none
unfolding write_nxdomain
write_nxdomain-ne-none m dns end h e = ground arith

module _ (q : Query) (entry : CacheValue) (txid : ℕ) (g : Frame)
    (room : q.dns_offset + reply_len q entry ≤ g.size) where
  write_reply-ne-none :
      (negative entry ≡ false
        → (min_positive_len ≤ entry.resp_len) × (entry.resp_len ≤ max_dns_len))
      → write_reply q entry g.byte g.size txid ≢ none
  unfolding write_reply reply_len
  write_reply-ne-none bounded e = elim (Bool-cases (negative entry)) [
    | inl neg ↦
        let size : reply_len q entry ≡ 12 + q.question.question_len = ground arith in
        ground
          (arith, write_nxdomain-ne-none g.byte q.dns_offset g.size (omega (arith, size, room)))
    | inr pos ↦
        let (lo, hi) = bounded pos in
        let size : reply_len q entry ≡ entry.resp_len = ground arith in
        ground (
          arith,
          write_positive_lem g.byte q.dns_offset g.size entry entry.resp_len txid lo hi
              (omega (arith, size, room)),
        )
  ]

  -- On a frame with room for the reply nothing fails.
  rewrite-ne-failed :
      34 ≤ q.udp_offset
      → q.udp_offset + 8 ≤ g.size
      → (negative entry ≡ false
          → (min_positive_len ≤ entry.resp_len) × (entry.resp_len ≤ max_dns_len))
      → rewrite_frame q entry txid g ≢ failed
  unfolding rewrite_frame finish_reply
  rewrite-ne-failed udp end bounded e =
      elim (Option-cases (write_reply q entry g.byte g.size txid)) [
        | inl unwritten ↦ write_reply-ne-none bounded unwritten
        | inr (m', written) ↦ ground (
          arith,
          finalize_headers_done m' g.size q.ip_hdr_len q.udp_offset (reply_len q entry) udp end,
        )
      ]

module _ (adjust_tail : Frame → (old new : ℕ) → Option Frame) (resizes : ResizesBy adjust_tail)
    (f : Frame) where
  resize-ne-failed :
      (q : Query) (entry : CacheValue)
      → 34 ≤ q.udp_offset
      → q.dns_offset ≡ q.udp_offset + 8
      → q.dns_offset + q.old_dns_len ≤ f.size
      → (negative entry ≡ false
          → (min_positive_len ≤ entry.resp_len) × (entry.resp_len ≤ max_dns_len))
      → resize_frame adjust_tail q entry f ≢ failed
  unfolding resize_frame
  resize-ne-failed q entry udp dns whole bounded e =
      elim (Option-cases (adjust_tail f q.old_dns_len (reply_len q entry))) [
        | inl refused ↦ ground arith
        | inr (g, resized) ↦
            let size = resizes f q.old_dns_len (reply_len q entry) g resized in
            ground (
              arith,
              rewrite-ne-failed q entry (read_u16_be f.byte q.dns_offset) g (omega (arith, size))
                  udp (omega (arith, size)) bounded,
            )
      ]

  answer-ne-failed :
      (now : ℕ) (q : Query) (entry : CacheValue)
      → 34 ≤ q.udp_offset
      → q.dns_offset ≡ q.udp_offset + 8
      → q.dns_offset + q.old_dns_len ≤ f.size
      → answer_query adjust_tail now q entry f ≢ failed
  unfolding answer_query
  answer-ne-failed now q entry udp dns whole e =
      let bounded : negative entry ≡ false
          → (min_positive_len ≤ entry.resp_len) × (entry.resp_len ≤ max_dns_len) =
        λ pos. (ground arith, ground arith) in
      ground (arith, resize-ne-failed q entry udp dns whole bounded)

  -- A packet whose UDP length does not claim more than the frame holds is never dropped, if the
  -- kernel's resize changes the size as asked.
  pub complete-ne-failed :
      (config : Option ℕ) (cache : CacheKey → Option CacheValue) (now : ℕ)
      → ((q : Query) → parse_query config f ≡ some q → q.dns_offset + q.old_dns_len ≤ f.size)
      → try_dns_xdp adjust_tail config cache now f ≢ failed
  unfolding try_dns_xdp look_up
  complete-ne-failed config cache now whole e = elim (Option-cases (parse_query config f)) [
    | inl other ↦ ground arith
    | inr (q, parsed) ↦
        let asked = parse_query-IsDnsQuery config f q parsed in
        elim (Option-cases (cache (key_of q.question))) [
          | inl absent ↦ ground arith
          | inr (entry, found) ↦ ground (
            arith,
            answer-ne-failed now q entry (omega (arith, asked.udp_place, asked.header_len))
                asked.dns_place (whole q parsed),
          )
        ]
  ]
