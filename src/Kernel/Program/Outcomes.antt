-- ===== src/Kernel/Program/Outcomes.antt =====
-- What the XDP program does with a packet.
use doggy_dns.Common.{
  ℕ, ◌+◌, ◌≤◌, ◌≡◌, ◌≢◌, Option, none, some, arith, bit_and, Option-cases, inl, inr,
}
use doggy_dns.Cache.Hash.{CacheKey}
use doggy_dns.Cache.Entry.{CacheValue}
use doggy_dns.Kernel.Memory.{Memory, Frame, read_u16_be}
use doggy_dns.Kernel.Question.{parse_dns_question}
use doggy_dns.Kernel.Program.{
  finished, pass, Outcome, Query, parse_query, key_of, reply_len, write_reply, finish_reply,
  rewrite_frame, resize_frame, answer_query, look_up, try_dns_xdp,
}

module _ (q : Query) (entry : CacheValue) where
  finish-ne-pass :
      (end : ℕ) (m : Option Memory) (o : Option Outcome) (f' : Frame)
      → finish_reply q entry end m ≢ finished pass o f'
  unfolding finish_reply
  finish-ne-pass end none o f' e = cc
  finish-ne-pass end (some m) o f' e = ground arith

  rewrite-ne-pass :
      (txid : ℕ) (f : Frame) (o : Option Outcome) (f' : Frame)
      → rewrite_frame q entry txid f ≢ finished pass o f'
  unfolding rewrite_frame
  rewrite-ne-pass txid f o f' e =
      ground (arith, finish-ne-pass f.size (write_reply q entry f.byte f.size txid) o f')

module _ (adjust_tail : Frame → (old new : ℕ) → Option Frame) where
  resize-pass :
      (q : Query) (entry : CacheValue) (f : Frame) (o : Option Outcome) (f' : Frame)
      → resize_frame adjust_tail q entry f ≡ finished pass o f'
      → f' ≡ f
  unfolding resize_frame
  resize-pass q entry f o f' e =
      elim (Option-cases (adjust_tail f q.old_dns_len (reply_len q entry))) [
        | inl refused ↦ ground arith
        | inr (g, resized) ↦
            ground (arith, rewrite-ne-pass q entry (read_u16_be f.byte q.dns_offset) g o f')
      ]

  answer-pass :
      (now : ℕ) (q : Query) (entry : CacheValue) (f : Frame) (o : Option Outcome) (f' : Frame)
      → answer_query adjust_tail now q entry f ≡ finished pass o f'
      → f' ≡ f
  unfolding answer_query
  answer-pass now q entry f o f' e = ground (arith, resize-pass q entry f o f')

  -- A packet that is passed on is the packet that came in, byte for byte.
  pub pass_unchanged :
      (config : Option ℕ) (cache : CacheKey → Option CacheValue) (now : ℕ) (f : Frame)
      (o : Option Outcome) (f' : Frame)
      → try_dns_xdp adjust_tail config cache now f ≡ finished pass o f'
      → f' ≡ f
  unfolding try_dns_xdp look_up
  pass_unchanged config cache now f o f' e = elim (Option-cases (parse_query config f)) [
    | inl other ↦ ground arith
    | inr (q, parsed) ↦ elim (Option-cases (cache (key_of q.question))) [
      | inl absent ↦ ground arith
      | inr (entry, found) ↦ ground (arith, answer-pass now q entry f o f')
    ]
  ]

-- What a packet is that the fast path takes up.
pub record IsDnsQuery (config : Option ℕ) (f : Frame) (q : Query) : Type 0 where
  pub is_ip : read_u16_be f.byte 12 ≡ 0x0800
  pub is_udp : f.byte 23 ≡ 17
  pub to_server : config ≡ some (read_u16_be f.byte (q.udp_offset + 2))
  pub udp_place : q.udp_offset ≡ 14 + q.ip_hdr_len
  pub dns_place : q.dns_offset ≡ q.udp_offset + 8
  pub header_len : 20 ≤ q.ip_hdr_len
  pub header_fits : q.dns_offset + 12 ≤ f.size
  pub message_len : q.old_dns_len + 8 ≡ read_u16_be f.byte (q.udp_offset + 4)
  pub is_query : bit_and (read_u16_be f.byte (q.dns_offset + 2)) 0x8000 ≡ 0
  pub one_question : read_u16_be f.byte (q.dns_offset + 4) ≡ 1
  pub parsed : parse_dns_question f q.dns_offset ≡ some q.question

-- The fast path takes up only an IPv4 UDP packet to the configured port whose DNS header fits the
-- frame, has QR clear and one question, and whose question parses.
pub parse_query-IsDnsQuery :
    (config : Option ℕ) (f : Frame) (q : Query)
    → parse_query config f ≡ some q
    → IsDnsQuery config f q
unfolding parse_query
parse_query-IsDnsQuery config f q e = ground arith
