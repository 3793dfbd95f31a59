-- ===== src/Kernel/Program/Served.antt =====
-- What stands in the replies that the XDP program sends.
use doggy_dns.Common.{
  ℕ, ◌+◌, ◌-◌, ◌*◌, ◌≤◌, ◌<◌, ◌≡◌, refl, ap, ◌∙◌, false, Option, some, arith, ltb, Bool-cases,
  Option-cases, inl, inr,
}
use doggy_dns.Cache.Hash.{CacheKey}
use doggy_dns.Cache.Entry.{CacheValue}
use doggy_dns.Kernel.Memory.{Memory, Frame, read_u16_be}
use doggy_dns.Kernel.Reply.{min_positive_len, max_dns_len}
use doggy_dns.Kernel.Reply.Copy.{answered, write_positive_lem}
use doggy_dns.Kernel.Headers.{finalize_headers}
use doggy_dns.Kernel.Headers.Payload.{payload_kept}
use doggy_dns.Kernel.Program.{
  finished, tx, Outcome, hit, Query, parse_query, key_of, negative, reply_len, write_reply,
  outcome_of, finish_reply, rewrite_frame, resize_frame, answer_query, look_up, try_dns_xdp,
}
use doggy_dns.Kernel.Program.Outcomes.{IsDnsQuery, parse_query-IsDnsQuery}

-- What stands behind a frame that was sent back.
record Sent (q : Query) (entry : CacheValue) (txid : ℕ) (g : Frame) (o : Option Outcome)
    (f' : Frame) : Type 0 where
  room : q.dns_offset + reply_len q entry ≤ g.size
  message : Memory
  written : write_reply q entry g.byte g.size txid ≡ some message
  finished_by :
      finalize_headers message g.size q.ip_hdr_len q.udp_offset (reply_len q entry) ≡ some f'.byte
  same_size : f'.size ≡ g.size
  counted : o ≡ some (outcome_of entry)

module _ (q : Query) (entry : CacheValue) (txid : ℕ) (g : Frame) (o : Option Outcome)
    (f' : Frame) where
  rewrite_frame-Sent : rewrite_frame q entry txid g ≡ finished tx o f' → Sent q entry txid g o f'
  unfolding rewrite_frame finish_reply
  rewrite_frame-Sent e = elim (Bool-cases (ltb g.size (q.dns_offset + reply_len q entry))) [
    | inl short ↦ cc (rw short at e)
    | inr room ↦ elim (Option-cases (write_reply q entry g.byte g.size txid)) [
      | inl none_left ↦ ground arith
      | inr (m, written) ↦
          elim (Option-cases
            (finalize_headers m g.size q.ip_hdr_len q.udp_offset (reply_len q entry))) [
              | inl unfinished ↦ ground arith
              | inr (m', finalized) ↦ record {
                room = ground arith;
                message = m;
                written = written;
                finished_by = ground arith;
                same_size = ground arith;
                counted = ground arith;
              }
            ]
    ]
  ]

module _ (adjust_tail : Frame → (old new : ℕ) → Option Frame) where
  record Answered (config : Option ℕ) (cache : CacheKey → Option CacheValue) (now : ℕ) (f : Frame)
      (o : Option Outcome) (f' : Frame) : Type 0 where
    q : Query
    entry : CacheValue
    g : Frame
    asked : parse_query config f ≡ some q
    cached : cache (key_of q.question) ≡ some entry
    fresh : now < entry.expires_at
    bounded :
        negative entry ≡ false
        → (min_positive_len ≤ entry.resp_len) × (entry.resp_len ≤ max_dns_len)
    sent : Sent q entry (read_u16_be f.byte q.dns_offset) g o f'

  resize-Sent :
      (q : Query) (entry : CacheValue) (f : Frame) (o : Option Outcome) (f' : Frame)
      → resize_frame adjust_tail q entry f ≡ finished tx o f'
      → (g : Frame) × Sent q entry (read_u16_be f.byte q.dns_offset) g o f'
  unfolding resize_frame
  resize-Sent q entry f o f' e =
      elim (Option-cases (adjust_tail f q.old_dns_len (reply_len q entry))) [
        | inl refused ↦ ground arith
        | inr (g, resized) ↦
            (g, rewrite_frame-Sent q entry (read_u16_be f.byte q.dns_offset) g o f' (ground arith))
      ]

  record Fresh (now : ℕ) (q : Query) (entry : CacheValue) (f : Frame) (o : Option Outcome)
      (f' : Frame) : Type 0 where
    fresh : now < entry.expires_at
    bounded :
        negative entry ≡ false
        → (min_positive_len ≤ entry.resp_len) × (entry.resp_len ≤ max_dns_len)
    resized : resize_frame adjust_tail q entry f ≡ finished tx o f'

  answer_query-Fresh :
      (now : ℕ) (q : Query) (entry : CacheValue) (f : Frame) (o : Option Outcome) (f' : Frame)
      → answer_query adjust_tail now q entry f ≡ finished tx o f'
      → Fresh now q entry f o f'
  unfolding answer_query
  answer_query-Fresh now q entry f o f' e = record {
    fresh = ground arith;
    bounded = λ positive. (ground arith, ground arith);
    resized = ground arith;
  }

  try_dns_xdp-Answered :
      (config : Option ℕ) (cache : CacheKey → Option CacheValue) (now : ℕ) (f : Frame)
      (o : Option Outcome) (f' : Frame)
      → try_dns_xdp adjust_tail config cache now f ≡ finished tx o f'
      → Answered config cache now f o f'
  unfolding try_dns_xdp look_up
  try_dns_xdp-Answered config cache now f o f' e = elim (Option-cases (parse_query config f)) [
    | inl other ↦ ground arith
    | inr (q, parsed) ↦ elim (Option-cases (cache (key_of q.question))) [
      | inl absent ↦ ground arith
      | inr (entry, found) ↦
          let fr = answer_query-Fresh now q entry f o f' (ground arith) in
          let (g, sent) = resize-Sent q entry f o f' fr.resized in
          record {
            q = q;
            entry = entry;
            g = g;
            asked = parsed;
            cached = found;
            fresh = fr.fresh;
            bounded = fr.bounded;
            sent = sent;
          }
    ]
  ]

-- A cached answer as the client sees it: the query's id, then the cached bytes.
pub record IsCachedReply (config : Option ℕ) (cache : CacheKey → Option CacheValue) (now : ℕ)
    (f f' : Frame) : Type 0 where
  pub q : Query
  pub entry : CacheValue
  pub taken : parse_query config f ≡ some q
  pub asked : IsDnsQuery config f q
  pub cached : cache (key_of q.question) ≡ some entry
  pub positive : negative entry ≡ false
  pub fresh : now < entry.expires_at
  pub fits : q.dns_offset + entry.resp_len ≤ f'.size
  pub same_id : read_u16_be f'.byte q.dns_offset ≡ read_u16_be f.byte q.dns_offset
  pub body : (i : ℕ) → 2 ≤ i → i < entry.resp_len → f'.byte (q.dns_offset + i) ≡ entry.resp_data i

outcome-hit :
    (entry : CacheValue) (o : Option Outcome)
    → o ≡ some (outcome_of entry)
    → o ≡ some hit
    → negative entry ≡ false
unfolding outcome_of
outcome-hit entry o e h = ground arith

answered_id :
    (m : Memory) (dns : ℕ) (entry : CacheValue) (n txid : ℕ)
    → answered m dns entry n txid dns * 256 + answered m dns entry n txid (dns + 1) ≡ txid
answered_id m dns entry n txid = ground arith

answered_body :
    (m : Memory) (dns : ℕ) (entry : CacheValue) (n txid i : ℕ)
    → 2 ≤ i
    → i < n
    → answered m dns entry n txid (dns + i) ≡ entry.resp_data i
answered_body m dns entry n txid i lo hi =
    let index : dns + i - dns ≡ i = omega arith in rw index (ground arith)

-- A packet that is counted as a hit goes back with a cached reply: the packet is a DNS query to the
-- configured port, the cache holds a positive entry under its key that has not expired, and the
-- message is that entry's response under the query's transaction id.
pub hit-IsCachedReply :
    (adjust_tail : Frame → (old new : ℕ) → Option Frame) (config : Option ℕ)
    (cache : CacheKey → Option CacheValue) (now : ℕ) (f f' : Frame)
    → try_dns_xdp adjust_tail config cache now f ≡ finished tx (some hit) f'
    → IsCachedReply config cache now f f'
unfolding reply_len write_reply
hit-IsCachedReply adjust_tail config cache now f f' e =
    let a = try_dns_xdp-Answered adjust_tail config cache now f (some hit) f' e in
    let asked = parse_query-IsDnsQuery config f a.q a.asked in
    let positive = outcome-hit a.entry (some hit) a.sent.counted refl in
    let (lo, hi) = a.bounded positive in
    let txid = read_u16_be f.byte a.q.dns_offset in
    let size : reply_len a.q a.entry ≡ a.entry.resp_len = ground arith in
    let room : a.q.dns_offset + a.entry.resp_len ≤ a.g.size = omega (arith, a.sent.room, size) in
    let wrote =
      write_positive_lem a.g.byte a.q.dns_offset a.g.size a.entry a.entry.resp_len txid lo hi
        room in
    let message : a.sent.message ≡ answered a.g.byte a.q.dns_offset a.entry a.entry.resp_len txid =
      ground (arith, a.sent.written, wrote) in
    let kept = λ (j : ℕ) (h : a.q.dns_offset ≤ j).
      payload_kept a.sent.message a.g.size a.q.ip_hdr_len a.q.udp_offset (reply_len a.q a.entry)
        f'.byte j (omega (arith, asked.udp_place, asked.header_len))
        (omega (arith, asked.dns_place, room)) a.sent.finished_by (omega (arith, asked.dns_place))
      ∙ ap (λ (m : Memory). m j) message in
    record {
      q = a.q;
      entry = a.entry;
      taken = a.asked;
      asked = asked;
      cached = a.cached;
      positive = positive;
      fresh = a.fresh;
      fits = omega (arith, a.sent.same_size, room);
      same_id =
          unfold read_u16_be in
          (ground (
            arith,
            kept a.q.dns_offset (omega arith),
            kept (a.q.dns_offset + 1) (omega arith),
            answered_id a.g.byte a.q.dns_offset a.entry a.entry.resp_len txid,
          ));
      body = λ i lo hi.
          kept (a.q.dns_offset + i) (omega arith)
          ∙ answered_body a.g.byte a.q.dns_offset a.entry a.entry.resp_len txid i lo hi;
    }
