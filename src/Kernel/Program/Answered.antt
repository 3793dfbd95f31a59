-- ===== src/Kernel/Program/Answered.antt =====
-- When a query is answered from the cache.
use mathlib.Core.Path.{subst}
use doggy_dns.Common.{
  ℕ, ◌+◌, ◌*◌, ◌%◌, ◌^◌, ◌≤◌, ◌<◌, ◌≡◌, ◌⊎◌, refl, ap, ◌∙◌, false, Option, none, some, List, arith,
  ltb, leb, Bool-cases, Option-cases, inl, inr, All, length,
}
use doggy_dns.Common.Dns.{Name, no_error}
use doggy_dns.Cache.Hash.{CacheKey, make_cache_key}
use doggy_dns.Cache.Entry.{CacheValue}
use doggy_dns.Cache.Middleware.{compute_cache_entry, entry_ttl}
use doggy_dns.Kernel.Memory.{Memory, Frame, HasBytes, read_u16_be}
use doggy_dns.Kernel.Reply.{min_positive_len, max_dns_len}
use doggy_dns.Kernel.Headers.{finalize_headers}
use doggy_dns.Kernel.Question.Names.{IsLabel, wire_labels, Asks}
use doggy_dns.Kernel.Program.{
  finished, failed, tx, hit, Query, parse_query, key_of, negative, reply_len, write_reply,
  finish_reply, outcome_of, rewrite_frame, resize_frame, answer_query, look_up, try_dns_xdp,
}
use doggy_dns.Kernel.Program.Outcomes.{parse_query-IsDnsQuery}
use doggy_dns.Kernel.Program.Drops.{ResizesBy, complete-ne-failed}
use doggy_dns.Kernel.Program.EndToEnd.{key_of-make_cache_key, stored_positive}

finish_reply-cases :
    (q : Query) (entry : CacheValue) (end : ℕ) (o : Option Memory)
    → (finish_reply q entry end o ≡ failed)
      ⊎ ((f' : Frame) × (finish_reply q entry end o ≡ finished tx (some (outcome_of entry)) f'))
unfolding finish_reply
finish_reply-cases q entry end none = inl refl
finish_reply-cases q entry end (some m) =
    elim (Option-cases (finalize_headers m end q.ip_hdr_len q.udp_offset (reply_len q entry))) [
      | inl n ↦ inl (ground arith)
      | inr (m', done) ↦
          let f' : Frame = record { byte = m'; size = end } in
          let sent : finish_reply q entry end (some m) ≡ finished tx (some (outcome_of entry)) f' =
            ground arith in
          inr (f', sent)
    ]

rewrite_frame-cases :
    (q : Query) (entry : CacheValue) (txid : ℕ) (f : Frame)
    → (rewrite_frame q entry txid f ≡ failed)
      ⊎ ((f' : Frame) × (rewrite_frame q entry txid f ≡ finished tx (some (outcome_of entry)) f'))
unfolding rewrite_frame
rewrite_frame-cases q entry txid f =
    elim (Bool-cases (ltb f.size (q.dns_offset + reply_len q entry))) [
      | inl short ↦ inl (ground arith)
      | inr fits ↦
          let reply = write_reply q entry f.byte f.size txid in
          let next : rewrite_frame q entry txid f ≡ finish_reply q entry f.size reply =
            ground arith in
          elim (finish_reply-cases q entry f.size reply) [
            | inl e ↦ inl (next ∙ e)
            | inr (f', e) ↦ inr (f', next ∙ e)
          ]
    ]

stored-positive :
    (name : Name) (qtype qclass : ℕ) (response : List ℕ) (ttl : Option ℕ) (negative_ttl now : ℕ)
    → negative (compute_cache_entry name qtype qclass no_error response ttl negative_ttl now).1
      ≡ false
unfolding compute_cache_entry
stored-positive name qtype qclass response ttl negative_ttl now = refl

module _ (adjust_tail : Frame → (old new : ℕ) → Option Frame) (resizes : ResizesBy adjust_tail)
    (config : Option ℕ) (cache : CacheKey → Option CacheValue) (now : ℕ) (f : Frame) where
  entry-answered :
      (q : Query) (entry : CacheValue) (g : Frame)
      → parse_query config f ≡ some q
      → cache (key_of q.question) ≡ some entry
      → now < entry.expires_at
      → negative entry ≡ false
      → min_positive_len ≤ entry.resp_len
      → entry.resp_len ≤ max_dns_len
      → adjust_tail f q.old_dns_len entry.resp_len ≡ some g
      → q.dns_offset + q.old_dns_len ≤ f.size
      → (f' : Frame) × (try_dns_xdp adjust_tail config cache now f ≡ finished tx (some hit) f')
  unfolding try_dns_xdp look_up answer_query resize_frame reply_len outcome_of
  entry-answered q entry g parsed found fresh positive lo hi resized whole =
      let lives : leb entry.expires_at now ≡ false = ground arith in
      let short : ltb entry.resp_len min_positive_len ≡ false = ground arith in
      let long : ltb max_dns_len entry.resp_len ≡ false = ground arith in
      let txid = read_u16_be f.byte q.dns_offset in
      let asked : try_dns_xdp adjust_tail config cache now f ≡ look_up adjust_tail cache now q f =
        ground arith in
      let held : look_up adjust_tail cache now q f ≡ answer_query adjust_tail now q entry f =
        ground arith in
      let taken : answer_query adjust_tail now q entry f ≡ resize_frame adjust_tail q entry f =
        ground arith in
      let size : reply_len q entry ≡ entry.resp_len = ground arith in
      let grown : resize_frame adjust_tail q entry f ≡ rewrite_frame q entry txid g =
        let given : adjust_tail f q.old_dns_len (reply_len q entry) ≡ some g =
          ap (λ n. adjust_tail f q.old_dns_len n) size ∙ resized in
        ground arith in
      let counted : outcome_of entry ≡ hit = ground arith in
      let same = asked ∙ held ∙ taken ∙ grown in
      elim (rewrite_frame-cases q entry txid g) [
        | inl dropped ↦ absurd (
            complete-ne-failed adjust_tail resizes f config cache now
              (λ (p : Query) (e : parse_query config f ≡ some p).
                let there : q ≡ p = cc in
                subst (λ (x : Query). x.dns_offset + x.old_dns_len ≤ f.size) there whole)
              (same ∙ dropped))
        | inr (f', sent) ↦ (f', same ∙ sent ∙ ap (λ o. finished tx (some o) f') counted)
      ]

  -- A query is answered from the cache: when the cache holds the entry that the middleware made of
  -- a positive response of 17 to 512 bytes to a question, that entry has not expired, a packet that
  -- the fast path takes up asks the question, its UDP length does not claim more than the frame
  -- holds, and the kernel resizes the frame as asked, then the packet is counted as a hit and sent
  -- back.
  pub stored-answered :
      (name : Name) (qtype qclass : ℕ) (response : List ℕ) (ttl : Option ℕ)
      (negative_ttl stored_at : ℕ) (q : Query) (g : Frame)
      → HasBytes f.byte
      → All IsLabel name
      → length (wire_labels name) < 255
      → parse_query config f ≡ some q
      → Asks f q.dns_offset name qtype qclass
      → 17 ≤ length response
      → length response ≤ 512
      → now < (stored_at + entry_ttl false ttl negative_ttl * 1_000_000_000) % 2 ^ 64
      → cache (make_cache_key name qtype qclass)
        ≡ some
            (compute_cache_entry name qtype qclass no_error response ttl negative_ttl stored_at).1
      → adjust_tail f q.old_dns_len (length response) ≡ some g
      → q.dns_offset + q.old_dns_len ≤ f.size
      → (f' : Frame) × (try_dns_xdp adjust_tail config cache now f ≡ finished tx (some hit) f')
  stored-answered name qtype qclass response ttl negative_ttl stored_at q g bytes ok short parsed
        asks lo hi fresh held resized whole =
      let entry : CacheValue =
        (compute_cache_entry name qtype qclass no_error response ttl negative_ttl stored_at).1 in
      let key : key_of q.question ≡ make_cache_key name qtype qclass =
        key_of-make_cache_key f q.dns_offset name qtype qclass q.question bytes ok short asks
          (parse_query-IsDnsQuery config f q parsed).parsed in
      let (len, expires, bytes_kept) =
        stored_positive name qtype qclass response ttl negative_ttl stored_at 0 hi in
      entry-answered q entry g parsed (ap cache key ∙ held) (omega (arith, fresh, expires))
        (stored-positive name qtype qclass response ttl negative_ttl stored_at)
        (omega (arith, lo, len)) (omega (arith, hi, len))
        (ap (λ n. adjust_tail f q.old_dns_len n) len ∙ resized) whole
