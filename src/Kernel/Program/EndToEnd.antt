-- ===== src/Kernel/Program/EndToEnd.antt =====
-- From the middleware's cache entry to the kernel's reply.
use doggy_dns.Common.{
  ℕ, ◌+◌, ◌*◌, ◌%◌, ◌^◌, ◌≤◌, ◌<◌, ◌≡◌, refl, ap, ◌∙◌, false, Option, some, List, All, length,
  arith, min,
}
use doggy_dns.Common.Dns.{Name, no_error}
use doggy_dns.Cache.Hash.{CacheKey, make_cache_key}
use doggy_dns.Cache.Entry.{CacheValue, byte_or_zero}
use doggy_dns.Cache.Middleware.{compute_cache_entry, entry_ttl}
use doggy_dns.Kernel.Memory.{Frame, HasBytes, read_u16_be}
use doggy_dns.Kernel.Question.{Question, parse_dns_question}
use doggy_dns.Kernel.Question.Names.{IsLabel, wire_labels, Asks, parse-make_cache_key}
use doggy_dns.Kernel.Program.{finished, tx, hit, Query, parse_query, key_of, try_dns_xdp}
use doggy_dns.Kernel.Program.Served.{hit-IsCachedReply}

-- The kernel looks a query up under the key that userspace makes of the same name, type and class.
pub key_of-make_cache_key :
    (f : Frame) (dns_offset : ℕ) (name : Name) (qtype qclass : ℕ) (question : Question)
    → HasBytes f.byte
    → All IsLabel name
    → length (wire_labels name) < 255
    → Asks f dns_offset name qtype qclass
    → parse_dns_question f dns_offset ≡ some question
    → key_of question ≡ make_cache_key name qtype qclass
unfolding key_of make_cache_key
key_of-make_cache_key f dns_offset name qtype qclass question bytes ok short asks parsed =
    let there = parse-make_cache_key f dns_offset name qtype qclass bytes ok short asks in
    ground arith

-- What a stored positive response holds.
pub stored_positive :
    (name : Name) (qtype qclass : ℕ) (response : List ℕ) (ttl : Option ℕ) (negative_ttl now i : ℕ)
    → length response ≤ 512
    → let v : CacheValue =
        (compute_cache_entry name qtype qclass no_error response ttl negative_ttl now).1 in
      (v.resp_len ≡ length response)
      × (v.expires_at ≡ (now + entry_ttl false ttl negative_ttl * 1_000_000_000) % 2 ^ 64)
      × (i < length response → v.resp_data i ≡ byte_or_zero response i)
unfolding compute_cache_entry
stored_positive name qtype qclass response ttl negative_ttl now i fits =
    let whole : min (length response) 512 ≡ length response = omega arith in
    rw whole (omega arith, refl, λ (h : i < length response). ground arith)

-- When the cache holds the entry that the middleware made of a positive response of at most 512 bytes
-- to a question, a packet that asks the same question and is counted as a hit goes back with that
-- response behind the packet's own transaction id, and the entry's lifetime is not over.
pub hit-returns_response :
    (adjust_tail : Frame → (old new : ℕ) → Option Frame) (config : Option ℕ)
    (cache : CacheKey → Option CacheValue) (now : ℕ) (f f' : Frame) (name : Name) (qtype qclass : ℕ)
    (response : List ℕ) (ttl : Option ℕ) (negative_ttl stored_at : ℕ)
    → HasBytes f.byte
    → All IsLabel name
    → length (wire_labels name) < 255
    → ((q : Query) → parse_query config f ≡ some q → Asks f q.dns_offset name qtype qclass)
    → length response ≤ 512
    → cache (make_cache_key name qtype qclass)
      ≡ some (compute_cache_entry name qtype qclass no_error response ttl negative_ttl stored_at).1
    → try_dns_xdp adjust_tail config cache now f ≡ finished tx (some hit) f'
    → (q : Query) × (parse_query config f ≡ some q)
      × (now < (stored_at + entry_ttl false ttl negative_ttl * 1_000_000_000) % 2 ^ 64)
      × (read_u16_be f'.byte q.dns_offset ≡ read_u16_be f.byte q.dns_offset)
      × ((i : ℕ)
          → 2 ≤ i
          → i < length response
          → f'.byte (q.dns_offset + i) ≡ byte_or_zero response i)
hit-returns_response adjust_tail config cache now f f' name qtype qclass response ttl negative_ttl
      stored_at bytes ok short asks fits held sent =
    let r = hit-IsCachedReply adjust_tail config cache now f f' sent in
    let q = r.q in
    let key =
      key_of-make_cache_key f q.dns_offset name qtype qclass q.question bytes ok short
        (asks q r.taken) r.asked.parsed in
    let v =
      (compute_cache_entry name qtype qclass no_error response ttl negative_ttl stored_at).1 in
    let same : r.entry ≡ v = cc (key, r.cached, held) in
    let facts =
      λ (i : ℕ). stored_positive name qtype qclass response ttl negative_ttl stored_at i fits in
    (
      q,
      r.taken,
      rw (← (facts 0).1, ← same) r.fresh,
      r.same_id,
      λ i lo hi.
          r.body i lo (omega (arith, ap (λ (e : CacheValue). e.resp_len) same, (facts i).0))
          ∙ ap (λ (e : CacheValue). e.resp_data i) same
          ∙ (facts i).2 hi,
    )
