-- ===== src/Cache/Middleware.antt =====
-- The cache-writing middleware: crates/doggy-dns-xdp/src/middleware.rs and
-- middleware/xdp_cache.rs. The BPF map is abstract: `insert` is `DnsCacheMap::insert`, `none` its
-- failure, which is only logged. `request_info` is what the request parses to.
use doggy_dns.Common.{
  ℕ, ◌+◌, ◌*◌, ◌%◌, ◌^◌, Bool, true, false, not, ◌&&◌, Option, none, some, List, if◌then◌else◌,
}
use doggy_dns.Common.Dns.{ResponseCode, is_no_error, is_nx_domain, Name}
use doggy_dns.Cache.Hash.{CacheKey, make_cache_key}
use doggy_dns.Cache.Entry.{CacheValue, new_positive, new_negative}
use doggy_dns.Plugin.Outcome.{RequestOutcome}

-- The u64 nanoseconds wrap as release builds do.
unfoldable pub entry_ttl : Bool → Option ℕ → (negative_ttl : ℕ) → ℕ
entry_ttl true min_answer_ttl negative_ttl = negative_ttl
entry_ttl false none negative_ttl = negative_ttl % 2 ^ 32
entry_ttl false (some ttl) negative_ttl = ttl

unfoldable pub compute_cache_entry :
    Name
    → (qtype qclass : ℕ) → ResponseCode
    → List ℕ
    → Option ℕ
    → (negative_ttl now_ns : ℕ) → CacheKey × CacheValue
unfolding entry_ttl new_positive new_negative
compute_cache_entry qname qtype qclass code resp_bytes min_answer_ttl negative_ttl now_ns =
    let is_negative = is_nx_domain code in
    let ttl = entry_ttl is_negative min_answer_ttl negative_ttl in
    let expires_at = (now_ns + ttl * 1_000_000_000) % 2 ^ 64 in
    (
      make_cache_key qname qtype qclass,
      (if is_negative
          then new_negative resp_bytes expires_at
          else new_positive resp_bytes expires_at),
    )

pub record QueryInfo : Type 0 where
  pub qname : Name
  pub qtype : ℕ
  pub qclass : ℕ

module _ {ℓ} {M : Type ℓ} (insert : M → CacheKey → CacheValue → Option M) (negative_ttl : ℕ) where
  stored : M → Option M → M
  stored cache none = cache
  stored cache (some cache') = cache'

  -- The query is known and the response is there.
  write_entry : M → RequestOutcome → List ℕ → QueryInfo → (now_ns : ℕ) → M
  write_entry cache outcome resp_bytes info now_ns =
      let (key, value) =
        compute_cache_entry info.qname info.qtype info.qclass outcome.response_code resp_bytes
          outcome.min_answer_ttl negative_ttl now_ns in
      stored cache (insert cache key value)

  pub after_request : M → (request_info : Option QueryInfo) → RequestOutcome → (now_ns : ℕ) → M
  unfolding write_entry stored
  after_request cache request_info outcome now_ns =
      if not (is_no_error outcome.response_code) && not (is_nx_domain outcome.response_code)
      then cache
      else elim outcome.response_bytes [
        | none ↦ cache
        | some resp_bytes ↦ elim request_info [
          | none ↦ cache
          | some info ↦ write_entry cache outcome resp_bytes info now_ns
        ]
      ]
