-- ===== src/Cache/Hash.antt =====
-- The cache key of a name: crates/doggy-dns-xdp/src/cache.rs.
-- A `Name` is the list of its labels, as `Name::iter` yields them, each label a list of bytes.
pub mod Laws
use doggy_dns.Common.{
  ℕ, zero, suc, ◌+◌, ◌-◌, ◌*◌, ◌/◌, ◌%◌, ◌^◌, bit_or, bit_xor, List, [], ◌∷◌, ◌++◌, map, length,
  take, drop, le_word, to_ascii_lowercase,
}

abbrev pub fnv_offset_basis : ℕ
fnv_offset_basis = 0xcbf29ce484222325

abbrev fnv_prime : ℕ
fnv_prime = 0x100000001b3

unfoldable pub fnv1a_word : ℕ → ℕ → ℕ
fnv1a_word hash word = (bit_xor hash word * fnv_prime) % 2 ^ 64

abbrev zeros : ℕ → List ℕ
zeros zero = []
zeros (suc n) = 0 ∷ zeros n

-- `padded[..tail.len()].copy_from_slice(tail)` over eight zero bytes.
padded : List ℕ → List ℕ
padded tail = tail ++ zeros (8 - length tail)

hash_tail : ℕ → List ℕ → ℕ
unfolding padded
hash_tail hash [] = hash
hash_tail hash (b ∷ tail) = fnv1a_word hash (le_word (padded (b ∷ tail)))

-- The loop over the chunks of `as_chunks::<8>`, then the tail.
hash_chunks : ℕ → ℕ → List ℕ → ℕ
hash_chunks zero hash tail = hash_tail hash tail
hash_chunks (suc chunks) hash bytes =
    hash_chunks chunks (fnv1a_word hash (le_word (take 8 bytes))) (drop 8 bytes)

-- The body of `fnv1a_64` from a running hash.
unfoldable pub fnv1a_from : ℕ → List ℕ → ℕ
unfolding hash_chunks hash_tail fnv1a_word
fnv1a_from hash bytes = hash_chunks (length bytes / 8) hash bytes

unfoldable pub fnv1a_64 : List ℕ → ℕ
unfolding fnv1a_from
fnv1a_64 bytes = fnv1a_from fnv_offset_basis bytes

pub record CacheKey : Type 0 where
  pub name_hash : ℕ
  pub qtype_class : ℕ
  pub pad : ℕ

-- The loop of `make_cache_key` over the labels, with the root label's zero byte at the end.
unfoldable pub lowercase_wire : List (List ℕ) → List ℕ
lowercase_wire [] = 0 ∷ []
lowercase_wire (label ∷ labels) =
    (length label % 256) ∷ (map to_ascii_lowercase label ++ lowercase_wire labels)

unfoldable pub make_cache_key : List (List ℕ) → ℕ → ℕ → CacheKey
unfolding fnv1a_64 lowercase_wire
make_cache_key name qtype qclass = record {
  name_hash = fnv1a_64 (lowercase_wire name);
  qtype_class = bit_or (qtype * 2 ^ 16 % 2 ^ 32) qclass;
  pad = 0;
}
