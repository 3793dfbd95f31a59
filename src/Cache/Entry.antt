-- ===== src/Cache/Entry.antt =====
-- The value of a cache entry: crates/doggy-dns-xdp/src/types.rs and, field by field the same,
-- xdp/doggy-dns-xdp-ebpf/src/types.rs. `resp_data` is read by index; behind 512 bytes it is 0.
use mathlib.Core.Bool.{not}
use doggy_dns.Common.{
  ℕ, zero, suc, ◌%◌, ◌^◌, min, bit_and, Bool, List, [], ◌∷◌, length, ltb, ◌==◌, if◌then◌else◌,
}

abbrev pub flag_negative : ℕ
flag_negative = 1

abbrev pub max_response_size : ℕ
max_response_size = 512

pub record CacheValue : Type 0 where
  pub resp_data : ℕ → ℕ
  pub resp_len : ℕ
  pub flags : ℕ
  pub pad : ℕ
  pub expires_at : ℕ

-- A byte of a Vec<u8>, 0 behind its end.
abbrev pub byte_or_zero : List ℕ → ℕ → ℕ
byte_or_zero [] i = 0
byte_or_zero (b ∷ bs) zero = b
byte_or_zero (b ∷ bs) (suc i) = byte_or_zero bs i

-- The response is cut to `max_response_size`.
unfoldable pub from_response : List ℕ → ℕ → Bool → CacheValue
from_response resp_data expires_at negative =
    let len = min (length resp_data) max_response_size in
    record {
      resp_data = λ i. if ltb i len then byte_or_zero resp_data i else 0;
      resp_len = len % 2 ^ 16;
      flags = if negative then flag_negative else 0;
      pad = 0;
      expires_at = expires_at;
    }

unfoldable pub new_positive : List ℕ → ℕ → CacheValue
unfolding from_response
new_positive resp_data expires_at = from_response resp_data expires_at Bool.false

unfoldable pub new_negative : List ℕ → ℕ → CacheValue
unfolding from_response
new_negative resp_data expires_at = from_response resp_data expires_at Bool.true

unfoldable pub is_negative : CacheValue → Bool
is_negative v = not (bit_and v.flags flag_negative == 0)
