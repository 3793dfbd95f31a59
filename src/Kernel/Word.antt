-- ===== src/Kernel/Word.antt =====
-- The word arithmetic of the QNAME hash: xdp/doggy-dns-xdp-ebpf/src/main.rs.
-- A u64 is a number below 2 ^ 64; `!w` is `not64 w`, and a shift is a division by a power of two.
pub mod Lower
pub mod Marks
pub mod Zeros
use doggy_dns.Common.{
  ℕ, zero, suc, ◌+◌, ◌-◌, ◌*◌, ◌/◌, ◌%◌, ◌^◌, bit_and, bit_or, bit_xor, ◌==◌, if◌then◌else◌,
}

abbrev pub fnv_offset_basis : ℕ
fnv_offset_basis = 0xcbf29ce484222325

abbrev pub fnv_prime : ℕ
fnv_prime = 0x100000001b3

abbrev pub byte_ones : ℕ
byte_ones = 0x0101010101010101

abbrev pub byte_highs : ℕ
byte_highs = 0x8080808080808080

abbrev not64 : ℕ → ℕ
not64 w = 2 ^ 64 - 1 - w

-- Fold one little-endian word into the running hash.
unfoldable pub fnv1a_word : ℕ → ℕ → ℕ
fnv1a_word hash word = (bit_xor hash word * fnv_prime) % 2 ^ 64

-- Lowercase the ASCII letters in every byte, without branches.
unfoldable pub lower_word : ℕ → ℕ
lower_word word =
    let ge_a =
      bit_and (bit_and (bit_or word byte_highs - 0x4141414141414141) (not64 word)) byte_highs in
    let gt_z =
      bit_and (bit_and (bit_or word byte_highs - 0x5B5B5B5B5B5B5B5B) (not64 word)) byte_highs in
    bit_or word (bit_and ge_a (not64 gt_z) / 4)

-- The loop of `zero_index`, with the rounds that are left.
zero_index_from : ℕ → ℕ → ℕ → ℕ
zero_index_from zero i word = 8
zero_index_from (suc rounds) i word =
    let later = zero_index_from rounds (i + 1) word in
    if bit_and (word / 2 ^ (i * 8)) 0xFF == 0 then i else later

unfoldable pub zero_index : ℕ → ℕ
unfolding zero_index_from
zero_index word = zero_index_from 8 0 word

-- The marker bits of the zero bytes; those above the lowest marker may be false.
unfoldable pub zero_marks : ℕ → ℕ
zero_marks word = bit_and (bit_and ((word + 2 ^ 64 - byte_ones) % 2 ^ 64) (not64 word)) byte_highs

-- The lowercased block up to its terminator: `lower_word(word) & (first - 1)`.
unfoldable pub block_before_terminator : ℕ → ℕ
unfolding lower_word zero_marks
block_before_terminator word =
    let zeros = zero_marks word in
    let first = bit_and zeros ((2 ^ 64 - zeros) % 2 ^ 64) in bit_and (lower_word word) (first - 1)
