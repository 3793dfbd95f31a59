-- ===== src/Kernel/Memory.antt =====
-- Packet memory and the byte helpers: xdp/doggy-dns-xdp-ebpf/src/protocol.rs.
-- A pointer is an offset from `ctx.data()`, and `ctx.data_end()` is the frame's size. The helpers check
-- no bound, as in the source: every caller does.
use doggy_dns.Common.{
  ℕ, zero, suc, ◌+◌, ◌-◌, ◌*◌, ◌/◌, ◌%◌, ◌<◌, ◌&&◌, List, [], ◌∷◌, ltb, leb, ◌==◌, if◌then◌else◌,
  le_word,
}

abbrev pub Memory : Type 0
Memory = ℕ → ℕ

pub record Frame : Type 0 where
  pub byte : Memory
  pub size : ℕ

abbrev pub HasBytes : Memory → Type 0
HasBytes m = (i : ℕ) → m i < 256

abbrev pub bytes_at : Memory → ℕ → ℕ → List ℕ
bytes_at m p zero = []
bytes_at m p (suc n) = m p ∷ bytes_at m (p + 1) n

-- A load of eight bytes as a little-endian u64.
abbrev pub load_word : Memory → ℕ → ℕ
load_word m p = le_word (bytes_at m p 8)

-- Store the byte v at i.
abbrev pub store : Memory → ℕ → ℕ → Memory
store m i v j = if j == i then v else m j

-- `n` bytes moved from `src` at `from` to `m` at `to`; the value is read whole before it is written.
abbrev pub move : ℕ → Memory → ℕ → Memory → ℕ → Memory
move n m to src from j = if leb to j && ltb j (to + n) then src (from + (j - to)) else m j

-- (hi << 8) | lo; the two bytes share no bit.
unfoldable pub read_u16_be : Memory → ℕ → ℕ
read_u16_be m p = m p * 256 + m (p + 1)

unfoldable pub write_u16_be : Memory → ℕ → ℕ → Memory
write_u16_be m p val = store (store m p (val / 256)) (p + 1) (val % 256)

-- Two u64 moves.
unfoldable pub copy_chunk : Memory → ℕ → Memory → ℕ → Memory
copy_chunk m dst src src_off = move 8 (move 8 m dst src src_off) (dst + 8) src (src_off + 8)

unfoldable pub swap_u16 : Memory → ℕ → ℕ → Memory
swap_u16 m a b = move 2 (move 2 m a m b) b m a

unfoldable pub swap_u32 : Memory → ℕ → ℕ → Memory
swap_u32 m a b = move 4 (move 4 m a m b) b m a
