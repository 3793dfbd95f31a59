-- ===== src/Kernel/Reply/Copy.antt =====
-- The chunked copy of `write_positive` writes exactly the cached response.
use doggy_dns.Common.{
  ℕ, zero, suc, ◌+◌, ◌-◌, ◌*◌, ◌%◌, ◌/◌, ◌≤◌, ◌<◌, ◌≡◌, ap, ◌∙◌, fun_ext, true, false, ◌&&◌, ◌||◌,
  some, arith, ltb, leb, ◌==◌, if◌then◌else◌, Bool-cases, inl, inr,
}
use doggy_dns.Common.Bits.{and-fifteen}
use doggy_dns.Kernel.Memory.{Memory, move, copy_chunk, write_u16_be}
use doggy_dns.Kernel.Reply.{copy_loop, write_positive, min_positive_len, max_dns_len}
use doggy_dns.Cache.Entry.{CacheValue}

-- Two moves of neighbouring stretches are one move.
move-move :
    (a b : ℕ) (m : Memory) (to : ℕ) (src : Memory) (from : ℕ)
    → move a (move b m to src from) (to + b) src (from + b) ≡ move (b + a) m to src from
move-move a b m to src from = fun_ext λ j. elim (Bool-cases (leb (to + b) j)) [
  | inl high ↦
      let index : from + b + (j - (to + b)) ≡ from + (j - to) = ground arith in
      rw index (ground arith)
  | inr low ↦ ground arith
]

copy_chunk-move :
    (m : Memory) (dst : ℕ) (src : Memory) (off : ℕ)
    → copy_chunk m dst src off ≡ move 16 m dst src off
unfolding copy_chunk
copy_chunk-move m dst src off = move-move 8 8 m dst src off

-- A move of nothing.
move-zero : (m : Memory) (to : ℕ) (src : Memory) (from : ℕ) → move 0 m to src from ≡ m
move-zero m to src from = fun_ext λ j. ground arith

module _ (dns end : ℕ) (src : Memory) (resp_len : ℕ) (room : dns + resp_len ≤ end) where
  -- From a whole number of chunks before its end the loop copies the rest, within the frame.
  copy_loop_lem :
      (fuel chunks i : ℕ) (m : Memory)
      → i + chunks * 16 ≡ resp_len
      → chunks < fuel
      → copy_loop fuel m dns end src resp_len i ≡ some (move (chunks * 16) m (dns + i) src i)
  unfolding copy_loop
  copy_loop_lem zero chunks i m e h = absurd (omega arith)
  copy_loop_lem (suc fuel) zero i m e h =
      let done : ltb i resp_len ≡ false = ground arith in rw (done, move-zero)
  copy_loop_lem (suc fuel) (suc chunks) i m e h =
      let more : ltb i resp_len ≡ true = ground arith in
      let fits : ltb end (dns + i + 16) ≡ false = ground arith in
      let rest =
        copy_loop_lem fuel chunks (i + 16) (copy_chunk m (dns + i) src i) (omega arith)
          (omega arith) in
      let place : dns + (i + 16) ≡ dns + i + 16 = omega arith in
      let count : suc chunks * 16 ≡ 16 + chunks * 16 = omega arith in
      rw (more, fits, count)
        (rest
          ∙ ap some (rw (place, copy_chunk-move) (move-move (chunks * 16) 16 m (dns + i) src i)))

-- The leading chunk and the chunks from the remainder on cover the response.
move-overlap :
    (a lead : ℕ) (m : Memory) (to : ℕ) (src : Memory)
    → lead < 16
    → 16 ≤ lead + a
    → move a (move 16 m to src 0) (to + lead) src lead ≡ move (lead + a) m to src 0
move-overlap a lead m to src h k = fun_ext λ j. elim (Bool-cases (leb (to + lead) j)) [
  | inl high ↦
      let index : lead + (j - (to + lead)) ≡ 0 + (j - to) = ground arith in rw index (ground arith)
  | inr low ↦ ground arith
]

-- The memory that a cached reply should leave: the query's id, then the cached bytes behind it.
abbrev pub answered : Memory → (dns : ℕ) → CacheValue → (resp_len txid : ℕ) → Memory
answered m dns entry resp_len txid j =
    if j == dns
    then txid / 256
    else if j == dns + 1
    then txid % 256
    else if leb dns j && ltb j (dns + resp_len)
    then entry.resp_data (j - dns)
    else m j

stamped :
    (m : Memory) (dns : ℕ) (entry : CacheValue) (resp_len txid : ℕ)
    → write_u16_be (move resp_len m dns entry.resp_data 0) dns txid
      ≡ answered m dns entry resp_len txid
unfolding write_u16_be
stamped m dns entry resp_len txid =
    fun_ext λ j. let index : 0 + (j - dns) ≡ j - dns = omega arith in rw index (ground arith)

-- With a length in range and room in the frame, `write_positive` succeeds, and the memory is the old
-- one with the first `resp_len` bytes of the cached response at the DNS offset, under the query's id.
pub write_positive_lem :
    (m : Memory) (dns end : ℕ) (entry : CacheValue) (resp_len txid : ℕ)
    → min_positive_len ≤ resp_len
    → resp_len ≤ max_dns_len
    → dns + resp_len ≤ end
    → write_positive m dns end entry resp_len txid ≡ some (answered m dns entry resp_len txid)
unfolding write_positive
write_positive_lem m dns end entry resp_len txid lo hi room =
    let src = entry.resp_data in
    let lead = resp_len % 16 in
    let chunks = resp_len / 16 in
    let in_range : (ltb resp_len min_positive_len || ltb max_dns_len resp_len) ≡ false =
      ground arith in
    let id_fits : ltb end (dns + 2) ≡ false = ground arith in
    let chunk_fits : ltb end (dns + 16) ≡ false = ground arith in
    let start : dns + 0 ≡ dns = omega arith in
    rw (in_range, and-fifteen)
      (elim (Bool-cases (lead == 0)) [
        | inl whole ↦
            let none_left : lead ≡ 0 = ground arith in
            let all_chunks : chunks * 16 ≡ resp_len = omega arith in
            let copied =
              copy_loop_lem dns end src resp_len room 33 chunks 0 m (omega arith) (omega arith) in
            rw none_left (
              rw copied
                (rw (id_fits, all_chunks, start) (ap some (stamped m dns entry resp_len txid))))
        | inr part ↦
            let copied =
              copy_loop_lem dns end src resp_len room 33 chunks lead (copy_chunk m dns src 0)
                (omega arith) (omega arith) in
            let total : lead + chunks * 16 ≡ resp_len = omega arith in
            let covered = move-overlap (chunks * 16) lead m dns src (omega arith) (omega arith) in
            rw (part, chunk_fits)
              (rw copied (
                rw (id_fits, copy_chunk-move, covered, total)
                  (ap some (stamped m dns entry resp_len txid))))
      ])
