-- ===== src/Kernel/Reply.antt =====
-- The reply in the packet: `write_nxdomain` and `write_positive` of
-- xdp/doggy-dns-xdp-ebpf/src/main.rs. `none` is `Err(())`; the log lines are left out.
pub mod Copy
use doggy_dns.Common.{
  ℕ, zero, suc, ◌+◌, ◌-◌, bit_and, bit_or, Bool, ◌||◌, Option, none, some, ltb, ◌==◌, if◌then◌else◌,
}
use doggy_dns.Kernel.Memory.{Memory, copy_chunk, read_u16_be, write_u16_be}
use doggy_dns.Kernel.Question.{dns_hdr_len}
use doggy_dns.Cache.Entry.{CacheValue}

abbrev pub max_dns_len : ℕ
max_dns_len = 512

-- Header, a one-byte QNAME and QTYPE with QCLASS.
abbrev pub min_positive_len : ℕ
min_positive_len = 17

abbrev pub chunk_size : ℕ
chunk_size = 16

-- The flags of the reply keep the query's RD bit.
unfoldable pub nxdomain_flags : ℕ → ℕ
nxdomain_flags orig_flags = bit_or (bit_or 0x8000 (bit_and orig_flags 0x0100)) 0x0003

unfoldable pub write_nxdomain : Memory → (dns end : ℕ) → Option Memory
unfolding nxdomain_flags
write_nxdomain m dns end =
    if ltb end (dns + dns_hdr_len)
    then none
    else let new_flags = nxdomain_flags (read_u16_be m (dns + 2)) in
      let m' = write_u16_be m (dns + 2) new_flags in
      some (write_u16_be (write_u16_be (write_u16_be m' (dns + 6) 0) (dns + 8) 0) (dns + 10) 0)

-- `while i < resp_len`; 32 chunks hold the largest reply, so 33 rounds end by the test.
copy_loop : ℕ → Memory → (dns end : ℕ) → Memory → (resp_len i : ℕ) → Option Memory
copy_loop zero m dns end src resp_len i = none
copy_loop (suc fuel) m dns end src resp_len i =
    let next =
      copy_loop fuel (copy_chunk m (dns + i) src i) dns end src resp_len (i + chunk_size) in
    if ltb i resp_len then (if ltb end (dns + i + chunk_size) then none else next) else some m

-- The leading chunk, so that the loop ends exactly at `resp_len`.
copy_lead : Memory → (dns end : ℕ) → Memory → ℕ → Option Memory
copy_lead m dns end src lead =
    if lead == 0
    then some m
    else if ltb end (dns + chunk_size)
    then none
    else some (copy_chunk m dns src 0)

write_txid : (dns end txid : ℕ) → Option Memory → Option Memory
write_txid dns end txid none = none
write_txid dns end txid (some m) =
    if ltb end (dns + 2) then none else some (write_u16_be m dns txid)

copy_rest : (dns end : ℕ) → Memory → (resp_len lead : ℕ) → Option Memory → Option Memory
copy_rest dns end src resp_len lead none = none
copy_rest dns end src resp_len lead (some m) = copy_loop 33 m dns end src resp_len lead

unfoldable pub write_positive :
    Memory → (dns end : ℕ) → CacheValue → (resp_len txid : ℕ) → Option Memory
unfolding copy_loop copy_lead write_txid copy_rest
write_positive m dns end entry resp_len txid =
    if ltb resp_len min_positive_len || ltb max_dns_len resp_len
    then none
    else let lead = bit_and resp_len (chunk_size - 1) in
      write_txid dns end txid
        (copy_rest dns end entry.resp_data resp_len lead (copy_lead m dns end entry.resp_data lead))
