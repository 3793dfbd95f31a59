-- ===== src/Kernel/Headers.antt =====
-- `finalize_headers` of xdp/doggy-dns-xdp-ebpf/src/main.rs. `none` is `Err(())`.
pub mod Checksum
pub mod Payload
use doggy_dns.Common.{ℕ, ◌+◌, ◌-◌, ◌/◌, ◌%◌, ◌^◌, bit_or, Option, none, some, ltb, if◌then◌else◌}
use doggy_dns.Kernel.Memory.{Memory, Frame, swap_u16, swap_u32, read_u16_be, write_u16_be}

abbrev pub eth_hdr_len : ℕ
eth_hdr_len = 14

abbrev pub ip_hdr_size : ℕ
ip_hdr_size = 20

abbrev pub udp_hdr_len : ℕ
udp_hdr_len = 8

abbrev not16 : ℕ → ℕ
not16 x = 2 ^ 16 - 1 - x

-- (sum & 0xFFFF) + (sum >> 16)
abbrev fold : ℕ → ℕ
fold sum = sum % 2 ^ 16 + sum / 2 ^ 16

-- HC' = ~(~HC + ~m + m') over the two words that changed (RFC 1624).
unfoldable pub updated_check : (old_check old_tot_len new_tot_len old_frag_off new_frag_off : ℕ) → ℕ
updated_check old_check old_tot_len new_tot_len old_frag_off new_frag_off =
    let sum =
      not16 old_check + not16 old_tot_len + new_tot_len + not16 old_frag_off + new_frag_off in
    not16 (fold (fold sum) % 2 ^ 16)

-- Ethernet: the two addresses change places, in halves of four and two bytes.
unfoldable pub swap_eth : Memory → Memory
swap_eth m = swap_u16 (swap_u32 m 0 6) 4 10

unfoldable pub rewrite_ip : Memory → (ip_hdr_len new_dns_len : ℕ) → Memory
unfolding updated_check
rewrite_ip m ip_hdr_len new_dns_len =
    let ip = eth_hdr_len in
    let old_tot_len = read_u16_be m (ip + 2) in
    let old_frag_off = read_u16_be m (ip + 6) in
    let old_check = read_u16_be m (ip + 10) in
    let swapped = swap_u32 m (ip + 12) (ip + 16) in
    let new_tot_len = (ip_hdr_len + udp_hdr_len + new_dns_len) % 2 ^ 16 in
    let new_frag_off = bit_or old_frag_off 0x4000 in
    let sized = write_u16_be swapped (ip + 2) new_tot_len in
    let unfragmented = write_u16_be sized (ip + 6) new_frag_off in
    write_u16_be unfragmented (ip + 10)
      (updated_check old_check old_tot_len new_tot_len old_frag_off new_frag_off)

unfoldable pub rewrite_udp : Memory → (udp_offset new_dns_len : ℕ) → Memory
rewrite_udp m udp_offset new_dns_len =
    let swapped = swap_u16 m udp_offset (udp_offset + 2) in
    let sized = write_u16_be swapped (udp_offset + 4) ((udp_hdr_len + new_dns_len) % 2 ^ 16) in
    write_u16_be sized (udp_offset + 6) 0

unfoldable pub finalize_headers :
    Memory → (end ip_hdr_len udp_offset new_dns_len : ℕ) → Option Memory
finalize_headers m end ip_hdr_len udp_offset new_dns_len =
    if ltb end eth_hdr_len
    then none
    else if ltb end (eth_hdr_len + ip_hdr_size)
    then none
    else if ltb end (udp_offset + udp_hdr_len)
    then none
    else some (rewrite_udp (rewrite_ip (swap_eth m) ip_hdr_len new_dns_len) udp_offset new_dns_len)
