-- ===== src/Kernel/Headers/Payload.antt =====
-- The header rewrite leaves the DNS message alone, and does not fail on a frame that holds it.
use doggy_dns.Common.{ℕ, ◌+◌, ◌≤◌, ◌≡◌, ◌∙◌, some, arith, ap, sym}
use doggy_dns.Kernel.Memory.{Memory, swap_u16, swap_u32, write_u16_be}
use doggy_dns.Kernel.Headers.{swap_eth, rewrite_ip, rewrite_udp, finalize_headers}

swap_u32-above : (m : Memory) (a b j : ℕ) → a + 4 ≤ j → b + 4 ≤ j → swap_u32 m a b j ≡ m j
unfolding swap_u32
swap_u32-above m a b j p q = ground arith

swap_u16-above : (m : Memory) (a b j : ℕ) → a + 2 ≤ j → b + 2 ≤ j → swap_u16 m a b j ≡ m j
unfolding swap_u16
swap_u16-above m a b j p q = ground arith

write_u16_be-above : (m : Memory) (p v j : ℕ) → p + 2 ≤ j → write_u16_be m p v j ≡ m j
unfolding write_u16_be
write_u16_be-above m p v j h = ground arith

swap_eth-above : (m : Memory) (j : ℕ) → 14 ≤ j → swap_eth m j ≡ m j
unfolding swap_eth
swap_eth-above m j h =
    swap_u16-above (swap_u32 m 0 6) 4 10 j (omega arith) (omega arith)
    ∙ swap_u32-above m 0 6 j (omega arith) (omega arith)

rewrite_ip-above : (m : Memory) (ihl new j : ℕ) → 34 ≤ j → rewrite_ip m ihl new j ≡ m j
unfolding rewrite_ip
rewrite_ip-above m ihl new j h =
    write_u16_be-above _ 24 _ j (omega arith)
    ∙ write_u16_be-above _ 20 _ j (omega arith)
    ∙ write_u16_be-above _ 16 _ j (omega arith)
    ∙ swap_u32-above m 26 30 j (omega arith) (omega arith)

rewrite_udp-above : (m : Memory) (udp new j : ℕ) → udp + 8 ≤ j → rewrite_udp m udp new j ≡ m j
unfolding rewrite_udp
rewrite_udp-above m udp new j h =
    write_u16_be-above _ (udp + 6) _ j (omega arith)
    ∙ write_u16_be-above _ (udp + 4) _ j (omega arith)
    ∙ swap_u16-above m udp (udp + 2) j (omega arith) (omega arith)

-- On a frame that reaches past the UDP header the rewrite succeeds.
pub finalize_headers_done :
    (m : Memory) (end ihl udp new : ℕ)
    → 34 ≤ udp
    → udp + 8 ≤ end
    → finalize_headers m end ihl udp new
      ≡ some (rewrite_udp (rewrite_ip (swap_eth m) ihl new) udp new)
unfolding finalize_headers
finalize_headers_done m end ihl udp new p q = ground arith

-- Once the headers are rewritten, no byte behind the UDP header has changed.
pub payload_kept :
    (m : Memory) (end ihl udp new : ℕ) (m' : Memory) (j : ℕ)
    → 34 ≤ udp
    → udp + 8 ≤ end
    → finalize_headers m end ihl udp new ≡ some m'
    → udp + 8 ≤ j
    → m' j ≡ m j
payload_kept m end ihl udp new m' j p q e h =
    let done = finalize_headers_done m end ihl udp new p q in
    let same : rewrite_udp (rewrite_ip (swap_eth m) ihl new) udp new ≡ m' = cc in
    ap (λ (g : Memory). g j) (sym same)
    ∙ rewrite_udp-above (rewrite_ip (swap_eth m) ihl new) udp new j h
    ∙ rewrite_ip-above (swap_eth m) ihl new j (omega arith)
    ∙ swap_eth-above m j (omega arith)
