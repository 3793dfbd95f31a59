-- ===== src/Kernel/Headers/Checksum.antt =====
-- The incremental update of the IPv4 header checksum.
use doggy_dns.Common.{ℕ, ◌+◌, ◌%◌, ◌<◌, ◌≡◌, arith}
use doggy_dns.Kernel.Headers.{updated_check}

-- The new checksum fits in sixteen bits, and if the old header summed to the valid one's complement
-- sum (a multiple of 65535, with `rest` for the words that do not change), so does the new one.
pub updated_check-valid :
    (old_check old_tot new_tot old_frag new_frag rest : ℕ)
    → old_check < 65536
    → old_tot < 65536
    → new_tot < 65536
    → old_frag < 65536
    → new_frag < 65536
    → (old_check + old_tot + old_frag + rest) % 65535 ≡ 0
    → (updated_check old_check old_tot new_tot old_frag new_frag < 65536)
      × ((updated_check old_check old_tot new_tot old_frag new_frag + new_tot + new_frag + rest)
            % 65535
          ≡ 0)
unfolding updated_check
updated_check-valid old_check old_tot new_tot old_frag new_frag rest a b c d e h =
    (omega arith, omega arith)
