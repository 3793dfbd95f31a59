-- ===== src/Handler/Rotation.antt =====
-- `AnswerRotation`: the cursor of crates/doggy-dns-core/src/handler.rs. The counter is a usize of
-- 64 bits, which wraps as `fetch_add` does.
pub mod Turns
use doggy_dns.Common.{
  ℕ, ◌+◌, ◌%◌, ◌^◌, Bool, true, false, not, ◌||◌, List, ◌++◌, ltb, if◌then◌else◌, length, take,
  drop,
}

pub record AnswerRotation : Type 0 where
  pub enabled : Bool
  pub cursor : ℕ

unfoldable pub new_rotation : Bool → AnswerRotation
new_rotation enabled = record { enabled = enabled; cursor = 0 }

module _ {ℓ} {A : Type ℓ} where
  abbrev pub rotate_left : ℕ → List A → List A
  rotate_left offset xs = drop offset xs ++ take offset xs

  unfoldable pub apply : AnswerRotation → List A → AnswerRotation × List A
  apply r records = if not r.enabled || ltb (length records) 2 then (r, records) else (
    record r { cursor = (r.cursor + 1) % 2 ^ 64 },
    rotate_left (r.cursor % length records) records,
  )
