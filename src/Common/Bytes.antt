-- ===== src/Common/Bytes.antt =====
-- Bytes and the little-endian words made of them.
use Prim.Native.Nat.{ℕ, zero, suc, ◌+◌, ◌*◌, ◌<◌}
use mathlib.Core.Bool.{◌&&◌}
use mathlib.Core.List.{List, [], ◌∷◌}
use doggy_dns.Common.Tests.{leb, if◌then◌else◌}
use doggy_dns.Common.Lists.{All}

abbrev pub IsByte : ℕ → Type 0
IsByte b = b < 256

abbrev pub AllBytes : List ℕ → Type 0
AllBytes bs = All IsByte bs

-- u64::from_le_bytes; a list of fewer than eight bytes stands for its zero-padded word.
abbrev pub le_word : List ℕ → ℕ
le_word [] = 0
le_word (b ∷ bs) = b + 256 * le_word bs

-- u8::to_ascii_lowercase
abbrev pub to_ascii_lowercase : ℕ → ℕ
to_ascii_lowercase b = if leb b'A' b && leb b b'Z' then b + 32 else b

-- The byte c repeated n times, and the number of words of n bytes.
abbrev pub repeated : ℕ → ℕ → ℕ
repeated c zero = 0
repeated c (suc n) = c + 256 * repeated c n

abbrev pub span : ℕ → ℕ
span zero = 1
span (suc n) = 256 * span n
