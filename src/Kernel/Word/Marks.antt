-- ===== src/Kernel/Word/Marks.antt =====
-- The marker bits of a word, byte by byte from the lowest.
use doggy_dns.Common.{
  ℕ, zero, suc, ◌+◌, ◌-◌, ◌*◌, ◌/◌, ◌%◌, ◌≤◌, ◌<◌, bit_and, ◌≡◌, refl, ap, ◌∙◌, Bool, true, false,
  ◌||◌, List, [], ◌∷◌, arith, ltb, leb, ◌==◌, length, any, AllBytes, le_word, repeated, span,
  Bool-cases, inl, inr,
}
use doggy_dns.Common.Bits.{and_byte, and-le, all_below, all_below_sound}
use doggy_dns.Kernel.Word.Lower.{word-lt-span}

abbrev pub is_zero : ℕ → Bool
is_zero zero = true
is_zero (suc b) = false

abbrev pub has_zero : List ℕ → Bool
has_zero bs = any is_zero bs

-- The bytes that stand before the first zero.
abbrev pub before_zero : List ℕ → List ℕ
before_zero [] = []
before_zero (zero ∷ bs) = []
before_zero (suc b ∷ bs) = suc b ∷ before_zero bs

-- The zero test on words of n bytes.
abbrev pub marks : ℕ → ℕ → ℕ
marks n w =
    bit_and (bit_and ((w + span n - repeated 1 n) % span n) (span n - 1 - w)) (repeated 128 n)

wrap_low : (w m o : ℕ) → o ≤ w → w < m → (w + m - o) % m ≡ w - o
wrap_low w m o p q = grind arith

wrap_high : (w m o : ℕ) → w < o → o ≤ m → (w + m - o) % m ≡ w + m - o
wrap_high w m o p q = grind arith

ones-lt-span : (n : ℕ) → repeated 1 n < span n
ones-lt-span zero = omega arith
ones-lt-span (suc n) = omega (arith, ones-lt-span n)

highs-lt-span : (n : ℕ) → repeated 128 n < span n
highs-lt-span zero = omega arith
highs-lt-span (suc n) = omega (arith, highs-lt-span n)

pub marks-lt-span : (n w : ℕ) → marks n w < span n
marks-lt-span n w = omega (
  arith,
  highs-lt-span n,
  and-le (bit_and ((w + span n - repeated 1 n) % span n) (span n - 1 - w)) (repeated 128 n),
)

abbrev unmarked : ℕ → Bool
unmarked b = bit_and (bit_and (b - 1) (255 - b)) 128 == 0 || b == 0

abbrev half_empty : ℕ → Bool
half_empty b = bit_and b (255 - b) == 0

abbrev kept : ℕ → Bool
kept b = bit_and b 255 == b

tables :
    (all_below unmarked 256 ≡ true)
    × (all_below half_empty 256 ≡ true)
    × (all_below kept 256 ≡ true)
unfolding all_below
tables = (refl, refl, refl)

unmarked_lem : (b : ℕ) → 0 < b → b < 256 → bit_and (bit_and (b - 1) (255 - b)) 128 ≡ 0
unmarked_lem b p h = let t = all_below_sound unmarked 256 b tables.0 h in ground arith

half_empty_lem : (b : ℕ) → b < 256 → bit_and b (255 - b) ≡ 0
half_empty_lem b h = let t = all_below_sound half_empty 256 b tables.1 h in ground arith

pub kept_lem : (b : ℕ) → b < 256 → bit_and b 255 ≡ b
kept_lem b h = let t = all_below_sound kept 256 b tables.2 h in ground arith

-- A byte that is not zero borrows nothing and leaves no mark.
pub marks-cons_nonzero :
    (n b w : ℕ) → 0 < b → b < 256 → w < span n → marks (suc n) (b + 256 * w) ≡ 256 * marks n w
marks-cons_nonzero n b w p h fits =
    let m = span n in
    let o = repeated 1 n in
    let minus : (b + 256 * w + 256 * m - (1 + 256 * o)) % (256 * m)
        ≡ (b - 1) + 256 * ((w + m - o) % m) =
      elim (Bool-cases (leb o w)) [
        | inl low ↦
            rw
              (
                wrap_low w m o (ground arith) fits,
                wrap_low (b + 256 * w) (256 * m) (1 + 256 * o) (ground arith) (omega arith),
              )
              (ground arith)
        | inr high ↦
            rw
              (
                wrap_high w m o (ground arith) (omega (arith, ones-lt-span n)),
                wrap_high (b + 256 * w) (256 * m) (1 + 256 * o) (ground arith)
                    (omega (arith, ones-lt-span n)),
              )
              (ground (arith, ones-lt-span n))
      ] in
    let flip : 256 * m - 1 - (b + 256 * w) ≡ (255 - b) + 256 * (m - 1 - w) = omega arith in
    rw
      (
        minus,
        flip,
        and_byte (b - 1) (255 - b) ((w + m - o) % m) (m - 1 - w) (omega arith) (omega arith),
        and_byte (bit_and (b - 1) (255 - b)) 128 (bit_and ((w + m - o) % m) (m - 1 - w))
            (repeated 128 n) (omega (arith, and-le (b - 1) (255 - b))) (omega arith),
        unmarked_lem b p h,
      )
      (omega arith)

-- What a zero byte leaves above its own mark.
abbrev pub above : ℕ → ℕ → ℕ
above n w =
    bit_and (bit_and ((w + span n - (repeated 1 n + 1)) % span n) (span n - 1 - w)) (repeated 128 n)

pub above-lt-span : (n w : ℕ) → above n w < span n
above-lt-span n w = omega (
  arith,
  highs-lt-span n,
  and-le (bit_and ((w + span n - (repeated 1 n + 1)) % span n) (span n - 1 - w)) (repeated 128 n),
)

pub marks-cons_zero : (n w : ℕ) → w < span n → marks (suc n) (0 + 256 * w) ≡ 128 + 256 * above n w
marks-cons_zero n w fits =
    let m = span n in
    let o = repeated 1 n in
    let minus : (0 + 256 * w + 256 * m - (1 + 256 * o)) % (256 * m)
        ≡ 255 + 256 * ((w + m - (o + 1)) % m) =
      elim (Bool-cases (ltb o w)) [
        | inl low ↦
            rw
              (
                wrap_low w m (o + 1) (ground arith) fits,
                wrap_low (0 + 256 * w) (256 * m) (1 + 256 * o) (ground arith) (omega arith),
              )
              (ground arith)
        | inr high ↦
            rw
              (
                wrap_high w m (o + 1) (ground arith) (omega (arith, ones-lt-span n)),
                wrap_high (0 + 256 * w) (256 * m) (1 + 256 * o) (ground arith)
                    (omega (arith, ones-lt-span n)),
              )
              (ground (arith, ones-lt-span n))
      ] in
    let flip : 256 * m - 1 - (0 + 256 * w) ≡ 255 + 256 * (m - 1 - w) = omega arith in
    rw (
      minus,
      flip,
      and_byte 255 255 ((w + m - (o + 1)) % m) (m - 1 - w) (omega arith) (omega arith),
      and_byte (bit_and 255 255) 128 (bit_and ((w + m - (o + 1)) % m) (m - 1 - w)) (repeated 128 n)
          (omega arith) (omega arith),
    )

-- A word and its complement share no digit.
and-complement : (n j : ℕ) → j < span n → bit_and j (span n - 1 - j) ≡ 0
and-complement zero j h = let none_left : j ≡ 0 = omega arith in rw none_left
and-complement (suc n) j h =
    let split : j ≡ j % 256 + 256 * (j / 256) = omega arith in
    let flip : 256 * span n - 1 - j ≡ (255 - j % 256) + 256 * (span n - 1 - j / 256) =
      omega arith in
    rw flip (
      ap (λ x. bit_and x ((255 - j % 256) + 256 * (span n - 1 - j / 256))) split
      ∙ omega (
        arith,
        and_byte (j % 256) (255 - j % 256) (j / 256) (span n - 1 - j / 256) (omega arith)
            (omega arith),
        half_empty_lem (j % 256) (omega arith),
        and-complement n (j / 256) (omega arith),
      ))

-- The lowest marker of a word of n bytes: `zeros & zeros.wrapping_neg()`.
abbrev pub lowest : ℕ → ℕ → ℕ
lowest n z = bit_and z ((span n - z) % span n)

negated : (z m : ℕ) → 0 < z → z < m → (m - z) % m ≡ m - z
negated z m p q = grind arith

pub lowest_zero : (n j : ℕ) → j < span n → lowest (suc n) (128 + 256 * j) ≡ 128
lowest_zero n j h =
    let flip : 256 * span n - (128 + 256 * j) ≡ 128 + 256 * (span n - 1 - j) = omega arith in
    rw (
      negated (128 + 256 * j) (256 * span n) (omega arith) (omega arith),
      flip,
      and_byte 128 128 j (span n - 1 - j) (omega arith) (omega arith),
      and-complement n j h,
    )

pub lowest_nonzero : (n z : ℕ) → 0 < z → z < span n → lowest (suc n) (256 * z) ≡ 256 * lowest n z
lowest_nonzero n z p h =
    let flip : 256 * span n - 256 * z ≡ 0 + 256 * (span n - z) = omega arith in
    let low : 256 * z ≡ 0 + 256 * z = omega arith in
    rw (negated z (span n) p h, negated (256 * z) (256 * span n) (omega arith) (omega arith), flip)
      (ap (λ x. bit_and x (0 + 256 * (span n - z))) low
        ∙ omega (arith, and_byte 0 0 z (span n - z) (omega arith) (omega arith)))

-- A word without a zero byte has no marks.
pub marks-eq-zero :
    (bs : List ℕ) → AllBytes bs → has_zero bs ≡ false → marks (length bs) (le_word bs) ≡ 0
marks-eq-zero [] h e = refl
marks-eq-zero (zero ∷ bs) h e = cc
marks-eq-zero (suc b ∷ bs) h e = omega (
  arith,
  marks-cons_nonzero (length bs) (suc b) (le_word bs) (omega arith) h.0 (word-lt-span bs h.1),
  marks-eq-zero bs h.1 e,
)
