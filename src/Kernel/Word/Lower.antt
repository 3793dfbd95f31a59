-- ===== src/Kernel/Word/Lower.antt =====
-- `lower_word` lowercases each byte of a word apart.
use doggy_dns.Common.{
  ℕ, suc, ◌+◌, ◌-◌, ◌*◌, ◌/◌, ◌%◌, ◌≤◌, ◌<◌, bit_and, bit_or, ◌≡◌, refl, Bool, true, ◌&&◌, List, [],
  ◌∷◌, map, arith, ltb, leb, ◌==◌, length, AllBytes, le_word, to_ascii_lowercase, repeated, span,
}
use doggy_dns.Common.Bits.{and_byte, or_byte, all_below, all_below_sound}
use doggy_dns.Kernel.Word.{lower_word}

-- One pass of the padded-subtraction trick, on words of n bytes.
abbrev mark : ℕ → ℕ → ℕ → ℕ
mark c n w =
    bit_and (bit_and (bit_or w (repeated 128 n) - repeated c n) (span n - 1 - w)) (repeated 128 n)

abbrev mark_byte : ℕ → ℕ → ℕ
mark_byte c b = bit_and (bit_and (bit_or b 128 - c) (255 - b)) 128

abbrev byte_ok : ℕ → ℕ → Bool
byte_ok c b =
    leb c (bit_or b 128)
    && ltb (bit_or b 128) 256
    && ltb (bit_and (bit_or b 128 - c) (255 - b)) 256
    && ltb (mark_byte c b) 256

module _ (c : ℕ) (c_ok : all_below (byte_ok c) 256 ≡ true) where
  byte_facts :
      (b : ℕ)
      → b < 256
      → (c ≤ bit_or b 128)
        × (bit_or b 128 < 256)
        × (bit_and (bit_or b 128 - c) (255 - b) < 256)
        × (mark_byte c b < 256)
  byte_facts b h = let t = all_below_sound (byte_ok c) 256 b c_ok h in ground arith

  repeated-le-or :
      (bs : List ℕ)
      → AllBytes bs
      → repeated c (length bs) ≤ bit_or (le_word bs) (repeated 128 (length bs))
  repeated-le-or [] h = omega arith
  repeated-le-or (b ∷ bs) h = omega (
    arith,
    repeated-le-or bs h.1,
    or_byte b 128 (le_word bs) (repeated 128 (length bs)) h.0 (omega arith),
    byte_facts b h.0,
  )

pub word-lt-span : (bs : List ℕ) → AllBytes bs → le_word bs < span (length bs)
word-lt-span [] h = omega arith
word-lt-span (b ∷ bs) h = omega (arith, word-lt-span bs h.1)

module _ (c : ℕ) (c_ok : all_below (byte_ok c) 256 ≡ true) where
  mark_cons :
      (b : ℕ) (bs : List ℕ)
      → b < 256
      → AllBytes bs
      → mark c (suc (length bs)) (b + 256 * le_word bs)
        ≡ mark_byte c b + 256 * mark c (length bs) (le_word bs)
  mark_cons b bs h hs =
      let facts = byte_facts c c_ok b h in
      let w = le_word bs in
      let n = length bs in
      let minus : bit_or (b + 256 * w) (128 + 256 * repeated 128 n) - (c + 256 * repeated c n)
          ≡ (bit_or b 128 - c) + 256 * (bit_or w (repeated 128 n) - repeated c n) =
        omega
          (arith, or_byte b 128 w (repeated 128 n) h (omega arith), repeated-le-or c c_ok bs hs) in
      let flip : 256 * span n - 1 - (b + 256 * w) ≡ (255 - b) + 256 * (span n - 1 - w) =
        omega (arith, word-lt-span bs hs) in
      rw (
        minus,
        flip,
        and_byte (bit_or b 128 - c) (255 - b) (bit_or w (repeated 128 n) - repeated c n)
            (span n - 1 - w) (omega arith) (omega arith),
        and_byte (bit_and (bit_or b 128 - c) (255 - b)) 128
            (bit_and (bit_or w (repeated 128 n) - repeated c n) (span n - 1 - w)) (repeated 128 n)
            (omega arith) (omega arith),
      )

  mark-lt-span : (bs : List ℕ) → AllBytes bs → mark c (length bs) (le_word bs) < span (length bs)
  mark-lt-span [] h = omega arith
  mark-lt-span (b ∷ bs) h =
      omega (arith, mark_cons b bs h.0 h.1, mark-lt-span bs h.1, byte_facts c c_ok b h.0)

-- The bits that turn capitals into small letters, still at bit 7 of their bytes.
abbrev capitals : ℕ → ℕ → ℕ
capitals n w = bit_and (mark 65 n w) (span n - 1 - mark 91 n w)

abbrev capital_byte : ℕ → ℕ
capital_byte b = bit_and (mark_byte 65 b) (255 - mark_byte 91 b)

abbrev lower_ok : ℕ → Bool
lower_ok b =
    (capital_byte b % 4 == 0)
    && ltb (capital_byte b) 256
    && ltb (to_ascii_lowercase b) 256
    && (bit_or b (capital_byte b / 4) == to_ascii_lowercase b)

tables :
    (all_below (byte_ok 65) 256 ≡ true)
    × (all_below (byte_ok 91) 256 ≡ true)
    × (all_below lower_ok 256 ≡ true)
unfolding all_below
tables = (refl, refl, refl)

lower_facts :
    (b : ℕ)
    → b < 256
    → (capital_byte b % 4 ≡ 0)
      × (capital_byte b < 256)
      × (to_ascii_lowercase b < 256)
      × (bit_or b (capital_byte b / 4) ≡ to_ascii_lowercase b)
lower_facts b h = let t = all_below_sound lower_ok 256 b tables.2 h in ground arith

pub to_ascii_lowercase-lt : (b : ℕ) → b < 256 → to_ascii_lowercase b < 256
to_ascii_lowercase-lt b h = (lower_facts b h).2

capitals_cons :
    (b : ℕ) (bs : List ℕ)
    → b < 256
    → AllBytes bs
    → capitals (suc (length bs)) (b + 256 * le_word bs)
      ≡ capital_byte b + 256 * capitals (length bs) (le_word bs)
capitals_cons b bs h hs =
    let n = length bs in
    let low = mark-lt-span 91 tables.1 bs hs in
    let flip : 256 * span n - 1 - (mark_byte 91 b + 256 * mark 91 n (le_word bs))
        ≡ (255 - mark_byte 91 b) + 256 * (span n - 1 - mark 91 n (le_word bs)) =
      omega (arith, byte_facts 91 tables.1 b h) in
    rw (
      mark_cons 65 tables.0 b bs h hs,
      mark_cons 91 tables.1 b bs h hs,
      flip,
      and_byte (mark_byte 65 b) (255 - mark_byte 91 b) (mark 65 n (le_word bs))
          (span n - 1 - mark 91 n (le_word bs)) (byte_facts 65 tables.0 b h).3 (omega arith),
    )

capitals-mod : (bs : List ℕ) → AllBytes bs → capitals (length bs) (le_word bs) % 4 ≡ 0
capitals-mod [] h = refl
capitals-mod (b ∷ bs) h =
    omega (arith, capitals_cons b bs h.0 h.1, capitals-mod bs h.1, lower_facts b h.0)

lowered :
    (bs : List ℕ)
    → AllBytes bs
    → bit_or (le_word bs) (capitals (length bs) (le_word bs) / 4)
      ≡ le_word (map to_ascii_lowercase bs)
lowered [] h = refl
lowered (b ∷ bs) h =
    let n = length bs in
    let shifted : capitals (suc n) (b + 256 * le_word bs) / 4
        ≡ capital_byte b / 4 + 256 * (capitals n (le_word bs) / 4) =
      omega (arith, capitals_cons b bs h.0 h.1, capitals-mod bs h.1, lower_facts b h.0) in
    rw (
      shifted,
      or_byte b (capital_byte b / 4) (le_word bs) (capitals n (le_word bs) / 4) h.0
          (omega (arith, lower_facts b h.0)),
      lowered bs h.1,
      (lower_facts b h.0).3,
    )

-- On eight bytes, `lower_word` is the word of the bytes lowercased one by one.
pub lower_word-le_word :
    (bs : List ℕ)
    → length bs ≡ 8
    → AllBytes bs
    → lower_word (le_word bs) ≡ le_word (map to_ascii_lowercase bs)
unfolding lower_word
lower_word-le_word bs len h = rw len at (lowered bs h)
