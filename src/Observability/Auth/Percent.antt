-- ===== src/Observability/Auth/Percent.antt =====
-- What `percent_decode` of crates/doggy-dns-observability/src/auth.rs reads.
use doggy_dns.Common.{
  ℕ, ◌+◌, ◌*◌, ◌<◌, ◌≡◌, ◌≢◌, refl, ap, ◌∙◌, Bool, false, List, [], ◌∷◌, ltb, ◌==◌, if◌then◌else◌,
  All, arith,
}
use doggy_dns.Common.Results.{ok}
use doggy_dns.Observability.Auth.{hex_value, push_byte, decode_escape, decode_bytes}

-- A hexadecimal digit, in upper or in lower case.
abbrev pub hex_digit : (upper : Bool) → ℕ → ℕ
hex_digit upper n = if ltb n 10 then b'0' + n else if upper then 55 + n else 87 + n

hex_value-hex_digit : (upper : Bool) (n : ℕ) → n < 16 → hex_value (hex_digit upper n) ≡ ok n
unfolding hex_value
hex_value-hex_digit upper n h = ground arith

-- One character of an encoded text: a byte as it is, or its two digits behind a percent sign.
pub data Piece : Type 0 where
  plain : ℕ → Piece
  escape : (high_upper low_upper : Bool) → (high low : ℕ) → Piece

abbrev pub IsPiece : Piece → Type 0
IsPiece (plain byte) = byte ≢ b'%'
IsPiece (escape _ _ high low) = (high < 16) × (low < 16)

abbrev pub encode : List Piece → List ℕ
encode [] = []
encode (plain byte ∷ pieces) = byte ∷ encode pieces
encode (escape high_upper low_upper high low ∷ pieces) =
    b'%' ∷ hex_digit high_upper high ∷ hex_digit low_upper low ∷ encode pieces

abbrev pub bytes_of : List Piece → List ℕ
bytes_of [] = []
bytes_of (plain byte ∷ pieces) = byte ∷ bytes_of pieces
bytes_of (escape _ _ high low ∷ pieces) = (high * 16 + low) ∷ bytes_of pieces

decode_bytes-plain :
    (byte : ℕ) (rest : List ℕ)
    → byte ≢ b'%'
    → decode_bytes (byte ∷ rest) ≡ push_byte byte (decode_bytes rest)
unfolding decode_bytes
decode_bytes-plain byte [] h = ground arith
decode_bytes-plain byte (next ∷ []) h =
    let other : (byte == b'%') ≡ false = ground arith in rw other
decode_bytes-plain byte (high ∷ low ∷ rest) h =
    let other : (byte == b'%') ≡ false = ground arith in rw other

-- Decoding gives back the bytes of every encoded text, whichever bytes it escapes and in whichever
-- case it writes the digits; a percent sign itself must be escaped.
pub decode_bytes-encode :
    (pieces : List Piece) → All IsPiece pieces → decode_bytes (encode pieces) ≡ ok (bytes_of pieces)
unfolding decode_bytes
decode_bytes-encode [] h = refl
decode_bytes-encode (plain byte ∷ pieces) h =
    decode_bytes-plain byte (encode pieces) h.0
    ∙ ap (push_byte byte) (decode_bytes-encode pieces h.1)
decode_bytes-encode (escape hu lu high low ∷ pieces) h =
    ap (λ r. decode_escape (hex_digit hu high) (hex_digit lu low) r)
      (decode_bytes-encode pieces h.1)
    ∙ rw (hex_value-hex_digit hu high h.0.0, hex_value-hex_digit lu low h.0.1)
