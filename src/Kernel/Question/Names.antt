-- ===== src/Kernel/Question/Names.antt =====
-- The kernel's key for a query is the key under which userspace stored the answer.
use mathlib.Core.Option
use mathlib.Core.List.{append_assoc, map-append}
use doggy_dns.Common.{
  ℕ, zero, suc, ◌+◌, ◌-◌, ◌%◌, ◌≤◌, ◌<◌, ◌≡◌, refl, ap, ◌∙◌, some, List, [], ◌∷◌, ◌++◌, map, arith,
  ltb, length, All, All-append, to_ascii_lowercase, false,
}
use doggy_dns.Cache.Hash.{fnv1a_64, lowercase_wire, make_cache_key}
use doggy_dns.Kernel.Memory.{Memory, HasBytes, Frame, bytes_at, read_u16_be}
use doggy_dns.Kernel.Question.{read_fields, parse_dns_question}
use doggy_dns.Kernel.Question.Reference.{first_zero, name_end, question_from, reference_question}
use doggy_dns.Kernel.Question.Scan.{first_zero_hit, first_zero_miss}
use doggy_dns.Kernel.Question.Agree.{parse_dns_question-reference}

-- A label as a resolver sends it: 1 to 63 bytes, none of them zero.
abbrev pub IsLabel : List ℕ → Type 0
IsLabel label = (0 < length label) × (length label ≤ 63) × All (λ b. 0 < b) label

-- The labels on the wire, each behind its length, without the root label.
abbrev pub wire_labels : List (List ℕ) → List ℕ
wire_labels [] = []
wire_labels (label ∷ labels) = length label ∷ (label ++ wire_labels labels)

wire_labels-nonzero :
    (name : List (List ℕ)) → All IsLabel name → All (λ b. 0 < b) (wire_labels name)
wire_labels-nonzero [] h = tt
wire_labels-nonzero (label ∷ labels) h = (
  h.0.0,
  All-append (λ b. 0 < b) label (wire_labels labels) h.0.2 (wire_labels-nonzero labels h.1),
)

-- Lengths are no capital letters, so the kernel may lowercase them with the rest.
lowercase_wire-map :
    (name : List (List ℕ))
    → All IsLabel name
    → map to_ascii_lowercase (wire_labels name) ++ 0 ∷ [] ≡ lowercase_wire name
unfolding lowercase_wire
lowercase_wire-map [] h = refl
lowercase_wire-map (label ∷ labels) h =
    let short : to_ascii_lowercase (length label) ≡ length label % 256 = ground (arith, h.0.1) in
    rw (
      short,
      map-append to_ascii_lowercase label (wire_labels labels),
      append_assoc,
      lowercase_wire-map labels h.1,
    )

-- A run of bytes in memory that are not zero, with a zero behind it.
first_zero_run :
    (m : Memory) (xs : List ℕ) (p limit : ℕ)
    → All (λ b. 0 < b) xs
    → bytes_at m p (length xs) ≡ xs
    → m (p + length xs) ≡ 0
    → length xs < limit
    → first_zero m p limit ≡ some (length xs)
first_zero_run m xs p zero nz here stop h = absurd (omega arith)
first_zero_run m [] p (suc limit) nz here stop h =
    first_zero_hit m p limit (ap m (omega arith) ∙ stop)
first_zero_run m (x ∷ xs) p (suc limit) nz here stop h =
    let byte : m p ≡ x = cc in
    let later : bytes_at m (p + 1) (length xs) ≡ xs = cc in
    let end : p + 1 + length xs ≡ p + suc (length xs) = omega arith in
    first_zero_miss m p limit (x - 1) (omega (arith, nz.0))
    ∙ ap (Option.map suc)
        (first_zero_run m xs (p + 1) limit nz.1 later (ap m end ∙ stop) (omega arith))

-- A frame that holds a question for `name` at a DNS header's offset.
pub record Asks (f : Frame) (dns_offset : ℕ) (name : List (List ℕ)) (qtype qclass : ℕ)
    : Type 0 where
  pub labels : bytes_at f.byte (dns_offset + 12) (length (wire_labels name)) ≡ wire_labels name
  pub root : f.byte (dns_offset + 12 + length (wire_labels name)) ≡ 0
  pub type_field : read_u16_be f.byte (dns_offset + 12 + length (wire_labels name) + 1) ≡ qtype
  pub class_field :
      read_u16_be f.byte (dns_offset + 12 + length (wire_labels name) + 1 + 2) ≡ qclass
  pub fits : dns_offset + 12 + length (wire_labels name) + 5 ≤ f.size

-- For a name of ordinary labels of at most 255 bytes on the wire, in whatever case the client
-- spelled it, the parser returns the hash of userspace's key for that name, the type and the class.
pub parse-make_cache_key :
    (f : Frame) (dns_offset : ℕ) (name : List (List ℕ)) (qtype qclass : ℕ)
    → HasBytes f.byte
    → All IsLabel name
    → length (wire_labels name) < 255
    → Asks f dns_offset name qtype qclass
    → parse_dns_question f dns_offset
      ≡ some (record {
        name_hash = (make_cache_key name qtype qclass).name_hash;
        qtype = qtype;
        qclass = qclass;
        question_len = length (wire_labels name) + 5;
      })
unfolding reference_question question_from name_end read_fields make_cache_key fnv1a_64
parse-make_cache_key f dns_offset name qtype qclass bytes ok short asks =
    let n = length (wire_labels name) in
    let p = dns_offset + 12 in
    let at =
      first_zero_run f.byte (wire_labels name) p 255 (wire_labels-nonzero name ok) asks.labels
        asks.root short in
    let room : ltb f.size (p + n + 1 + 4) ≡ false = ground (arith, asks.fits) in
    let len : 0 + n + 1 + 4 ≡ n + 5 = omega arith in
    parse_dns_question-reference f bytes dns_offset
    ∙ rw (at, room, asks.labels, asks.type_field, asks.class_field, len, lowercase_wire-map name ok)
