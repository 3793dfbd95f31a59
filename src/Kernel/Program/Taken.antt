-- ===== src/Kernel/Program/Taken.antt =====
-- Which packets the XDP program takes up, said of the packet's bytes.
use mathlib.Core.Logic.{◌↔◌}
use doggy_dns.Common.{
  ℕ, ◌+◌, ◌-◌, ◌*◌, ◌%◌, ◌≤◌, ◌<◌, ◌≡◌, refl, ap, sym, ◌∙◌, Bool, true, Option, some, bit_and,
  arith, ltb, ◌==◌, if◌then◌else◌,
}
use doggy_dns.Common.Bits.{and_byte, and-le, all_below, all_below_sound}
use doggy_dns.Kernel.Memory.{Frame, HasBytes, read_u16_be}
use doggy_dns.Kernel.Question.{Question, parse_dns_question}
use doggy_dns.Kernel.Question.Reference.{reference_question}
use doggy_dns.Kernel.Question.Agree.{parse_dns_question-reference}
use doggy_dns.Kernel.Program.{Query, parse_query}
use doggy_dns.Kernel.Program.Outcomes.{parse_query-IsDnsQuery}

-- An Ethernet frame with an IPv4 packet, whose header has five words or more, with a UDP datagram to
-- the configured port, whose length field is 8 to 1500, with a whole DNS header of a query with one
-- question, which the byte-wise reference reads.
pub record IsTaken (config : Option ℕ) (f : Frame) (q : Query) : Type 0 where
  pub ethertype : (f.byte 12 ≡ 8) × (f.byte 13 ≡ 0)
  pub protocol : f.byte 23 ≡ 17
  pub header : q.ip_hdr_len ≡ f.byte 14 % 16 * 4
  pub header_len : 20 ≤ q.ip_hdr_len
  pub udp_place : q.udp_offset ≡ 14 + q.ip_hdr_len
  pub dns_place : q.dns_offset ≡ 14 + q.ip_hdr_len + 8
  pub header_fits : q.dns_offset + 12 ≤ f.size
  pub to_server : config ≡ some (f.byte (q.udp_offset + 2) * 256 + f.byte (q.udp_offset + 3))
  pub message_len : q.old_dns_len + 8 ≡ f.byte (q.udp_offset + 4) * 256 + f.byte (q.udp_offset + 5)
  pub not_too_long : q.old_dns_len ≤ 1492
  pub is_query : f.byte (q.dns_offset + 2) < 128
  pub one_question : (f.byte (q.dns_offset + 4) ≡ 0) × (f.byte (q.dns_offset + 5) ≡ 1)
  pub asks : reference_question f q.dns_offset ≡ some q.question

low_ok : ℕ → Bool
low_ok b = bit_and b 0x0F == b % 16

high_ok : ℕ → Bool
high_ok b = if ltb b 128 then bit_and b 128 == 0 else bit_and b 128 == 128

tables : (all_below low_ok 256 ≡ true) × (all_below high_ok 256 ≡ true)
unfolding all_below low_ok high_ok
tables = (refl, refl)

low_lem : (b : ℕ) → b < 256 → bit_and b 0x0F ≡ b % 16
unfolding low_ok
low_lem b h = let t = all_below_sound low_ok 256 b tables.0 h in ground arith

high_lem : (b : ℕ) → b < 256 → (bit_and b 128 ≡ 0) ↔ (b < 128)
unfolding high_ok
high_lem b h =
    let t = all_below_sound high_ok 256 b tables.1 h in ((λ e. ground arith), (λ e. ground arith))

-- The QR bit is the highest of the two flag bytes.
qr_lem : (hi lo : ℕ) → lo < 256 → bit_and (hi * 256 + lo) 0x8000 ≡ 256 * bit_and hi 128
qr_lem hi lo h =
    let order : hi * 256 + lo ≡ lo + 256 * hi = omega arith in
    ap (λ x. bit_and x (0 + 256 * 128)) order
    ∙ omega (arith, and_byte lo 0 hi 128 h (omega arith), and-le lo 0)

word_lem :
    (f : Frame) (p i : ℕ) → read_u16_be f.byte (p + i) ≡ f.byte (p + i) * 256 + f.byte (p + (i + 1))
unfolding read_u16_be
word_lem f p i =
    let next : p + i + 1 ≡ p + (i + 1) = omega arith in
    ap (λ j. f.byte (p + i) * 256 + f.byte j) next

type_lem : (f : Frame) → read_u16_be f.byte 12 ≡ f.byte 12 * 256 + f.byte 13
unfolding read_u16_be
type_lem f = refl

module _ (config : Option ℕ) (f : Frame) (bytes : HasBytes f.byte) where
  abbrev header_of : ℕ
  header_of = bit_and (f.byte 14) 0x0F * 4

  parse_query-lens :
      (q : Query)
      → parse_query config f ≡ some q
      → (q.ip_hdr_len ≡ header_of) × (q.old_dns_len ≤ 1492)
  unfolding parse_query
  parse_query-lens q e = (ground arith, ground arith)

  parse_query-IsTaken : (q : Query) → parse_query config f ≡ some q → IsTaken config f q
  parse_query-IsTaken q e =
      let d = parse_query-IsDnsQuery config f q e in
      let lens = parse_query-lens q e in
      let low = low_lem (f.byte 14) (bytes 14) in
      let hi = f.byte (q.dns_offset + 2) in
      let flags = qr_lem hi (f.byte (q.dns_offset + 3)) (bytes (q.dns_offset + 3)) in
      let qr = high_lem hi (bytes (q.dns_offset + 2)) in
      let counted = sym (word_lem f q.dns_offset 4) ∙ d.one_question in
      let b13 = bytes 13 in
      let b5 = bytes (q.dns_offset + 5) in
      let type_word = sym (type_lem f) ∙ d.is_ip in
      record {
        ethertype = (omega (arith, type_word, b13), omega (arith, type_word, b13));
        protocol = d.is_udp;
        header = omega (arith, lens.0, low);
        header_len = d.header_len;
        udp_place = d.udp_place;
        dns_place = omega (arith, d.udp_place, d.dns_place);
        header_fits = d.header_fits;
        to_server = d.to_server ∙ ap some (word_lem f q.udp_offset 2);
        message_len = d.message_len ∙ word_lem f q.udp_offset 4;
        not_too_long = lens.1;
        is_query = qr.0 (
            let bit = ap (λ x. bit_and x 0x8000) (sym (word_lem f q.dns_offset 2)) ∙ d.is_query in
            omega (arith, bit, flags));
        one_question = (omega (arith, counted, b5), omega (arith, counted, b5));
        asks = sym (parse_dns_question-reference f bytes q.dns_offset) ∙ d.parsed;
      }

  accept :
      (question : Question)
      → read_u16_be f.byte 12 ≡ 0x0800
      → f.byte 23 ≡ 17
      → 20 ≤ header_of
      → 14 + header_of + 8 + 12 ≤ f.size
      → config ≡ some (read_u16_be f.byte (14 + header_of + 2))
      → 8 ≤ read_u16_be f.byte (14 + header_of + 4)
      → read_u16_be f.byte (14 + header_of + 4) ≤ 1500
      → bit_and (read_u16_be f.byte (14 + header_of + 8 + 2)) 0x8000 ≡ 0
      → read_u16_be f.byte (14 + header_of + 8 + 4) ≡ 1
      → parse_dns_question f (14 + header_of + 8) ≡ some question
      → parse_query config f
        ≡ some (record {
          ip_hdr_len = header_of;
          udp_offset = 14 + header_of;
          dns_offset = 14 + header_of + 8;
          old_dns_len = read_u16_be f.byte (14 + header_of + 4) - 8;
          question = question;
        })
  unfolding parse_query
  accept question a b c d e g h i j k = ground arith

  IsTaken-parse_query : (q : Query) → IsTaken config f q → parse_query config f ≡ some q
  IsTaken-parse_query q t =
      let low = low_lem (f.byte 14) (bytes 14) in
      let len : q.ip_hdr_len ≡ header_of = omega (arith, t.header, low) in
      let udp : q.udp_offset ≡ 14 + header_of = omega (arith, t.udp_place, len) in
      let dns : q.dns_offset ≡ 14 + header_of + 8 = omega (arith, t.dns_place, len) in
      let hi = f.byte (q.dns_offset + 2) in
      let flags = qr_lem hi (f.byte (q.dns_offset + 3)) (bytes (q.dns_offset + 3)) in
      let clear = (high_lem hi (bytes (q.dns_offset + 2))).1 t.is_query in
      let sized = word_lem f q.udp_offset 4 in
      let parsed = parse_dns_question-reference f bytes q.dns_offset ∙ t.asks in
      let taken =
        accept q.question (type_lem f ∙ omega (arith, t.ethertype.0, t.ethertype.1)) t.protocol
          (omega (arith, len, t.header_len)) (omega (arith, dns, t.header_fits))
          (rw (← udp) (t.to_server ∙ ap some (sym (word_lem f q.udp_offset 2))))
          (rw (← udp) (omega (arith, sized, t.message_len)))
          (rw (← udp) (omega (arith, sized, t.message_len, t.not_too_long)))
          (rw (← dns)
            (ap (λ x. bit_and x 0x8000) (word_lem f q.dns_offset 2) ∙ omega (arith, flags, clear)))
          (rw (← dns)
            (word_lem f q.dns_offset 4 ∙ omega (arith, t.one_question.0, t.one_question.1)))
          (rw (← dns) parsed) in
      let old : q.old_dns_len ≡ read_u16_be f.byte (14 + header_of + 4) - 8 =
        rw (← udp) (omega (arith, sized, t.message_len)) in
      cc

  -- The fast path takes a frame up, and where it finds the parts of the packet, just as the frame's
  -- bytes say: an IPv4 and UDP packet to the configured port with a length of 8 to 1500, whose DNS
  -- header fits the frame, is a query's with one question, and whose question the byte-wise
  -- reference reads. Every other frame is not taken up.
  pub parse_query_iff : (q : Query) → (parse_query config f ≡ some q) ↔ IsTaken config f q
  parse_query_iff q = (parse_query-IsTaken q, IsTaken-parse_query q)
