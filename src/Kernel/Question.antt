-- ===== src/Kernel/Question.antt =====
-- `parse_dns_question` of xdp/doggy-dns-xdp-ebpf/src/main.rs.
pub mod Reference
mod Scan
mod Blocks
pub mod Agree
pub mod Names
use doggy_dns.Common.{
  ℕ, zero, suc, ◌+◌, ◌*◌, ◌%◌, ◌^◌, bit_or, Option, none, some, ltb, leb, ◌==◌, if◌then◌else◌,
  to_ascii_lowercase,
}
use doggy_dns.Kernel.Memory.{Frame, load_word, read_u16_be}
use doggy_dns.Kernel.Word.{
  fnv_offset_basis, fnv1a_word, lower_word, zero_index, zero_marks, block_before_terminator,
}

-- A QNAME is at most 255 bytes on the wire, the root label included.
abbrev pub max_qname_len : ℕ
max_qname_len = 255

abbrev pub dns_hdr_len : ℕ
dns_hdr_len = 12

-- What the name loop leaves: the hash, the offset past the root label and the length of the name.
pub record NameEnd : Type 0 where
  pub hash : ℕ
  pub pos : ℕ
  pub name_len : ℕ

pub record Question : Type 0 where
  pub name_hash : ℕ
  pub qtype : ℕ
  pub qclass : ℕ
  pub question_len : ℕ

-- How the byte loop at the end of the frame can leave: by `return None`, after eight bytes without
-- a terminator, or at the terminator.
pub data Scanned : Type 0 where
  ran_out : Scanned
  unterminated : Scanned
  terminated : (word pos name_len : ℕ) → Scanned

-- `while i < 8`, with the rounds that are left.
pub scan_bytes : ℕ → Frame → (i word pos name_len : ℕ) → Scanned
scan_bytes zero f i word pos name_len = unterminated
scan_bytes (suc rounds) f i word pos name_len =
    let byte = f.byte pos in
    let word' = bit_or word (to_ascii_lowercase byte * 2 ^ (i * 8) % 2 ^ 64) in
    let rest = scan_bytes rounds f (i + 1) word' (pos + 1) (name_len + 1) in
    if leb max_qname_len name_len
    then ran_out
    else if ltb f.size (pos + 2)
    then ran_out
    else if byte == 0
    then terminated word' (pos + 1) (name_len + 1)
    else rest

pub last_word : ℕ → Scanned → Option NameEnd
last_word hash ran_out = none
last_word hash unterminated = none
last_word hash (terminated word pos name_len) =
    some (record { hash = fnv1a_word hash word; pos = pos; name_len = name_len })

-- The block that holds the root label.
pub last_block : (hash pos name_len word : ℕ) → Option NameEnd
last_block hash pos name_len word =
    let consumed = zero_index word + 1 in
    if ltb max_qname_len (name_len + consumed)
    then none
    else some (record {
      hash = fnv1a_word hash (block_before_terminator word);
      pos = pos + consumed;
      name_len = name_len + consumed;
    })

-- The name loop. Each round but the last takes eight bytes, so 32 rounds pass the limit of 255.
pub name_loop : ℕ → Frame → (hash pos name_len : ℕ) → Option NameEnd
name_loop zero f hash pos name_len = none
name_loop (suc fuel) f hash pos name_len =
    let word = load_word f.byte pos in
    let next = name_loop fuel f (fnv1a_word hash (lower_word word)) (pos + 8) (name_len + 8) in
    if leb max_qname_len name_len
    then none
    else if leb (pos + 8) f.size
    then (if zero_marks word == 0 then next else last_block hash pos name_len word)
    else last_word hash (scan_bytes 8 f 0 0 pos name_len)

-- QTYPE and QCLASS follow the name.
pub read_fields : Frame → Option NameEnd → Option Question
read_fields f none = none
read_fields f (some e) =
    if ltb f.size (e.pos + 4)
    then none
    else some (record {
      name_hash = e.hash;
      qtype = read_u16_be f.byte e.pos;
      qclass = read_u16_be f.byte (e.pos + 2);
      question_len = e.name_len + 4;
    })

unfoldable pub parse_dns_question : Frame → ℕ → Option Question
unfolding name_loop read_fields last_block last_word scan_bytes fnv1a_word lower_word zero_index
    zero_marks block_before_terminator read_u16_be
parse_dns_question f dns_offset =
    read_fields f (name_loop 33 f fnv_offset_basis (dns_offset + dns_hdr_len) 0)
