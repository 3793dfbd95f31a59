-- ===== src/Kernel/Question/Reference.antt =====
-- What a question means, byte by byte: the name ends at the first zero byte, within 255 bytes, and
-- its lowercased bytes are hashed as the userspace cache hashes them.
use mathlib.Core.Option
use doggy_dns.Common.{
  ℕ, zero, suc, ◌+◌, ◌-◌, Option, none, some, [], ◌∷◌, ◌++◌, map, to_ascii_lowercase,
}
use doggy_dns.Cache.Hash.{fnv_offset_basis, fnv1a_from}
use doggy_dns.Kernel.Memory.{Memory, Frame, bytes_at}
use doggy_dns.Kernel.Question.{NameEnd, Question, read_fields, max_qname_len, dns_hdr_len}

-- How many bytes stand before the first zero, among the first `limit`.
unfoldable pub first_zero : Memory → ℕ → ℕ → Option ℕ
first_zero m p zero = none
first_zero m p (suc limit) = elim (m p) [
  | zero ↦ some 0
  | suc _ ↦ Option.map suc (first_zero m (p + 1) limit)
]

unfoldable pub name_end : Memory → (hash pos name_len : ℕ) → Option ℕ → Option NameEnd
name_end m hash pos name_len none = none
name_end m hash pos name_len (some k) = some (record {
  hash = fnv1a_from hash (map to_ascii_lowercase (bytes_at m pos k) ++ 0 ∷ []);
  pos = pos + k + 1;
  name_len = name_len + k + 1;
})

-- The question from a running hash, after `name_len` bytes of the name.
unfoldable pub question_from : Frame → (hash pos name_len : ℕ) → Option Question
unfolding first_zero name_end
question_from f hash pos name_len =
    read_fields f
      (name_end f.byte hash pos name_len (first_zero f.byte pos (max_qname_len - name_len)))

unfoldable pub reference_question : Frame → ℕ → Option Question
unfolding question_from read_fields fnv1a_from
reference_question f dns_offset = question_from f fnv_offset_basis (dns_offset + dns_hdr_len) 0
