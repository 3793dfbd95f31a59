-- ===== src/Kernel/Question/Agree.antt =====
-- The kernel's word-wise parser computes the reference question.
use doggy_dns.Common.{
  ℕ, zero, suc, ◌+◌, ◌-◌, ◌*◌, ◌<◌, ◌≡◌, refl, ap, sym, ◌∙◌, Option, none, some, [], ◌∷◌, ◌++◌, map,
  true, false, arith, ltb, leb, ◌==◌, length, length-map, le_word, to_ascii_lowercase, Bool-cases,
  inl, inr, ltb→lt,
}
use doggy_dns.Cache.Hash.{fnv1a_from, fnv_offset_basis}
use doggy_dns.Cache.Hash.Laws.{fnv1a_from-block}
use doggy_dns.Kernel.Memory.{HasBytes, Frame, bytes_at}
use doggy_dns.Kernel.Word.{fnv1a_word, lower_word, zero_marks}
use doggy_dns.Kernel.Word.Lower.{lower_word-le_word}
use doggy_dns.Kernel.Word.Marks.{has_zero, before_zero}
use doggy_dns.Kernel.Word.Zeros.{
  zero_marks_of_none, zero_marks_of_some, block_before_terminator_lem, zero_index_lem,
}
use doggy_dns.Kernel.Question.{
  last_block, name_loop, read_fields, parse_dns_question, max_qname_len,
}
use doggy_dns.Kernel.Question.Reference.{first_zero, name_end, question_from, reference_question}
use doggy_dns.Kernel.Question.Scan.{ending, ends_at, scan_bytes_lem}
use doggy_dns.Kernel.Question.Blocks.{
  length-bytes_at, bytes_at-AllBytes, same_step, end_after, onward, stop, onward_skip, onward_over,
  onward-stop, length-before_zero, hash_of_last,
}

module _ (f : Frame) (bytes : HasBytes f.byte) where
  beyond : (h p n : ℕ) → f.size < p + 4 → read_fields f (some (ends_at h p n)) ≡ none
  unfolding read_fields
  beyond h p n short = ground arith

  -- A whole block that was hashed leaves the reference from the new hash.
  absorbed :
      (hash pos p n : ℕ) (o : Option ℕ)
      → end_after f.byte hash (map to_ascii_lowercase (bytes_at f.byte pos 8)) p n o
        ≡ end_after f.byte (fnv1a_word hash (lower_word (le_word (bytes_at f.byte pos 8)))) [] p n o
  unfolding end_after
  absorbed hash pos p n none = refl
  absorbed hash pos p n (some k) =
      let block = bytes_at f.byte pos 8 in
      let rest = map to_ascii_lowercase (bytes_at f.byte p k) ++ 0 ∷ [] in
      let step = fnv1a_from-block hash (map to_ascii_lowercase block) rest refl in
      let word = lower_word-le_word block refl (bytes_at-AllBytes f.byte bytes pos 8) in
      ap (λ h. some (ends_at h (p + k + 1) (n + k + 1)))
        (step
          ∙ ap (λ h. fnv1a_from h rest)
              (sym (same_step hash (le_word (map to_ascii_lowercase block)))
                ∙ ap (fnv1a_word hash) (sym word)))

  name_end-end_after :
      (hash pos n : ℕ) (o : Option ℕ)
      → name_end f.byte hash pos n o ≡ end_after f.byte hash [] pos n o
  unfolding name_end end_after
  name_end-end_after hash pos n none = refl
  name_end-end_after hash pos n (some k) = refl

  last_block_lem :
      (hash pos n : ℕ)
      → has_zero (bytes_at f.byte pos 8) ≡ true
      → last_block hash pos n (le_word (bytes_at f.byte pos 8)) ≡ onward f.byte hash [] pos n
  unfolding last_block
  last_block_lem hash pos n h =
      let block = bytes_at f.byte pos 8 in
      let ab = bytes_at-AllBytes f.byte bytes pos 8 in
      let k = length (before_zero block) in
      let p_eq : pos + (k + 1) ≡ pos + k + 1 = omega arith in
      let n_eq : n + (k + 1) ≡ n + k + 1 = omega arith in
      let short = length-before_zero block h in
      let hashed =
        hash_of_last hash (map to_ascii_lowercase (before_zero block))
          (omega (arith, length-map (before_zero block) to_ascii_lowercase)) in
      rw
        (
          zero_index_lem block refl ab h,
          block_before_terminator_lem block refl ab h,
          p_eq,
          n_eq,
          ← hashed,
        )
        (unfold stop in sym (onward-stop f.byte hash 8 [] pos n h))

  ending-end_after :
      (hash pos n : ℕ) (o : Option ℕ)
      → f.size < pos + 8
      → read_fields f (ending f.byte hash [] pos n o)
        ≡ read_fields f (end_after f.byte hash [] pos n o)
  unfolding ending end_after
  ending-end_after hash pos n none h = refl
  ending-end_after hash pos n (some k) h = elim (Bool-cases (ltb k 8)) [
    | inl near ↦
        let bs = map to_ascii_lowercase (bytes_at f.byte pos k) in
        let hashed = hash_of_last hash bs (
          omega (
            arith,
            ltb→lt k 8 near,
            length-map (bytes_at f.byte pos k) to_ascii_lowercase,
            length-bytes_at f.byte pos k,
          )) in
        ap (λ h. read_fields f (some (ends_at h (pos + k + 1) (n + k + 1)))) (sym hashed)
    | inr far ↦
        beyond _ (pos + k + 1) (n + k + 1) (ground arith)
        ∙ sym (beyond _ (pos + k + 1) (n + k + 1) (ground arith))
  ]

  name_loop_lem :
      (fuel hash pos n : ℕ)
      → max_qname_len < n + fuel * 8
      → read_fields f (name_loop fuel f hash pos n) ≡ read_fields f (onward f.byte hash [] pos n)
  unfolding name_loop
  name_loop_lem zero hash pos n enough =
      ap (read_fields f) (sym (onward_over f.byte hash [] pos n (omega arith)))
  name_loop_lem (suc fuel) hash pos n enough =
      let block = bytes_at f.byte pos 8 in
      let ab = bytes_at-AllBytes f.byte bytes pos 8 in
      let next = fnv1a_word hash (lower_word (le_word block)) in
      let later = name_loop_lem fuel next (pos + 8) (n + 8) (omega arith) in
      elim (Bool-cases (leb max_qname_len n)) [
        | inl over ↦
            rw over (ap (read_fields f) (sym (onward_over f.byte hash [] pos n (ground arith))))
        | inr more ↦ elim (Bool-cases (leb (pos + 8) f.size)) [
          | inl fits ↦ elim (Bool-cases (has_zero block)) [
            | inl stopped ↦
                let marked : (zero_marks (le_word block) == 0) ≡ false =
                  ground (arith, zero_marks_of_some block refl ab stopped) in
                rw (more, fits, marked) (ap (read_fields f) (last_block_lem hash pos n stopped))
            | inr go ↦
                rw (more, fits, zero_marks_of_none block refl ab go)
                  (later
                    ∙ ap (read_fields f) (
                        sym (
                          onward_skip f.byte hash 8 [] pos n go
                          ∙ absorbed hash pos (pos + 8) (n + 8)
                              (first_zero f.byte (pos + 8) (max_qname_len - (n + 8))))))
          ]
          | inr short ↦
              rw (more, short)
                (scan_bytes_lem f bytes hash 8 0 pos n [] refl refl tt (ground arith)
                  ∙ ending-end_after hash pos n (first_zero f.byte pos (max_qname_len - n))
                      (ground arith))
        ]
      ]

  -- The word-wise parser of the XDP program returns what the byte-wise reference returns, for every
  -- frame and every offset of the DNS header: the same hash, type, class and length, or nothing.
  pub parse_dns_question-reference :
      (dns_offset : ℕ) → parse_dns_question f dns_offset ≡ reference_question f dns_offset
  unfolding parse_dns_question reference_question question_from
  parse_dns_question-reference dns_offset =
      name_loop_lem 33 fnv_offset_basis (dns_offset + 12) 0 (omega arith)
      ∙ ap (read_fields f) (
          sym (
            name_end-end_after fnv_offset_basis (dns_offset + 12) 0
              (first_zero f.byte (dns_offset + 12) max_qname_len)))
