-- ===== src/Handler/Flow/Cached.antt =====
-- What the cache middleware is handed for a request, beside what the client is sent.
use doggy_dns.Common.{
  ℕ, ◌≤◌, ◌≡◌, inl, inr, refl, ap, sym, ◌∙◌, String, Bool, true, false, Option, none, some, List,
  [], ◌∷◌, ◌⊎◌, length, Bool-cases, Option-cases, arith,
}
use doggy_dns.Common.Dns.{
  ResponseCode, Record, Lookup, continue_ok, continue_err, break_ok, break_err, skip, LookupError,
}
use doggy_dns.Plugin.Chain.{ResolveResult, resolve}
use doggy_dns.Handler.Answer.{
  Response, serialize_for_xdp, admit, error_response, answer_response,
  response_code_for_lookup_error, is_negative_cacheable, is_truncated, max_message_size,
}
use doggy_dns.Handler.Rotation.{apply}
use doggy_dns.Handler.Flow.{
  Handler, Request, Done, send_response, refuse, probe, positive_done, negative_done, skipped_done,
  answered, failed, reply, handle_request, short_circuits, handler_name_of,
}

admit-cases :
    (bytes kept : List ℕ)
    → admit bytes ≡ some kept
    → (kept ≡ bytes) × ((length bytes ≤ 512) × (is_truncated bytes ≡ false))
unfolding admit
admit-cases bytes kept h = elim (Bool-cases (is_truncated bytes)) [
  | inl t ↦ absurd (ground arith)
  | inr t ↦ let x : length bytes ≤ 512 = ground arith in (ground arith, (x, t))
]

module _ (emit : ℕ → Response → Option (List ℕ)) (sends : Response → Bool) where
  -- The bytes are the encoding, under the client's limit, of the one response that was handed to
  -- `send_response`, which was sent if it has answers, they fit the cache, are not truncated, and
  -- the cache is on.
  pub IsHandedOver : Handler → Request → Done → List ℕ → Type 0
  IsHandedOver h q d bytes =
      (response : Response) × (((d.transcript ≡ (send_response emit sends response ∷ []))
          × (((response.answers ≡ []) ⊎ (sends response ≡ true))
              × (response.code ≡ d.outcome.response_code)))
        × ((emit (max_message_size q.protocol q.edns) response ≡ some bytes)
            × ((length bytes ≤ 512) × ((is_truncated bytes ≡ false) × (h.xdp_enabled ≡ true)))))

  probe-cases :
      (h : Handler) (q : Request) (response : Response) (bytes : List ℕ)
      → probe emit sends h q response ≡ some bytes
      → (emit (max_message_size q.protocol q.edns) response ≡ some bytes)
        × ((length bytes ≤ 512) × ((is_truncated bytes ≡ false) × (h.xdp_enabled ≡ true)))
  unfolding probe serialize_for_xdp
  probe-cases h q response bytes e = elim (Bool-cases h.xdp_enabled) [
    | inr x ↦ absurd (ground arith)
    | inl x ↦ elim (Option-cases (emit (max_message_size q.protocol q.edns) response)) [
      | inl n ↦ absurd (ground arith)
      | inr (all, s) ↦
          let y : admit all ≡ some bytes = ground arith in
          let c = admit-cases all bytes y in
          (s ∙ ap some (sym c.0), (rw c.0 c.1.0, (rw c.0 c.1.1, x)))
    ]
  ]

  IsCacheable : Handler → Request → Done → Type 0
  IsCacheable h q d =
      (bytes : List ℕ)
      → d.outcome.response_bytes ≡ some bytes
      → IsHandedOver h q d bytes × (is_negative_cacheable d.outcome.response_code ≡ true)

  refuse-IsCacheable :
      (h : Handler) (q : Request) (code : ResponseCode) → IsCacheable h q (refuse emit sends code)
  unfolding IsCacheable refuse
  refuse-IsCacheable h q code bytes e = absurd cc

  positive-IsCacheable :
      (h : Handler) (q : Request) (name : String) (authoritative : Bool) (records : List Record)
      → IsCacheable h q (positive_done emit sends h q name authoritative records)
  unfolding IsCacheable positive_done IsHandedOver answer_response
  positive-IsCacheable h q name authoritative records bytes e =
      elim (Bool-cases (sends (answer_response authoritative records))) [
        | inr s ↦ absurd (ground arith)
        | inl s ↦
            let k : probe emit sends h q (answer_response authoritative records) ≡ some bytes =
              ground arith in
            let c = probe-cases h q (answer_response authoritative records) bytes k in
            rw s (
              (
                answer_response authoritative records,
                (
                  (
                    ap (λ x. x ∷ [])
                        (ap
                          (λ b. record {
                            response = answer_response authoritative records;
                            sent = b;
                          })
                          (sym s)),
                    (inr s, refl),
                  ),
                  c,
                ),
              ),
              refl,
            )
      ]

  negative-IsCacheable :
      (h : Handler) (q : Request) (name : String) (authoritative : Bool) (soa : Option Record)
      (error : LookupError)
      → IsCacheable h q (negative_done emit sends h q name authoritative soa error)
  unfolding IsCacheable negative_done IsHandedOver error_response
  negative-IsCacheable h q name authoritative soa error bytes e =
      elim (Bool-cases (is_negative_cacheable (response_code_for_lookup_error error))) [
        | inr s ↦ absurd (ground arith)
        | inl s ↦
            let r = error_response (response_code_for_lookup_error error) authoritative soa in
            let k : probe emit sends h q r ≡ some bytes = ground arith in
            let c = probe-cases h q r bytes k in ((r, ((refl, (inl refl, refl)), c)), s)
      ]

  skipped-IsCacheable : (h : Handler) (q : Request) → IsCacheable h q (skipped_done emit sends h q)
  unfolding IsCacheable skipped_done IsHandedOver error_response
  skipped-IsCacheable h q bytes e =
      let r = error_response ResponseCode.nx_domain false none in
      ((r, ((refl, (inl refl, refl)), probe-cases h q r bytes e)), refl)

  reply-IsCacheable :
      (h : Handler) (q : Request) (r : ResolveResult) (l : Lookup) (bytes : List ℕ)
      → (reply emit sends h q r l).1.outcome.response_bytes ≡ some bytes
      → IsHandedOver h q (reply emit sends h q r l).1 bytes
        × (is_negative_cacheable (reply emit sends h q r l).1.outcome.response_code ≡ true)
  unfolding reply answered failed IsCacheable IsHandedOver
  reply-IsCacheable h q r (continue_ok rs) =
      positive-IsCacheable h q (handler_name_of r.handler_name) r.authoritative
        (apply h.rotation rs).1
  reply-IsCacheable h q r (break_ok rs) =
      positive-IsCacheable h q (handler_name_of r.handler_name) r.authoritative
        (apply h.rotation rs).1
  reply-IsCacheable h q r (continue_err e) =
      negative-IsCacheable h q (handler_name_of r.handler_name) r.authoritative r.soa e
  reply-IsCacheable h q r (break_err e) =
      negative-IsCacheable h q (handler_name_of r.handler_name) r.authoritative r.soa e
  reply-IsCacheable h q r skip = skipped-IsCacheable h q

  -- Bytes that a request leaves for the kernel cache are the encoding, under the client's size
  -- limit, of the only response that was handed to `send_response`, which succeeded if that response
  -- has answers; they are at most 512, without the TC bit, the cache is on, and the response code is
  -- NOERROR or NXDOMAIN.
  pub handle_request-IsHandedOver :
      (at : ℕ) (h : Handler) (q : Request) (bytes : List ℕ)
      → (handle_request emit sends at h q).1.outcome.response_bytes ≡ some bytes
      → IsHandedOver h q (handle_request emit sends at h q).1 bytes
        × (is_negative_cacheable (handle_request emit sends at h q).1.outcome.response_code ≡ true)
  unfolding handle_request IsCacheable IsHandedOver
  handle_request-IsHandedOver at h q bytes = elim (Bool-cases (short_circuits h.middlewares)) [
    | inl s ↦ rw s (refuse-IsCacheable h q ResponseCode.refused bytes)
    | inr s ↦ elim (Option-cases q.info) [
      | inl n ↦ rw (s, n) (refuse-IsCacheable h q ResponseCode.form_err bytes)
      | inr ((name, rtype), i) ↦
          let resolved = resolve at name rtype h.chain in
          rw (s, i)
            (reply-IsCacheable (record h { chain = resolved.0 }) q resolved.1 resolved.1.outcome
              bytes)
    ]
  ]
