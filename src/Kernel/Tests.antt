-- ===== src/Kernel/Tests.antt =====
-- A query for `A` on the wire, its cached answer, and what the program makes of them.
use mathlib.Core.Logic.{◌↔◌}
use mathlib.Core.Path.{subst}
use doggy_dns.Common.{
  ℕ, ◌+◌, ◌-◌, ◌%◌, ◌≤◌, ◌<◌, ◌^◌, ◌*◌, ◌≡◌, ◌≢◌, refl, ap, sym, ◌∙◌, false, Option, none, some,
  List, [], ◌∷◌, arith, All, leb, if◌then◌else◌,
}
use doggy_dns.Common.Dns.{Name, no_error}
use doggy_dns.Cache.Hash.{CacheKey, make_cache_key, fnv1a_64, lowercase_wire}
use doggy_dns.Cache.Entry.{CacheValue, byte_or_zero}
use doggy_dns.Cache.Middleware.{compute_cache_entry, entry_ttl}
use doggy_dns.Kernel.Memory.{Frame, HasBytes, read_u16_be, write_u16_be}
use doggy_dns.Kernel.Question.{parse_dns_question}
use doggy_dns.Kernel.Question.Reference.{reference_question}
use doggy_dns.Kernel.Question.Agree.{parse_dns_question-reference}
use doggy_dns.Kernel.Question.Names.{IsLabel, Asks, parse-make_cache_key}
use doggy_dns.Kernel.Reply.{write_positive}
use doggy_dns.Kernel.Reply.Copy.{answered, write_positive_lem}
use doggy_dns.Kernel.Headers.Checksum.{updated_check-valid}
use doggy_dns.Kernel.Headers.Payload.{payload_kept}
use doggy_dns.Kernel.Headers.{finalize_headers, updated_check, rewrite_udp, rewrite_ip, swap_eth}
use doggy_dns.Kernel.Program.{
  Verdict, finished, failed, pass, tx, hit, miss, Query, parse_query, key_of, try_dns_xdp,
}
use doggy_dns.Kernel.Program.Outcomes.{pass_unchanged}
use doggy_dns.Kernel.Program.Taken.{IsTaken, parse_query_iff}
use doggy_dns.Kernel.Program.Served.{IsCachedReply, hit-IsCachedReply}
use doggy_dns.Kernel.Program.Drops.{ResizesBy, complete-ne-failed}
use doggy_dns.Kernel.Program.Answered.{stored-answered}
use doggy_dns.Kernel.Program.EndToEnd.{key_of-make_cache_key, hit-returns_response}

-- Ethernet, IPv4, UDP to port 53 with a length of 27, the DNS header with one question, `A` IN A.
abbrev wire : List ℕ
wire =
    2 ∷ 0 ∷ 0 ∷ 0 ∷ 0 ∷ 1 ∷ 2 ∷ 0 ∷ 0 ∷ 0 ∷ 0 ∷ 2 ∷ 8 ∷ 0 ∷ 69 ∷ 0 ∷ 0 ∷ 47 ∷ 0 ∷ 0 ∷ 0 ∷ 0 ∷ 64
    ∷ 17 ∷ 0 ∷ 0 ∷ 10 ∷ 0 ∷ 0 ∷ 1 ∷ 10 ∷ 0 ∷ 0 ∷ 2 ∷ 4 ∷ 0 ∷ 0 ∷ 53 ∷ 0 ∷ 27 ∷ 0 ∷ 0 ∷ 18 ∷ 52 ∷ 1
    ∷ 0 ∷ 0 ∷ 1 ∷ 0 ∷ 0 ∷ 0 ∷ 0 ∷ 0 ∷ 0 ∷ 1 ∷ 65 ∷ 0 ∷ 0 ∷ 1 ∷ 0 ∷ 1 ∷ []

abbrev query_frame : Frame
query_frame = record { byte = λ i. byte_or_zero wire i % 256; size = 61 }

query_frame-HasBytes : HasBytes query_frame.byte
query_frame-HasBytes i = omega arith

abbrev asked_name : Name
asked_name = (65 ∷ []) ∷ []

asked_name-IsLabel : All IsLabel asked_name
asked_name-IsLabel = ((omega arith, omega arith, (omega arith, tt)), tt)

asked : Asks query_frame 42 asked_name 1 1
unfolding read_u16_be
asked = record {
  labels = refl;
  root = refl;
  type_field = refl;
  class_field = refl;
  fits = omega arith;
}

abbrev sample_query : Query
sample_query = record {
  ip_hdr_len = 20;
  udp_offset = 34;
  dns_offset = 42;
  old_dns_len = 19;
  question = record {
    name_hash = fnv1a_64 (lowercase_wire asked_name);
    qtype = 1;
    qclass = 1;
    question_len = 7;
  };
}

sample_parsed : parse_query (some 53) query_frame ≡ some sample_query
unfolding parse_query parse_dns_question read_u16_be fnv1a_64 lowercase_wire
sample_parsed = refl

abbrev dns_offset_of : Option Query → ℕ
dns_offset_of none = 0
dns_offset_of (some q) = q.dns_offset

sample_Asks :
    (q : Query)
    → parse_query (some 53) query_frame ≡ some q
    → Asks query_frame q.dns_offset asked_name 1 1
sample_Asks q e =
    let at : 42 ≡ q.dns_offset = ap dns_offset_of (sym sample_parsed ∙ e) in
    subst (λ d. Asks query_frame d asked_name 1 1) at asked

-- A response of 19 bytes to be cached, and a cache that holds it under every key.
abbrev response : List ℕ
response =
    0 ∷ 0 ∷ 129 ∷ 128 ∷ 0 ∷ 1 ∷ 0 ∷ 0 ∷ 0 ∷ 0 ∷ 0 ∷ 0 ∷ 1 ∷ 65 ∷ 0 ∷ 0 ∷ 1 ∷ 0 ∷ 1 ∷ 7 ∷ 7 ∷ []

abbrev full_cache : CacheKey → Option CacheValue
full_cache key = some (compute_cache_entry asked_name 1 1 no_error response (some 60) 30 1000).1

abbrev grow : Frame → (old new : ℕ) → Option Frame
grow f old new = some (record f { size = f.size + new - old })

-- A resize that changes the size by the difference, or refuses.
abbrev fits_or_refuse : Frame → (old new : ℕ) → Option Frame
fits_or_refuse f old new =
    if leb old (f.size + new) then some (record f { size = f.size + new - old }) else none

abbrev stored_entry : CacheValue
stored_entry = (compute_cache_entry asked_name 1 1 no_error response (some 60) 30 1000).1

abbrev message_end : Option Query → ℕ
message_end none = 0
message_end (some q) = q.dns_offset + q.old_dns_len

abbrev frame_of : Verdict → Frame
frame_of (finished action outcome f) = f
frame_of failed = query_frame

sample_hit :
    try_dns_xdp grow (some 53) full_cache 2000 query_frame
    ≡ finished tx (some hit) (frame_of (try_dns_xdp grow (some 53) full_cache 2000 query_frame))
unfolding try_dns_xdp parse_query parse_dns_question read_u16_be compute_cache_entry write_positive
    write_u16_be finalize_headers
sample_hit = refl

parse_dns_question-reference_example :
    parse_dns_question query_frame 42 ≡ reference_question query_frame 42
parse_dns_question-reference_example =
    parse_dns_question-reference query_frame query_frame-HasBytes 42

parse-make_cache_key_example :
    parse_dns_question query_frame 42
    ≡ some (record {
      name_hash = (make_cache_key asked_name 1 1).name_hash;
      qtype = 1;
      qclass = 1;
      question_len = 7;
    })
parse-make_cache_key_example =
    parse-make_cache_key query_frame 42 asked_name 1 1 query_frame-HasBytes asked_name-IsLabel
      (omega arith) asked

asked_parsed : parse_dns_question query_frame 42 ≡ some sample_query.question
unfolding parse_dns_question read_u16_be fnv1a_64 lowercase_wire
asked_parsed = refl

key_of-make_cache_key_example : key_of sample_query.question ≡ make_cache_key asked_name 1 1
key_of-make_cache_key_example =
    key_of-make_cache_key query_frame 42 asked_name 1 1 sample_query.question query_frame-HasBytes
      asked_name-IsLabel (omega arith) asked asked_parsed

hit-returns_response_example :
    (q : Query) × (parse_query (some 53) query_frame ≡ some q)
    × (2000 < (1000 + entry_ttl false (some 60) 30 * 1_000_000_000) % 2 ^ 64)
    × (read_u16_be
          (frame_of (try_dns_xdp grow (some 53) full_cache 2000 query_frame)).byte
          q.dns_offset
        ≡ read_u16_be query_frame.byte q.dns_offset)
    × ((i : ℕ)
        → 2 ≤ i
        → i < 21
        → (frame_of (try_dns_xdp grow (some 53) full_cache 2000 query_frame)).byte
            (q.dns_offset + i)
          ≡ byte_or_zero response i)
hit-returns_response_example =
    hit-returns_response grow (some 53) full_cache 2000 query_frame
      (frame_of (try_dns_xdp grow (some 53) full_cache 2000 query_frame)) asked_name 1 1 response
      (some 60) 30 1000 query_frame-HasBytes asked_name-IsLabel (omega arith) sample_Asks
      (omega arith) refl sample_hit

hit-IsCachedReply_example :
    IsCachedReply
      (some 53)
      full_cache
      2000
      query_frame
      (frame_of (try_dns_xdp grow (some 53) full_cache 2000 query_frame))
hit-IsCachedReply_example =
    hit-IsCachedReply grow (some 53) full_cache 2000 query_frame
      (frame_of (try_dns_xdp grow (some 53) full_cache 2000 query_frame)) sample_hit

grow-ResizesBy : ResizesBy fits_or_refuse
grow-ResizesBy f old new g e = ground arith

sample_whole :
    (q : Query)
    → parse_query (some 53) query_frame ≡ some q
    → q.dns_offset + q.old_dns_len ≤ query_frame.size
sample_whole q e =
    let end : 61 ≡ q.dns_offset + q.old_dns_len = ap message_end (sym sample_parsed ∙ e) in
    omega (arith, end)

complete-ne-failed_example :
    try_dns_xdp fits_or_refuse (some 53) full_cache 2000 query_frame ≢ failed
complete-ne-failed_example =
    complete-ne-failed fits_or_refuse grow-ResizesBy query_frame (some 53) full_cache 2000
      sample_whole

-- A query that the cache does not hold.
sample_miss :
    try_dns_xdp grow (some 53) (λ key. none) 2000 query_frame
    ≡ finished pass (some miss) query_frame
unfolding try_dns_xdp parse_query parse_dns_question read_u16_be
sample_miss = refl

pass_unchanged_example : query_frame ≡ query_frame
pass_unchanged_example =
    pass_unchanged grow (some 53) (λ key. none) 2000 query_frame (some miss) query_frame sample_miss

parse_query_iff_example :
    (parse_query (some 53) query_frame ≡ some sample_query)
    ↔ IsTaken (some 53) query_frame sample_query
parse_query_iff_example = parse_query_iff (some 53) query_frame query_frame-HasBytes sample_query

write_positive_lem_example :
    write_positive query_frame.byte 42 66 stored_entry 21 4660
    ≡ some (answered query_frame.byte 42 stored_entry 21 4660)
write_positive_lem_example =
    write_positive_lem query_frame.byte 42 66 stored_entry 21 4660 (omega arith) (omega arith)
      (omega arith)

-- A header of total length 47 that sums to 65535 * 2 with its checksum.
updated_check-valid_example :
    (updated_check 65000 47 49 16384 0 < 65536)
    × ((updated_check 65000 47 49 16384 0 + 49 + 0 + 49639) % 65535 ≡ 0)
updated_check-valid_example =
    updated_check-valid 65000 47 49 16384 0 49639 (omega arith) (omega arith) (omega arith)
      (omega arith) (omega arith) (omega arith)

headers_done :
    finalize_headers query_frame.byte 61 20 34 19
    ≡ some (rewrite_udp (rewrite_ip (swap_eth query_frame.byte) 20 19) 34 19)
unfolding finalize_headers
headers_done = refl

payload_kept_example :
    rewrite_udp (rewrite_ip (swap_eth query_frame.byte) 20 19) 34 19 54 ≡ query_frame.byte 54
payload_kept_example =
    payload_kept query_frame.byte 61 20 34 19
      (rewrite_udp (rewrite_ip (swap_eth query_frame.byte) 20 19) 34 19) 54 (omega arith)
      (omega arith) headers_done (omega arith)

stored-answered_example :
    (f' : Frame) × (try_dns_xdp fits_or_refuse (some 53) full_cache 2000 query_frame
      ≡ finished tx (some hit) f')
unfolding entry_ttl
stored-answered_example =
    stored-answered fits_or_refuse grow-ResizesBy (some 53) full_cache 2000 query_frame asked_name 1
      1 response (some 60) 30 1000 sample_query (record query_frame { size = 63 })
      query_frame-HasBytes asked_name-IsLabel (omega arith) sample_parsed asked (omega arith)
      (omega arith) (omega arith) refl refl (omega arith)
