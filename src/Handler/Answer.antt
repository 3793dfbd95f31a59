-- ===== src/Handler/Answer.antt =====
-- The pieces of an answer: crates/doggy-dns-core/src/handler.rs. A response is what the builder is
-- given; its encoding under a size limit is a parameter of the handler.
use doggy_dns.Common.{
  ℕ, Bool, false, not, ◌||◌, Option, none, some, List, [], ◌∷◌, ltb, min, if◌then◌else◌, length,
  bit_and, ◌==◌,
}
use doggy_dns.Common.Dns.{
  ResponseCode, no_error, serv_fail, is_no_error, is_nx_domain, Record, LookupError, name_exists,
  response_code, net_error, other_error,
}

abbrev pub xdp_cache_max_size : ℕ
xdp_cache_max_size = 512

pub data Protocol : Type 0 where
  udp : Protocol
  other_protocol : Protocol

pub record Response : Type 0 where
  pub code : ResponseCode
  pub authoritative : Bool
  pub recursion_available : Bool
  pub answers : List Record
  pub authority : Option Record

unfoldable pub response_code_for_lookup_error : LookupError → ResponseCode
response_code_for_lookup_error name_exists = no_error
response_code_for_lookup_error (response_code code) = code
response_code_for_lookup_error (net_error is_nx_domain is_no_records_found) =
    if is_nx_domain
    then ResponseCode.nx_domain
    else if is_no_records_found
    then no_error
    else serv_fail
response_code_for_lookup_error other_error = serv_fail

abbrev pub is_negative_cacheable : ResponseCode → Bool
is_negative_cacheable code = is_no_error code || is_nx_domain code

unfoldable pub least : ℕ → Option ℕ → Option ℕ
least ttl none = some ttl
least ttl (some other) = some (min ttl other)

unfoldable pub min_ttl_from_records : List Record → Option ℕ
unfolding least
min_ttl_from_records [] = none
min_ttl_from_records (r ∷ rs) = least r.ttl (min_ttl_from_records rs)

-- An EDNS record by the payload size it advertises.
unfoldable pub max_message_size : Protocol → Option ℕ → ℕ
max_message_size udp none = 512
max_message_size udp (some max_payload) = max_payload
max_message_size other_protocol edns = 65535

-- `bytes.get(2)` and its TC bit.
abbrev pub is_truncated : List ℕ → Bool
is_truncated (_ ∷ _ ∷ flags ∷ _) = not (bit_and flags 2 == 0)
is_truncated _ = false

unfoldable pub admit : List ℕ → Option (List ℕ)
admit bytes =
    if ltb xdp_cache_max_size (length bytes)
    then none
    else if is_truncated bytes
    then none
    else some bytes

-- `emit` encodes a response under a size limit, `none` when it fails.
unfoldable pub serialize_for_xdp :
    (emit : ℕ → Response → Option (List ℕ)) → Protocol → Option ℕ → Response → Option (List ℕ)
unfolding max_message_size admit
serialize_for_xdp emit protocol edns response =
    elim (emit (max_message_size protocol edns) response) [ none ↦ none | some bytes ↦ admit bytes ]

unfoldable pub error_response : ResponseCode → Bool → Option Record → Response
error_response code authoritative soa = record {
  code = code;
  authoritative = authoritative;
  recursion_available = not authoritative;
  answers = [];
  authority = soa;
}

unfoldable pub answer_response : Bool → List Record → Response
answer_response authoritative records = record {
  code = no_error;
  authoritative = authoritative;
  recursion_available = not authoritative;
  answers = records;
  authority = none;
}
