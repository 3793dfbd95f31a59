-- ===== src/Handler/Flow.antt =====
-- `DoggyDnsHandler::handle_request`: crates/doggy-dns-core/src/handler.rs. A middleware is what its
-- `before_request` returns. `emit` encodes a response under a size limit, `sends` is whether
-- `send_response` succeeds, and the transcript lists the calls of it. `send_error` makes one call and
-- goes on as before if it fails.
pub mod Cached
use doggy_dns.Common.{
  ℕ, String, Bool, true, false, not, ◌&&◌, ◌||◌, Option, none, some, List, [], ◌∷◌, ◌++◌,
  if◌then◌else◌, length,
}
use doggy_dns.Common.Dns.{
  ResponseCode, form_err, refused, serv_fail, nx_domain, Name, RecordType, Record, Lookup,
  continue_ok, continue_err, break_ok, break_err, skip, LookupError,
}
use doggy_dns.Plugin.Outcome.{
  RequestOutcome, error, authority_error, success, nxdomain, MiddlewareAction, continue,
  short_circuit,
}
use doggy_dns.Plugin.Chain.{NamedHandler, ResolveResult, resolve}
use doggy_dns.Handler.Answer.{
  Response, Protocol, serialize_for_xdp, error_response, answer_response, min_ttl_from_records,
  response_code_for_lookup_error, is_negative_cacheable,
}
use doggy_dns.Handler.Rotation.{AnswerRotation, apply}

pub record Request : Type 0 where
  pub info : Option (Name × RecordType)
  pub protocol : Protocol
  pub edns : Option ℕ

pub record Handler : Type 0 where
  pub middlewares : List MiddlewareAction
  pub chain : List NamedHandler
  pub xdp_enabled : Bool
  pub rotation : AnswerRotation

-- A response that was handed to `send_response`, and whether it was sent.
pub record Attempt : Type 0 where
  pub response : Response
  pub sent : Bool

-- What a request leaves: the calls of `send_response`, and the outcome for the middlewares.
pub record Done : Type 0 where
  pub transcript : List Attempt
  pub outcome : RequestOutcome

abbrev pub handler_name_of : Option String → String
handler_name_of none = "none"
handler_name_of (some name) = name

abbrev pub short_circuits : List MiddlewareAction → Bool
short_circuits [] = false
short_circuits (short_circuit ∷ _) = true
short_circuits (continue ∷ rest) = short_circuits rest

module _ (emit : ℕ → Response → Option (List ℕ)) (sends : Response → Bool) where
  abbrev pub send_response : Response → Attempt
  send_response response = record { response = response; sent = sends response }

  abbrev pub send_error : ResponseCode → (authoritative : Bool) → Option Record → Attempt
  send_error code authoritative soa = send_response (error_response code authoritative soa)

  unfoldable pub refuse : ResponseCode → Done
  refuse code = record { transcript = send_error code false none ∷ []; outcome = error code }

  unfoldable pub probe : Handler → Request → Response → Option (List ℕ)
  probe h q response =
      if h.xdp_enabled then serialize_for_xdp emit q.protocol q.edns response else none

  unfoldable pub positive_done : Handler → Request → (name : String) → Bool → List Record → Done
  unfolding probe
  positive_done h q name authoritative records =
      let response = answer_response authoritative records in
      if sends response
      then record {
        transcript = send_response response ∷ [];
        outcome =
            success name (length records) (probe h q response)
              (if h.xdp_enabled then min_ttl_from_records records else none);
      }
      else record {
        transcript = send_response response ∷ send_error serv_fail false none ∷ [];
        outcome = authority_error serv_fail name;
      }

  unfoldable pub negative_done :
      Handler → Request → (name : String) → Bool → Option Record → LookupError → Done
  unfolding probe
  negative_done h q name authoritative soa e =
      let code = response_code_for_lookup_error e in
      let response = error_response code authoritative soa in
      let bytes = if is_negative_cacheable code then probe h q response else none in
      record {
        transcript = send_error code authoritative soa ∷ [];
        outcome = record (authority_error code name) { response_bytes = bytes };
      }

  unfoldable pub skipped_done : Handler → Request → Done
  unfolding probe
  skipped_done h q =
      let response = error_response nx_domain false none in
      record {
        transcript = send_error nx_domain false none ∷ [];
        outcome = nxdomain (probe h q response);
      }

  unfoldable pub answered : Handler → Request → ResolveResult → List Record → Handler × Done
  unfolding positive_done
  answered h q r lookup =
      let (rotation, records) = apply h.rotation lookup in
      (
        record h { rotation = rotation },
        positive_done h q (handler_name_of r.handler_name) r.authoritative records,
      )

  unfoldable pub failed : Handler → Request → ResolveResult → LookupError → Handler × Done
  unfolding negative_done
  failed h q r e = (h, negative_done h q (handler_name_of r.handler_name) r.authoritative r.soa e)

  unfoldable pub reply : Handler → Request → ResolveResult → Lookup → Handler × Done
  unfolding answered failed skipped_done
  reply h q r (continue_ok records) = answered h q r records
  reply h q r (break_ok records) = answered h q r records
  reply h q r (continue_err e) = failed h q r e
  reply h q r (break_err e) = failed h q r e
  reply h q r skip = (h, skipped_done h q)

  -- The number of the request is what the handlers' lookups see of the moment.
  unfoldable pub handle_request : (at : ℕ) → Handler → Request → Handler × Done
  unfolding refuse reply
  handle_request at h q =
      if short_circuits h.middlewares then (h, refuse refused) else elim q.info [
        | none ↦ (h, refuse form_err)
        | some (name, rtype) ↦
            let resolved = resolve at name rtype h.chain in
            reply (record h { chain = resolved.0 }) q resolved.1 resolved.1.outcome
      ]
