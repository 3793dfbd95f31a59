-- ===== src/Plugin/Resolver/Codes.antt =====
-- The response code that a resolver's failure reaches the client with.
use doggy_dns.Common.{◌≡◌, refl, Bool, true, false, Option, none, some}
use doggy_dns.Common.Dns.{
  ResponseCode, nx_domain, no_error, serv_fail, skip, continue_err, LookupError,
}
use doggy_dns.Plugin.Resolver.{NetError, failed, classify_error, forward_lookup, native_lookup}
use doggy_dns.Handler.Answer.{response_code_for_lookup_error}

-- The code that a failure stands for: NXDOMAIN for a name that does not exist, NOERROR for one
-- without records, else the upstream's own code, and SERVFAIL for a failure that has none.
pub data StandsFor (error : NetError) : ResponseCode → Type 0 where
  no_name : error.is_nx_domain ≡ true → StandsFor error nx_domain
  no_records :
      error.is_nx_domain ≡ false → error.is_no_records_found ≡ true → StandsFor error no_error
  upstream :
      (code : ResponseCode)
      → error.is_nx_domain ≡ false
      → error.is_no_records_found ≡ false
      → error.dns ≡ some code
      → StandsFor error code
  unreachable :
      error.is_nx_domain ≡ false
      → error.is_no_records_found ≡ false
      → error.dns ≡ none
      → StandsFor error serv_fail

classify_error-StandsFor :
    (is_nx_domain is_no_records_found : Bool) (dns : Option ResponseCode)
    → (let error : NetError = record {
      is_nx_domain = is_nx_domain;
      is_no_records_found = is_no_records_found;
      dns = dns;
    } in
        StandsFor error (response_code_for_lookup_error (classify_error error).1))
unfolding classify_error response_code_for_lookup_error
classify_error-StandsFor true is_no_records_found dns = no_name refl
classify_error-StandsFor false true dns = no_records refl refl
classify_error-StandsFor false false none = unreachable refl refl refl
classify_error-StandsFor false false (some code) = upstream code refl refl refl

-- Every failure of the forward authority's resolver is an error of its lookup, which goes to no
-- later authority, and the code that the handler answers with for that error is the one that the
-- failure stands for; the native authority leaves every failure to the next one.
pub forward-classified :
    (error : NetError)
    → ((e : LookupError) × ((forward_lookup (failed error) ≡ continue_err e)
          × StandsFor error (response_code_for_lookup_error e)))
      × (native_lookup (failed error) ≡ skip)
unfolding forward_lookup native_lookup
forward-classified error = (
  (
    (classify_error error).1,
    (refl, classify_error-StandsFor error.is_nx_domain error.is_no_records_found error.dns),
  ),
  refl,
)
