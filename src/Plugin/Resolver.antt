-- ===== src/Plugin/Resolver.antt =====
-- What the two recursive authorities make of a resolver's reply: `ForwardAuthority::lookup` and
-- `classify_error` of crates/doggy-dns-plugin/src/builtin/forward.rs, `NativeAuthority::lookup` of
-- builtin/native.rs. The resolver's reply is an argument.
pub mod Codes
use doggy_dns.Common.{
  ℕ, Bool, true, false, ◌≡◌, ◌≢◌, ◌⊎◌, inl, inr, refl, ◌||◌, Option, none, some, List, [], ◌∷◌,
  if◌then◌else◌,
}
use doggy_dns.Common.Dns.{
  ResponseCode, no_error, nx_domain, serv_fail, Record, Lookup, continue_ok, continue_err, skip,
  LookupError, name_exists, response_code,
}

-- hickory's NetError: `dns` is `NetError::Dns(DnsError::ResponseCode(_))`.
pub record NetError : Type 0 where
  pub is_nx_domain : Bool
  pub is_no_records_found : Bool
  pub dns : Option ResponseCode

pub data Resolved : Type 0 where
  answers : List Record → Resolved
  failed : NetError → Resolved

unfoldable pub classify_error : NetError → ResponseCode × LookupError
classify_error error =
    if error.is_nx_domain
    then (nx_domain, response_code nx_domain)
    else if error.is_no_records_found
    then (no_error, name_exists)
    else elim error.dns [
      | some code ↦ (code, response_code code)
      | none ↦ (serv_fail, response_code serv_fail)
    ]

unfoldable pub forward_lookup : Resolved → Lookup
unfolding classify_error
forward_lookup (answers []) = continue_err name_exists
forward_lookup (answers (r ∷ rs)) = continue_ok (r ∷ rs)
forward_lookup (failed error) = continue_err (classify_error error).1

unfoldable pub native_lookup : Resolved → Lookup
native_lookup (answers []) = skip
native_lookup (answers (r ∷ rs)) = continue_ok (r ∷ rs)
native_lookup (failed error) = skip
