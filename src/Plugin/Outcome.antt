-- ===== src/Plugin/Outcome.antt =====
-- `MiddlewareAction` and `RequestOutcome`: crates/doggy-dns-plugin/src/plugin.rs.
use doggy_dns.Common.{ℕ, String, Option, none, some, List}
use doggy_dns.Common.Dns.{ResponseCode, no_error, nx_domain}

pub data MiddlewareAction : Type 0 where
  continue : MiddlewareAction
  short_circuit : MiddlewareAction

pub record RequestOutcome : Type 0 where
  pub response_code : ResponseCode
  pub authority : Option String
  pub answers : ℕ
  pub response_bytes : Option (List ℕ)
  pub min_answer_ttl : Option ℕ

abbrev pub error : ResponseCode → RequestOutcome
error code = record {
  response_code = code;
  authority = none;
  answers = 0;
  response_bytes = none;
  min_answer_ttl = none;
}

abbrev pub authority_error : ResponseCode → String → RequestOutcome
authority_error code authority = record {
  response_code = code;
  authority = some authority;
  answers = 0;
  response_bytes = none;
  min_answer_ttl = none;
}

abbrev pub success : String → ℕ → Option (List ℕ) → Option ℕ → RequestOutcome
success authority answers response_bytes min_answer_ttl = record {
  response_code = no_error;
  authority = some authority;
  answers = answers;
  response_bytes = response_bytes;
  min_answer_ttl = min_answer_ttl;
}

abbrev pub nxdomain : Option (List ℕ) → RequestOutcome
nxdomain response_bytes = record {
  response_code = nx_domain;
  authority = none;
  answers = 0;
  response_bytes = response_bytes;
  min_answer_ttl = none;
}
