-- ===== src/Common/Dns.antt =====
-- The words of the DNS library that the program matches on.
use mathlib.Core.Bool.{Bool, true, false}
use mathlib.Core.List.{List}
use Prim.Native.Nat.{ℕ}

-- hickory's ResponseCode; `other` stands for those that the program never names.
pub data ResponseCode : Type 0 where
  no_error form_err serv_fail nx_domain refused : ResponseCode
  other : ℕ → ResponseCode

abbrev pub is_no_error : ResponseCode → Bool
is_no_error ResponseCode.no_error = true
is_no_error _ = false

abbrev pub is_nx_domain : ResponseCode → Bool
is_nx_domain ResponseCode.nx_domain = true
is_nx_domain _ = false

abbrev pub is_serv_fail : ResponseCode → Bool
is_serv_fail ResponseCode.serv_fail = true
is_serv_fail _ = false

-- A name as the list of its labels.
abbrev pub Name : Type 0
Name = List (List ℕ)

pub data RecordType : Type 0 where
  a aaaa soa : RecordType
  other_type : ℕ → RecordType

abbrev pub is_soa : RecordType → Bool
is_soa RecordType.soa = true
is_soa _ = false

pub data IpAddr : Type 0 where
  v4 : ℕ → IpAddr
  v6 : ℕ → IpAddr

-- The data of a record: an address, or an SOA with hickory's arguments of `SOA::new`.
pub data RData : Type 0 where
  a : ℕ → RData
  aaaa : ℕ → RData
  soa : (mname rname : Name) (serial refresh retry expire minimum : ℕ) → RData
  other_data : List ℕ → RData

pub record Record : Type 0 where
  pub owner : Name
  pub ttl : ℕ
  pub rdata : RData

-- Why a lookup has no records; `net_error` carries what the client tests of hickory's NetError.
pub data LookupError : Type 0 where
  name_exists : LookupError
  response_code : ResponseCode → LookupError
  net_error : (is_nx_domain is_no_records_found : Bool) → LookupError
  other_error : LookupError

-- `LookupControlFlow<AuthLookup>`, with the answer section for an AuthLookup.
pub data Lookup : Type 0 where
  continue_ok break_ok : List Record → Lookup
  continue_err break_err : LookupError → Lookup
  skip : Lookup
