-- ===== src/Nacos/Mapping.antt =====
-- The service that a DNS name asks for, and the records of its instances:
-- crates/doggy-dns-nacos/src/mapping.rs. A text is its UTF-8 bytes, and `is_utf8` is the test of
-- `str::from_utf8`.
pub mod Spelling
use doggy_dns.Common.{
  ℕ, ◌+◌, ◌-◌, Bool, true, false, ◌&&◌, ◌||◌, Option, none, some, List, [], ◌∷◌, ◌++◌, ltb, leb,
  ◌==◌, to_ascii_lowercase, if◌then◌else◌, any, length, take, drop,
}
use doggy_dns.Common.Dns.{Name, RecordType, a, aaaa, soa, other_type, IpAddr, v4, v6, Record, RData}
use doggy_dns.Nacos.Watcher.{CachedInstance}

abbrev pub Text : Type 0
Text = List ℕ

abbrev pub dot : ℕ
dot = 46

unfoldable pub eq_ignore_ascii_case : Text → Text → Bool
eq_ignore_ascii_case [] [] = true
eq_ignore_ascii_case [] (_ ∷ _) = false
eq_ignore_ascii_case (_ ∷ _) [] = false
eq_ignore_ascii_case (x ∷ xs) (y ∷ ys) =
    (to_ascii_lowercase x == to_ascii_lowercase y) && eq_ignore_ascii_case xs ys

module _ (is_utf8 : List ℕ → Bool) where
  unfoldable pub label_text : List ℕ → Option Text
  label_text label =
      if any (λ byte. ltb byte 32) label || any (λ byte. byte == dot) label
      then none
      else if is_utf8 label
      then some label
      else none

  -- The labels after the first, each behind a dot.
  unfoldable pub push_labels : Text → List (List ℕ) → Option Text
  push_labels service [] = some service
  push_labels service (label ∷ labels) = elim (label_text label) [
    | none ↦ none
    | some text ↦ push_labels (service ++ (dot ∷ text)) labels
  ]

  unfoldable pub stitch_labels : List (List ℕ) → Option Text
  stitch_labels [] = some []
  stitch_labels (label ∷ labels) = elim (label_text label) [
    | none ↦ none
    | some text ↦ push_labels text labels
  ]

  unfoldable pub label_matches : List (List ℕ) → Text → Bool
  label_matches [] text = false
  label_matches (label ∷ _) text = elim (label_text label) [
    | none ↦ false
    | some own ↦ eq_ignore_ascii_case own text
  ]

  unfoldable pub service_name_from_name : (name zone : Name) (group namespace : Text) → Option Text
  service_name_from_name name zone group namespace =
      let service_len = length name - length zone - 2 in
      let scope = drop service_len name in
      if ltb (length name) (length zone + 3)
      then none
      else elim (stitch_labels (take service_len name)) [
        | none ↦ none
        | some service ↦
            if label_matches scope group && label_matches (drop 1 scope) namespace
            then some service
            else none
      ]

-- The record of one instance, if its address is of the family asked for.
unfoldable pub record_of : Name → ℕ → RecordType → IpAddr → Option Record
record_of name ttl RecordType.a (v4 ip) =
    some (record { owner = name; ttl = ttl; rdata = RData.a ip })
record_of name ttl RecordType.a (v6 ip) = none
record_of name ttl RecordType.aaaa (v4 ip) = none
record_of name ttl RecordType.aaaa (v6 ip) =
    some (record { owner = name; ttl = ttl; rdata = RData.aaaa ip })
record_of name ttl RecordType.soa ip = none
record_of name ttl (other_type _) ip = none

unfoldable pub keep_record : Option Record → List Record → List Record
keep_record none rest = rest
keep_record (some r) rest = r ∷ rest

unfoldable pub to_dns_records : Name → List CachedInstance → ℕ → RecordType → List Record
unfolding keep_record
to_dns_records name [] ttl rtype = []
to_dns_records name (i ∷ instances) ttl rtype =
    keep_record (record_of name ttl rtype i.ip) (to_dns_records name instances ttl rtype)
