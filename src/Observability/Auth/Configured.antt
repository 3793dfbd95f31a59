-- ===== src/Observability/Auth/Configured.antt =====
-- What becomes of a configured header in `resolve_headers` of
-- crates/doggy-dns-observability/src/auth.rs.
use doggy_dns.Common.{
  ◌≡◌, ◌⊎◌, refl, ap, Bool, true, false, not, ◌||◌, Option, none, some, List, [], ◌∷◌, All, any,
  if◌then◌else◌, Bool-cases, inl, inr,
}
use doggy_dns.Common.Text.{Text, text_eq, text_eq_iff, is_blank, lowercase, trim}
use doggy_dns.Common.Results.{Result, ok, err, >>=-eq-ok, ensure}
use doggy_dns.Config.Env.{EnvError, expand_env}
use doggy_dns.Observability.Auth.{
  Headers, eq_ignore_ascii_case, find_name, remove, remove_found, insert_header, expanded,
  config_loop,
}

-- The header is among the headers.
abbrev pub Has : Text × Text → Headers → Type 0
Has header [] = ⊥
Has header (first ∷ headers) = (first ≡ header) ⊎ Has header headers

-- Another configured header has the name, but for the case and the blanks round it.
abbrev pub is_named : Text → List (Text × Text) → Bool
is_named name configured = any (λ c. eq_ignore_ascii_case name (trim c.0)) configured

-- The configured headers whose name no later one has.
abbrev pub last_named : List (Text × Text) → List (Text × Text)
last_named [] = []
last_named (c ∷ others) =
    let later = last_named others in if is_named (trim c.0) others then later else c ∷ later

pub remove-Has :
    (name : Text) (header : Text × Text) (headers : Headers)
    → text_eq header.0 name ≡ false
    → Has header headers
    → Has header (remove name headers)
remove-Has name header [] other h = h
remove-Has name header (first ∷ headers) other (inl e) =
    let kept : text_eq first.0 name ≡ false = rw e other in rw kept (inl e)
remove-Has name header (first ∷ headers) other (inr h) = elim (Bool-cases (text_eq first.0 name)) [
  | inl e ↦ rw e (remove-Has name header headers other h)
  | inr e ↦ rw e (inr (remove-Has name header headers other h))
]

-- A text that equals another equals it but for the case.
differs : (s t : Text) → eq_ignore_ascii_case s t ≡ false → text_eq s t ≡ false
differs s t h = elim (Bool-cases (text_eq s t)) [
  | inr e ↦ e
  | inl e ↦
      let same =
        (text_eq_iff (lowercase s) (lowercase t)).1 (ap lowercase ((text_eq_iff s t).0 e)) in
      cc
]

find_name-matches :
    (name found : Text) (headers : Headers)
    → find_name name headers ≡ some found
    → eq_ignore_ascii_case found name ≡ true
find_name-matches name found [] h = cc
find_name-matches name found (first ∷ headers) h =
    elim (Bool-cases (eq_ignore_ascii_case first.0 name)) [
      | inl e ↦
          let taken : some first.0 ≡ some found = rw e at h in
          let same : first.0 ≡ found = cc in rw (← same) e
      | inr e ↦ find_name-matches name found headers (rw e at h)
    ]

remove_found-Has :
    (name : Text) (header : Text × Text) (headers : Headers) (o : Option Text)
    → find_name name headers ≡ o
    → eq_ignore_ascii_case header.0 name ≡ false
    → Has header headers
    → Has header (remove_found o headers)
remove_found-Has name header headers none f other h = h
remove_found-Has name header headers (some found) f other h =
    let matches = find_name-matches name found headers f in
    remove-Has found header headers
      (elim (Bool-cases (text_eq header.0 found)) [
        | inr e ↦ e
        | inl e ↦
            let same = (text_eq_iff header.0 found).0 e in
            let clash : eq_ignore_ascii_case header.0 name ≡ true = rw same matches in cc
      ])
      h

insert_header-Has :
    (name value : Text) (header : Text × Text) (headers : Headers)
    → eq_ignore_ascii_case header.0 name ≡ false
    → Has header headers
    → Has header (insert_header headers name value)
unfolding insert_header
insert_header-Has name value header headers other h = inr (
    remove-Has name header (remove_found (find_name name headers) headers)
      (differs header.0 name other)
      (remove_found-Has name header headers (find_name name headers) refl other h))

pub neither : (a b : Bool) → (a || b) ≡ false → (a ≡ false) × (b ≡ false)
neither true b h = cc
neither false b h = (refl, h)

expanded-ok :
    (name : Text) (value : Text) (r : Result EnvError Text)
    → expanded name r ≡ ok value
    → r ≡ ok value
expanded-ok name value (ok made) h = let same : made ≡ value = cc in ap ok same
expanded-ok name value (err e) h = cc

-- What holds for all the headers holds for one that is among them.
pub Has-All :
    (P : Text × Text → Type 0) (header : Text × Text) (headers : Headers)
    → All P headers
    → Has header headers
    → P header
Has-All P header [] all h = absurd h
Has-All P header (first ∷ headers) all (inl e) = rw (← e) all.0
Has-All P header (first ∷ headers) all (inr h) = Has-All P header headers all.1 h

module _ (env : Text → Option Text) where
  config_loop-Has :
      (headers : Headers) (configured : List (Text × Text)) (header : Text × Text)
      (result : Headers)
      → config_loop env headers configured ≡ ok result
      → is_named header.0 configured ≡ false
      → Has header headers
      → Has header result
  config_loop-Has headers [] header result h other has =
      let same : headers ≡ result = cc in rw (← same) has
  config_loop-Has headers ((key, value) ∷ others) header result h other has =
      let names =
        neither (eq_ignore_ascii_case header.0 (trim key)) (is_named header.0 others) other in
      let k = >>=-eq-ok (ensure (not (is_blank key)) _) _ h in
      let v = >>=-eq-ok (expanded key (expand_env env value)) _ k.2 in
      config_loop-Has (insert_header headers (trim key) v.0) others header result v.2 names.1
        (insert_header-Has (trim key) v.0 header headers names.0 has)

  -- The configured header stands with its value, expanded.
  abbrev pub Stands : Headers → Text × Text → Type 0
  Stands headers configured =
      (value : Text) × (expand_env env configured.1 ≡ ok value)
      × Has (trim configured.0, value) headers

  pub config_loop-Stands :
      (headers : Headers) (configured : List (Text × Text)) (result : Headers)
      → config_loop env headers configured ≡ ok result
      → All (Stands result) (last_named configured)
  config_loop-Stands headers [] result h = tt
  config_loop-Stands headers ((key, value) ∷ others) result h =
      let k = >>=-eq-ok (ensure (not (is_blank key)) _) _ h in
      let v = >>=-eq-ok (expanded key (expand_env env value)) _ k.2 in
      let later = config_loop-Stands (insert_header headers (trim key) v.0) others result v.2 in
      elim (Bool-cases (is_named (trim key) others)) [
        | inl e ↦ rw e later
        | inr e ↦ rw e (
          (
            v.0,
            expanded-ok key v.0 (expand_env env value) v.1,
            config_loop-Has (insert_header headers (trim key) v.0) others (trim key, v.0) result v.2
                e (unfold insert_header in (inl refl)),
          ),
          later,
        )
      ]
