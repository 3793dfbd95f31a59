-- ===== src/Observability/Auth/Distinct.antt =====
-- The names of the headers through the steps of `resolve_headers` of
-- crates/doggy-dns-observability/src/auth.rs.
use doggy_dns.Common.{
  ◌≡◌, false, not, ◌&&◌, Option, none, some, List, [], ◌∷◌, ◌++◌, All, if◌then◌else◌, Bool-cases,
  inl, inr,
}
use doggy_dns.Common.Text.{
  Text, text, text_eq_iff, is_empty, is_blank, lowercase, trim, split_on, split_once,
}
use doggy_dns.Common.Results.{Result, ok, err, ◌>>=◌, ensure}
use doggy_dns.Config.Env.{expand_env}
use doggy_dns.Config.Schema.{BasicAuthConfig}
use doggy_dns.Observability.Auth.{
  Codecs, HeaderError, Headers, eq_ignore_ascii_case, insert_header, percent_decode, add_pair,
  env_loop, env_headers, expanded, config_loop, is_authorized, add_basic_auth, authorize,
}
use doggy_dns.Observability.Auth.Configured.{neither}
use doggy_dns.Observability.Auth.Names.{
  IsOther, AreDistinct, insert-AreDistinct, insert_header-AreDistinct,
}

-- What a step leaves of headers with distinct names.
abbrev pub StaysDistinct : Result HeaderError Headers → Type 0
StaysDistinct (ok headers) = AreDistinct headers
StaysDistinct (err e) = Unit

then-StaysDistinct :
    (m : Result HeaderError Headers) (go : Headers → Result HeaderError Headers)
    → StaysDistinct m
    → ((headers : Headers) → AreDistinct headers → StaysDistinct (go headers))
    → StaysDistinct (m >>= go)
then-StaysDistinct (ok headers) go h step = step headers h
then-StaysDistinct (err e) go h step = tt

always-StaysDistinct :
    {A : Type 0} (m : Result HeaderError A) (go : A → Result HeaderError Headers)
    → ((a : A) → StaysDistinct (go a))
    → StaysDistinct (m >>= go)
always-StaysDistinct (ok a) go step = step a
always-StaysDistinct (err e) go step = tt

pub StaysDistinct-ok :
    (m : Result HeaderError Headers) {headers : Headers}
    → StaysDistinct m
    → m ≡ ok headers
    → AreDistinct headers
StaysDistinct-ok (ok made) {headers} h e = let same : made ≡ headers = cc in rw (← same) h
StaysDistinct-ok (err e) h p = cc

-- Headers without an Authorization header may take one.
pub is_authorized-others :
    (headers : Headers)
    → is_authorized headers ≡ false
    → All (IsOther (lowercase (text "Authorization"))) headers
is_authorized-others [] h = tt
is_authorized-others (header ∷ headers) h =
    let parts = neither (eq_ignore_ascii_case header.0 (text "authorization")) _ h in
    (
      (λ p. let q = (text_eq_iff (lowercase header.0) (text "authorization")).1 p in cc (parts.0)),
      is_authorized-others headers parts.1,
    )

module _ (codecs : Codecs) (env : Text → Option Text) where
  add_pair-StaysDistinct :
      (headers : Headers) (pair : Text) (parts : Option (Text × Text))
      → AreDistinct headers
      → StaysDistinct (add_pair codecs headers pair parts)
  add_pair-StaysDistinct headers pair none h = tt
  add_pair-StaysDistinct headers pair (some (key, value)) h =
      always-StaysDistinct (percent_decode codecs (trim key)) _ λ name.
        always-StaysDistinct (ensure (not (is_empty name)) _) _ λ _.
          always-StaysDistinct (percent_decode codecs (trim value)) _
            λ decoded. insert_header-AreDistinct headers name decoded h

  env_loop-StaysDistinct :
      (headers : Headers) (pairs : List Text)
      → AreDistinct headers
      → StaysDistinct (env_loop codecs headers pairs)
  env_loop-StaysDistinct headers [] h = h
  env_loop-StaysDistinct headers (raw ∷ pairs) h =
      then-StaysDistinct
        (if is_empty (trim raw)
          then ok headers
          else add_pair codecs headers (trim raw) (split_once b'=' (trim raw)))
        (λ headers'. env_loop codecs headers' pairs)
        (elim (Bool-cases (is_empty (trim raw))) [
          | inl e ↦ rw e h
          | inr e ↦ rw e (add_pair-StaysDistinct headers (trim raw) (split_once b'=' (trim raw)) h)
        ])
        (λ headers' h'. env_loop-StaysDistinct headers' pairs h')

  pub env_headers-StaysDistinct : (raw : Option Text) → StaysDistinct (env_headers codecs raw)
  env_headers-StaysDistinct none = tt
  env_headers-StaysDistinct (some raw) = elim (Bool-cases (is_blank raw)) [
    | inl e ↦ rw e tt
    | inr e ↦ rw e (env_loop-StaysDistinct [] (split_on b',' raw) tt)
  ]

  pub config_loop-StaysDistinct :
      (headers : Headers) (configured : List (Text × Text))
      → AreDistinct headers
      → StaysDistinct (config_loop env headers configured)
  config_loop-StaysDistinct headers [] h = h
  config_loop-StaysDistinct headers ((key, value) ∷ others) h =
      always-StaysDistinct (ensure (not (is_blank key)) _) _ λ _.
        always-StaysDistinct (expanded key (expand_env env value)) _ λ value'.
          config_loop-StaysDistinct (insert_header headers (trim key) value') others
            (insert_header-AreDistinct headers (trim key) value' h)

  add_basic_auth-StaysDistinct :
      (headers : Headers) (auth : BasicAuthConfig)
      → is_authorized headers ≡ false
      → AreDistinct headers
      → StaysDistinct (add_basic_auth codecs env headers auth)
  add_basic_auth-StaysDistinct headers auth no_auth h =
      always-StaysDistinct (expanded _ (expand_env env auth.username)) _ λ username.
        always-StaysDistinct (expanded _ (expand_env env auth.password)) _ λ password.
          always-StaysDistinct (ensure (not (is_empty username) && not (is_empty password)) _) _
            λ _.
              insert-AreDistinct (text "Authorization")
                (text "Basic " ++ codecs.base64 (username ++ (b':' ∷ password))) headers
                (is_authorized-others headers no_auth) h

  pub authorize-StaysDistinct :
      (headers : Headers) (auth : Option BasicAuthConfig)
      → AreDistinct headers
      → StaysDistinct (authorize codecs env headers auth)
  authorize-StaysDistinct headers none h = h
  authorize-StaysDistinct headers (some auth) h = elim (Bool-cases (is_authorized headers)) [
    | inl e ↦ rw e h
    | inr e ↦ rw e (add_basic_auth-StaysDistinct headers auth e h)
  ]
