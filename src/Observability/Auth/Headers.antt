-- ===== src/Observability/Auth/Headers.antt =====
-- What `resolve_headers` of crates/doggy-dns-observability/src/auth.rs makes of the environment's
-- and the configured headers.
use doggy_dns.Common.{
  ◌≡◌, refl, ap, true, false, not, ◌&&◌, Option, none, some, List, [], ◌∷◌, ◌++◌, All, Bool-cases,
  inl, inr,
}
use doggy_dns.Common.Text.{Text, text, text_eq, text_eq_iff, is_empty, lowercase, trim}
use doggy_dns.Common.Results.{Result, ok, >>=-eq-ok, ensure, ensure-eq-ok}
use doggy_dns.Config.Env.{expand_env}
use doggy_dns.Config.Schema.{BasicAuthConfig, ObservabilityConfig}
use doggy_dns.Observability.Auth.{
  Codecs, HeaderError, Headers, insert, env_headers, expanded, config_loop, is_authorized,
  add_basic_auth, authorize, check_headers, resolve_headers,
}
use doggy_dns.Observability.Auth.Configured.{
  Has, Has-All, remove-Has, last_named, Stands, config_loop-Stands,
}
use doggy_dns.Observability.Auth.Distinct.{
  StaysDistinct-ok, is_authorized-others, env_headers-StaysDistinct, config_loop-StaysDistinct,
  authorize-StaysDistinct,
}
use doggy_dns.Observability.Auth.Names.{IsOther, AreDistinct}

covered_by :
    {headers result : Headers}
    → (let made : Result HeaderError Headers = ok headers in made ≡ ok result)
    → is_authorized headers ≡ true
    → is_authorized result ≡ true
covered_by {headers} {result} h a = let same : headers ≡ result = cc in rw (← same) a

module _ (codecs : Codecs) (env : Text → Option Text) where
  -- Basic authentication that is configured is in the headers, or another one is.
  abbrev pub IsCovered : Option BasicAuthConfig → Headers → Type 0
  IsCovered none headers = Unit
  IsCovered (some auth) headers = is_authorized headers ≡ true

  add_basic_auth-covers :
      (headers : Headers) (auth : BasicAuthConfig) {result : Headers}
      → add_basic_auth codecs env headers auth ≡ ok result
      → is_authorized result ≡ true
  add_basic_auth-covers headers auth h =
      let u = >>=-eq-ok (expanded _ (expand_env env auth.username)) _ h in
      let p = >>=-eq-ok (expanded _ (expand_env env auth.password)) _ u.2 in
      let e = >>=-eq-ok (ensure (not (is_empty u.0) && not (is_empty p.0)) _) _ p.2 in
      covered_by e.2 refl

  authorize-covers :
      (headers : Headers) (auth : Option BasicAuthConfig) {result : Headers}
      → authorize codecs env headers auth ≡ ok result
      → IsCovered auth result
  authorize-covers headers none h = tt
  authorize-covers headers (some auth) {result} h = elim (Bool-cases (is_authorized headers)) [
    | inl e ↦ covered_by (rw e at h) e
    | inr e ↦ add_basic_auth-covers headers auth (rw e at h)
  ]

  abbrev pub IsSendable : Text × Text → Type 0
  IsSendable header =
      (codecs.is_header_name header.0 ≡ true) × (codecs.is_header_value header.1 ≡ true)

  check_headers-IsSendable :
      (headers : Headers) {u : Unit {0}}
      → check_headers codecs headers ≡ ok u
      → All IsSendable headers
  check_headers-IsSendable [] h = tt
  check_headers-IsSendable ((name, value) ∷ headers) h =
      let n = >>=-eq-ok (ensure (codecs.is_header_name name) _) _ h in
      let v = >>=-eq-ok (ensure (codecs.is_header_value value) _) _ n.2 in
      (
        (
          ensure-eq-ok (codecs.is_header_name name) _ n.1,
          ensure-eq-ok (codecs.is_header_value value) _ v.1,
        ),
        check_headers-IsSendable headers v.2,
      )

  -- A header stays when basic authentication is added.
  add_basic_auth-Has :
      (headers : Headers) (auth : BasicAuthConfig) (header : Text × Text) {result : Headers}
      → is_authorized headers ≡ false
      → add_basic_auth codecs env headers auth ≡ ok result
      → Has header headers
      → Has header result
  add_basic_auth-Has headers auth header {result} no_auth h has =
      let u = >>=-eq-ok (expanded _ (expand_env env auth.username)) _ h in
      let p = >>=-eq-ok (expanded _ (expand_env env auth.password)) _ u.2 in
      let e = >>=-eq-ok (ensure (not (is_empty u.0) && not (is_empty p.0)) _) _ p.2 in
      let made : Headers =
        insert (text "Authorization") (text "Basic " ++ codecs.base64 (u.0 ++ (b':' ∷ p.0)))
          headers in
      let same : made ≡ result = cc (e.2) in
      let other =
        Has-All (IsOther (lowercase (text "Authorization"))) header headers
          (is_authorized-others headers no_auth) has in
      rw (← same) (
        inr (
          remove-Has (text "Authorization") header headers
            (elim (Bool-cases (text_eq header.0 (text "Authorization"))) [
              | inr n ↦ n
              | inl n ↦ absurd (other (ap lowercase ((text_eq_iff header.0 _).0 n)))
            ])
            has))

  authorize-Has :
      (headers : Headers) (auth : Option BasicAuthConfig) (header : Text × Text) {result : Headers}
      → authorize codecs env headers auth ≡ ok result
      → Has header headers
      → Has header result
  authorize-Has headers none header {result} h has =
      let same : headers ≡ result = cc in rw (← same) has
  authorize-Has headers (some auth) header {result} h has =
      elim (Bool-cases (is_authorized headers)) [
        | inl e ↦
            let kept : (let r : Result HeaderError Headers = ok headers in r ≡ ok result) =
              rw e at h in
            let same : headers ≡ result = cc in rw (← same) has
        | inr e ↦ add_basic_auth-Has headers auth header e (rw e at h) has
      ]

  authorize-Stands :
      (headers : Headers) (auth : Option BasicAuthConfig) {result : Headers}
      → (configured : List (Text × Text)) → authorize codecs env headers auth ≡ ok result
      → All (Stands env headers) configured
      → All (Stands env result) configured
  authorize-Stands headers auth [] h all = tt
  authorize-Stands headers auth (c ∷ configured) h all = (
    (all.0.0, all.0.1, authorize-Has headers auth (trim c.0, all.0.0) h all.0.2),
    authorize-Stands headers auth configured h all.1,
  )

  -- The headers that are returned have distinct names, whatever their case; each configured header
  -- whose name no later one has stands among them, with its value expanded, whatever the
  -- environment gives for the name; each header is a name and a value that can be sent; and where
  -- basic authentication is configured there is an Authorization header.
  pub resolve_headers-AreDistinct :
      (config : ObservabilityConfig) (headers : Headers)
      → resolve_headers codecs env config ≡ ok headers
      → AreDistinct headers
        × All (Stands env headers) (last_named config.headers)
        × All IsSendable headers
        × IsCovered config.basic_auth headers
  unfolding resolve_headers
  resolve_headers-AreDistinct config headers h =
      let raw = env (text "OTEL_EXPORTER_OTLP_HEADERS") in
      let e = >>=-eq-ok (env_headers codecs raw) _ h in
      let c = >>=-eq-ok (config_loop env e.0 config.headers) _ e.2 in
      let a = >>=-eq-ok (authorize codecs env c.0 config.basic_auth) _ c.2 in
      let k = >>=-eq-ok (check_headers codecs a.0) _ a.2 in
      let same : a.0 ≡ headers = cc (k.2) in
      let from_env =
        StaysDistinct-ok (env_headers codecs raw) (env_headers-StaysDistinct codecs env raw) e.1 in
      let configured =
        StaysDistinct-ok (config_loop env e.0 config.headers)
          (config_loop-StaysDistinct codecs env e.0 config.headers from_env) c.1 in
      rw (← same) (
        StaysDistinct-ok (authorize codecs env c.0 config.basic_auth)
            (authorize-StaysDistinct codecs env c.0 config.basic_auth configured) a.1,
        authorize-Stands c.0 config.basic_auth (last_named config.headers) a.1
            (config_loop-Stands env e.0 config.headers c.0 c.1),
        check_headers-IsSendable a.0 k.1,
        authorize-covers c.0 config.basic_auth a.1,
      )
