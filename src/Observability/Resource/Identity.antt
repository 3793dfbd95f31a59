-- ===== src/Observability/Resource/Identity.antt =====
-- What `build_with_env` of crates/doggy-dns-observability/src/resource.rs says of a node.
use doggy_dns.Common.{◌≡◌, refl, ap, ◌∙◌, false, Option, none, some, [], ◌∷◌, ◌++◌}
use doggy_dns.Common.Text.{Text, text, text_eq, is_empty}
use doggy_dns.Config.Schema.{ObservabilityConfig}
use doggy_dns.Config.Toml.{decimal}
use doggy_dns.Observability.Auth.{Codecs}
use doggy_dns.Observability.Resource.Sources.{
  Chosen, by_default, trimmed-Chosen, unwrap_or-or_else, Chosen-given, stated, get-given_attributes,
}
use doggy_dns.Observability.Resource.Layers.{
  get-insert, get-insert_other, get-or_insert, get-or_insert_other, get-add_environment,
}
use doggy_dns.Observability.Resource.{
  Node, Attributes, get, insert, or_insert, trimmed, or_else, unwrap_or, app_name, given_attributes,
  service_name_of, hostname_of, add_environment, detect_hostname_with, build_with_env,
}

-- The attributes that the code sets itself.
abbrev pub IsPlain : Text → Type 0
IsPlain key =
    (text_eq (text "service.name") key ≡ false)
    × (text_eq (text "service.version") key ≡ false)
    × (text_eq (text "service.instance.id") key ≡ false)
    × (text_eq (text "host.name") key ≡ false)
    × (text_eq (text "process.pid") key ≡ false)
    × (text_eq (text "deployment.environment.name") key ≡ false)

module _ (codecs : Codecs) (node : Node) (config : ObservabilityConfig) (exposure : Attributes)
    (env : Text → Option Text) where
  abbrev pub given : Attributes
  given = given_attributes codecs config exposure env

  abbrev pub hostname : Text
  hostname = hostname_of node env given

  abbrev pub built : Attributes
  built = build_with_env codecs node config exposure env

  -- The value of a key before the code sets its own: of the configuration, else of
  -- OTEL_RESOURCE_ATTRIBUTES, else of the exposure.
  abbrev pub before : Text → Option Text
  before = stated codecs config exposure env

  -- The name: the first, that is more than blanks, of the configured one, that of OTEL_SERVICE_NAME
  -- and the attribute's, or else the program's.
  abbrev pub IsName : Text → Type 0
  IsName =
      Chosen (text "doggy-dns")
        (config.service_name ∷ env (text "OTEL_SERVICE_NAME") ∷ before (text "service.name") ∷ [])

  -- The host: the first, that is more than blanks, of the attribute's, HOSTNAME's and
  -- COMPUTERNAME's, or else the operating system's name, or else `unknown`.
  abbrev pub IsHost : Text → Type 0
  IsHost =
      Chosen (unwrap_or node.os_hostname (text "unknown"))
        (before (text "host.name") ∷ env (text "HOSTNAME") ∷ env (text "COMPUTERNAME") ∷ [])

  -- What the attributes say of the node.
  pub record Identifies : Type 0 where
    pub name : Text
    pub is_name : IsName name
    pub not_empty : is_empty name ≡ false
    pub named : get (text "service.name") built ≡ some name
    pub version :
        get (text "service.version") built
        ≡ some (unwrap_or (before (text "service.version")) node.version)
    pub host : Text
    pub is_host : IsHost host
    pub instance_id :
        get (text "service.instance.id") built
        ≡ some (unwrap_or (before (text "service.instance.id")) (host ++ (b'-' ∷ decimal node.pid)))
    pub hosted : get (text "host.name") built ≡ some (unwrap_or (before (text "host.name")) host)
    pub pid :
        get (text "process.pid") built
        ≡ some (unwrap_or (before (text "process.pid")) (decimal node.pid))
    pub environment :
        get (text "deployment.environment.name") built
        ≡ or_else (trimmed config.environment) (before (text "deployment.environment.name"))

  abbrev named_layer : Attributes
  named_layer = insert (text "service.name") (service_name_of config env given) given

  abbrev version_layer : Attributes
  version_layer = or_insert (text "service.version") node.version named_layer

  abbrev instance_layer : Attributes
  instance_layer =
      or_insert (text "service.instance.id") (hostname ++ (b'-' ∷ decimal node.pid)) version_layer

  abbrev host_layer : Attributes
  host_layer = or_insert (text "host.name") hostname instance_layer

  abbrev pid_layer : Attributes
  pid_layer = or_insert (text "process.pid") (decimal node.pid) host_layer

  given-before : (key : Text) → get key given ≡ before key
  given-before key = get-given_attributes codecs config exposure env key

  service_name_of-IsName : IsName (service_name_of config env given)
  service_name_of-IsName =
      let own = env (text "OTEL_SERVICE_NAME") in
      let attribute = before (text "service.name") in
      rw
        (
          given-before (text "service.name"),
          unwrap_or-or_else (trimmed config.service_name)
              (or_else (trimmed own) (trimmed attribute)) app_name,
          unwrap_or-or_else (trimmed own) (trimmed attribute) app_name,
        )
        (trimmed-Chosen app_name config.service_name _ _
          (trimmed-Chosen app_name own _ _ (trimmed-Chosen app_name attribute _ _ by_default)))

  hostname-IsHost : IsHost hostname
  unfolding detect_hostname_with
  hostname-IsHost =
      let default = unwrap_or node.os_hostname (text "unknown") in
      let host = env (text "HOSTNAME") in
      let computer = env (text "COMPUTERNAME") in
      rw
        (
          given-before (text "host.name"),
          unwrap_or-or_else (trimmed host) (or_else (trimmed computer) node.os_hostname)
              (text "unknown"),
          unwrap_or-or_else (trimmed computer) node.os_hostname (text "unknown"),
        )
        (trimmed-Chosen default (before (text "host.name")) _ _
          (trimmed-Chosen default host _ _ (trimmed-Chosen default computer _ _ by_default)))

  -- Attributes below the layers that set other keys.
  below_pid :
      (key : Text)
      → text_eq (text "deployment.environment.name") key ≡ false
      → get key built ≡ get key pid_layer
  unfolding build_with_env
  below_pid key h = get-add_environment (trimmed config.environment) key pid_layer h

  below_host :
      (key : Text)
      → text_eq (text "deployment.environment.name") key ≡ false
      → text_eq (text "process.pid") key ≡ false
      → get key built ≡ get key host_layer
  below_host key h p = below_pid key h ∙ get-or_insert_other (text "process.pid") key _ host_layer p

  -- The attributes of a key that the layers do not set are those that are given.
  below_layers :
      (key : Text)
      → text_eq (text "service.name") key ≡ false
      → text_eq (text "service.version") key ≡ false
      → text_eq (text "service.instance.id") key ≡ false
      → text_eq (text "host.name") key ≡ false
      → text_eq (text "process.pid") key ≡ false
      → get key pid_layer ≡ before key
  below_layers key n v i h p =
      get-or_insert_other (text "process.pid") key _ host_layer p
      ∙ get-or_insert_other (text "host.name") key _ instance_layer h
      ∙ get-or_insert_other (text "service.instance.id") key _ version_layer i
      ∙ get-or_insert_other (text "service.version") key _ named_layer v
      ∙ get-insert_other (text "service.name") key _ given n
      ∙ given-before key

  above_given : (key : Text) → IsPlain key → get key built ≡ before key
  above_given key (n, v, i, h, p, e) = below_pid key e ∙ below_layers key n v i h p

  get-environment :
      (environment : Option Text)
      → get (text "deployment.environment.name") (add_environment environment pid_layer)
        ≡ or_else environment (before (text "deployment.environment.name"))
  get-environment none = below_layers (text "deployment.environment.name") refl refl refl refl refl
  get-environment (some value) = get-insert (text "deployment.environment.name") value pid_layer

  environment_built :
      get (text "deployment.environment.name") built
      ≡ or_else (trimmed config.environment) (before (text "deployment.environment.name"))
  unfolding build_with_env
  environment_built = get-environment (trimmed config.environment)

  from_given :
      (key value : Text) (layer : Attributes)
      → get key layer ≡ get key given
      → get key (or_insert key value layer) ≡ some (unwrap_or (before key) value)
  from_given key value layer same =
      get-or_insert key value layer ∙ ap (λ o. some (unwrap_or o value)) (same ∙ given-before key)

  identified : Identifies
  identified = record {
    name = service_name_of config env given;
    is_name = service_name_of-IsName;
    not_empty = Chosen-given app_name _ _ refl service_name_of-IsName;
    named =
        below_host (text "service.name") refl refl
        ∙ get-or_insert_other (text "host.name") (text "service.name") _ instance_layer refl
        ∙ get-or_insert_other (text "service.instance.id") (text "service.name") _ version_layer
            refl
        ∙ get-or_insert_other (text "service.version") (text "service.name") _ named_layer refl
        ∙ get-insert (text "service.name") _ given;
    version =
        below_host (text "service.version") refl refl
        ∙ get-or_insert_other (text "host.name") (text "service.version") _ instance_layer refl
        ∙ get-or_insert_other (text "service.instance.id") (text "service.version") _ version_layer
            refl
        ∙ from_given (text "service.version") node.version named_layer
            (get-insert_other (text "service.name") (text "service.version") _ given refl);
    host = hostname;
    is_host = hostname-IsHost;
    instance_id =
        below_host (text "service.instance.id") refl refl
        ∙ get-or_insert_other (text "host.name") (text "service.instance.id") _ instance_layer refl
        ∙ from_given (text "service.instance.id") _ version_layer (
            get-or_insert_other (text "service.version") (text "service.instance.id") _ named_layer
              refl
            ∙ get-insert_other (text "service.name") (text "service.instance.id") _ given refl);
    hosted =
        below_host (text "host.name") refl refl
        ∙ from_given (text "host.name") hostname instance_layer (
            get-or_insert_other (text "service.instance.id") (text "host.name") _ version_layer refl
            ∙ get-or_insert_other (text "service.version") (text "host.name") _ named_layer refl
            ∙ get-insert_other (text "service.name") (text "host.name") _ given refl);
    pid =
        below_pid (text "process.pid") refl
        ∙ from_given (text "process.pid") (decimal node.pid) host_layer (
            get-or_insert_other (text "host.name") (text "process.pid") _ instance_layer refl
            ∙ get-or_insert_other (text "service.instance.id") (text "process.pid") _ version_layer
                refl
            ∙ get-or_insert_other (text "service.version") (text "process.pid") _ named_layer refl
            ∙ get-insert_other (text "service.name") (text "process.pid") _ given refl);
    environment = environment_built;
  }

  -- A node always has a name, and it is not empty: the first, that is more than blanks, of the
  -- configured one, that of OTEL_SERVICE_NAME and the attribute's, or else `doggy-dns`. Its host is
  -- found likewise from the attribute, HOSTNAME, COMPUTERNAME and the operating system, or is
  -- `unknown`. A value that is given for its version, instance, host or process stays, and else they
  -- are the build's, the host with the process, that host, and the process; the configured
  -- environment replaces one that is given. Every attribute that the code does not set is as it is
  -- given: by the last configured pair of the key, else by the last pair of
  -- OTEL_RESOURCE_ATTRIBUTES, else by the exposure.
  pub build_with_env-Identifies :
      (key : Text) → IsPlain key → Identifies × (get key built ≡ before key)
  build_with_env-Identifies key plain = (identified, above_given key plain)
