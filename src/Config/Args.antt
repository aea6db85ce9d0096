-- ===== src/Config/Args.antt =====
-- The command line of an agent, against a table of its options.
use text.Mathlib.TextLemmas.{append_assoc}
use aries_guardianship_agenc.Base.{
  String, Bool, true, false, List, [], ◌∷◌, ◌++◌, ◌≡◌, refl, ap, ◌∙◌, Char, arith, if◌then◌else◌,
  ◌⧺◌,
}
use aries_guardianship_agenc.Js.Text.{Lacks, split_on, split_on-Lacks, split_on-prefix}
use aries_guardianship_agenc.Js.Number.Text.{print_num, Lacks-print_num}
use aries_guardianship_agenc.Js.Value.{
  Value, Optional, absent, nothing, given, str, optional_text, variable,
}
use aries_guardianship_agenc.Effects.{Env, parse_variable}
use aries_guardianship_agenc.Config.{
  AgentCreateDto, build_config, dto_admin_port, router_endpoint, internal_controller_url, text_or,
  variable_or, is_true, default_max_request_size,
}
use aries_guardianship_agenc.Config.Command.{get_start_args, seed_args}

abbrev space : Char
space = " "

admin_parts : (p : String) → Lacks 32 p → split_on 32 ("0.0.0.0 " ⧺ p) ≡ "0.0.0.0" ∷ p ∷ []
admin_parts p h =
    split_on-prefix space "0.0.0.0" p (omega arith)
    ∙ ap (λ ps. "0.0.0.0" ∷ ps) (split_on-Lacks 32 p h)

inbound_parts :
    (p : String) → Lacks 32 p → split_on 32 ("http 0.0.0.0 " ⧺ p) ≡ "http" ∷ "0.0.0.0" ∷ p ∷ []
inbound_parts p h =
    ap (split_on 32) (append_assoc "http " "0.0.0.0 " p)
    ∙ split_on-prefix space "http" ("0.0.0.0 " ⧺ p) (omega arith)
    ∙ ap (λ ps. "http" ∷ ps) (admin_parts p h)

-- The values that stand behind a flag.
abbrev pub flatten_options : List (String × List Value) → List Value
flatten_options [] = []
flatten_options ((flag, values) ∷ rest) = str flag ∷ values ++ flatten_options rest

-- `--seed` is left out for no seed and for an empty one.
abbrev pub seed_option : Optional String → List (String × List Value)
seed_option absent = []
seed_option nothing = []
seed_option (given String.[]) = []
seed_option (given (String.◌∷◌ c s)) = ("--seed", str (String.◌∷◌ c s) ∷ []) ∷ []

-- The options of an agent, read off the request and the environment.
abbrev pub options : Env → AgentCreateDto → String → List (String × List Value)
options env dto genesis =
    let c = build_config env dto genesis in
    (
      "--inbound-transport",
      str "http"
          ∷ str "0.0.0.0"
          ∷ str (print_num (parse_variable (env.var "AGENT_HTTP_PORT")))
          ∷ [],
    )
    ∷ ("--outbound-transport", str "http" ∷ [])
    ∷ ("--ledger-pool-name", variable (env.var "INDY_POOL_NAME") ∷ [])
    ∷ ("--genesis-transactions", str genesis ∷ [])
    ∷ ("--wallet-type", str "indy" ∷ [])
    ∷ ("--wallet-storage-type", str "postgres_storage" ∷ [])
    ∷ ("--endpoint", str (router_endpoint env dto.agent_id) ∷ [])
    ∷ ("--wallet-name", str dto.wallet_id ∷ [])
    ∷ ("--wallet-key", str dto.wallet_key ∷ [])
    ∷ ("--wallet-storage-config", str c.wallet_storage_config ∷ [])
    ∷ ("--wallet-storage-creds", str c.wallet_storage_creds ∷ [])
    ∷ ("--admin", str "0.0.0.0" ∷ str (print_num (dto_admin_port env dto)) ∷ [])
    ∷ ("--admin-api-key", str dto.admin_api_key ∷ [])
    ∷ ("--label", optional_text dto.label ∷ [])
    ∷ (
      "--webhook-url",
      str (text_or dto.controller_url (internal_controller_url env dto.agent_id)) ∷ [],
    )
    ∷ ("--log-level", variable (env.var "AGENT_LOG_LEVEL") ∷ [])
    ∷ ("--wallet-local-did", [])
    ∷ ("--auto-provision", [])
    ∷ (
      "--admin-client-max-request-size",
      str (variable_or (env.var "MAX_REQUEST_SIZE") default_max_request_size) ∷ [],
    )
    ∷ (if is_true dto.use_tails_server
        then ("--tails-server-base-url", variable (env.var "TAILS_URL") ∷ []) ∷ seed_option dto.seed
        else seed_option dto.seed)

last_options :
    (tails : Bool) (url : Value) (seed : Optional String)
    → (if tails then str "--tails-server-base-url" ∷ url ∷ [] else []) ++ seed_args seed
      ≡ flatten_options (
          if tails
          then ("--tails-server-base-url", url ∷ []) ∷ seed_option seed
          else seed_option seed)
last_options true url absent = refl
last_options true url nothing = refl
last_options true url (given String.[]) = refl
last_options true url (given (String.◌∷◌ c s)) = refl
last_options false url absent = refl
last_options false url nothing = refl
last_options false url (given String.[]) = refl
last_options false url (given (String.◌∷◌ c s)) = refl

-- The command line is `start` and then each option once, in a fixed order, with the values that the
-- request and the environment give: the addresses that are joined by spaces and split again come
-- out whole, the flags `--tails-server-base-url` and `--seed` stand there exactly when the request
-- asks for a tails server and gives a seed that is not empty, and a label that is left out or `null`
-- stands there as `undefined` or `null`, not as the id of the agent.
pub get_start_args-build_config :
    (env : Env) (dto : AgentCreateDto) (genesis : String)
    → get_start_args env (build_config env dto genesis)
      ≡ str "start" ∷ flatten_options (options env dto genesis)
unfolding get_start_args build_config
get_start_args-build_config env dto genesis =
    let http =
      Lacks-print_num 32 (parse_variable (env.var "AGENT_HTTP_PORT")) (omega arith) (omega arith)
        (omega arith) in
    let admin =
      Lacks-print_num 32 (dto_admin_port env dto) (omega arith) (omega arith) (omega arith) in
    rw (inbound_parts _ http) (
      rw (admin_parts _ admin) (
        rw
          (← last_options (is_true dto.use_tails_server) (variable (env.var "TAILS_URL"))
            dto.seed)))
