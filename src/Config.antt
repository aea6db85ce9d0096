-- ===== src/Config.antt =====
-- src/manager/agent.config.ts and src/manager/dtos/agent.create.dto.ts: the configuration of an
-- agent.

pub mod AgentId
pub mod Args
pub mod Command
use aries_guardianship_agenc.Base.{
  ℕ, zero, suc, String, Bool, true, false, Option, none, some, List, [], ◌∷◌, ◌++◌, if◌then◌else◌,
  ◌⧺◌,
}
use aries_guardianship_agenc.Js.Text.{split_on}
use aries_guardianship_agenc.Js.Number.{Num, nat, infinity, is_zero, is_truthy_num}
use aries_guardianship_agenc.Js.Number.Text.{parse_int, print_num}
use aries_guardianship_agenc.Js.Value.{
  Value, undefined, str, object, Optional, absent, nothing, given, optional_text, variable,
  variable_text, is_empty,
}
use aries_guardianship_agenc.Js.Json.{stringify}
use aries_guardianship_agenc.Effects.{Env, M, pure, perform, read_file, parse_variable, ◌>>=◌}

pub record AgentCreateDto : Type 0 where
  pub wallet_id : String
  pub wallet_key : String
  pub admin_api_key : String
  pub agent_id : String
  pub seed : Optional String
  pub ttl : Optional Num
  pub controller_url : Optional String
  pub label : Optional String
  pub auto_connect : Optional Bool
  pub admin_api_port : Optional Num
  pub use_tails_server : Optional Bool

pub record AgentConfig : Type 0 where
  pub admin : String
  pub admin_api_key : String
  pub agent_log_length : Num
  pub admin_port : Num
  pub agent_id : String
  pub docker_image : Option String
  pub endpoint : String
  pub genesis_transactions : String
  pub http_port : Num
  pub label : Optional String
  pub ledger_pool_name : Option String
  pub log_level : Option String
  pub inbound_transport : String
  pub network_name : Option String
  pub outbound_transport : String
  pub seed : Optional String
  pub wallet_name : String
  pub wallet_key : String
  pub wallet_storage_config : String
  pub wallet_storage_creds : String
  pub wallet_storage_type : String
  pub wallet_type : String
  pub webhook_url : String
  pub use_tails_server : Bool
  pub ttl : Num
  pub max_request_size : String

abbrev pub default_ttl_seconds : Num
default_ttl_seconds = nat 3600

abbrev pub default_max_request_size : String
default_max_request_size = "16"

-- `agentDto.ttl === 0`
abbrev pub is_given_zero : Optional Num → Bool
is_given_zero absent = false
is_given_zero nothing = false
is_given_zero (given n) = is_zero n

-- `n || d` for an optional number
abbrev pub num_or : Optional Num → Num → Num
num_or absent d = d
num_or nothing d = d
num_or (given n) d = if is_truthy_num n then n else d

-- `s || d` for an optional text
abbrev pub text_or : Optional String → String → String
text_or absent d = d
text_or nothing d = d
text_or (given s) d = if is_empty s then d else s

-- `process.env.X || d`
abbrev pub variable_or : Option String → String → String
variable_or none d = d
variable_or (some s) d = if is_empty s then d else s

-- `b === true`
abbrev pub is_true : Optional Bool → Bool
is_true absent = false
is_true nothing = false
is_true (given b) = b

-- The initialisers of a body's class: they stand where the body leaves a property out, and not where it
-- gives `null`.
abbrev pub or_default : Optional Bool → Bool → Optional Bool
or_default absent b = given b
or_default nothing b = nothing
or_default (given a) b = given a

-- The `if` on `agentDto.ttl` in the constructor.
unfoldable pub config_ttl : Optional Num → Num
config_ttl ttl = if is_given_zero ttl then infinity else num_or ttl default_ttl_seconds

module _ (env : Env) where
  get_wallet_storage_config : Value
  get_wallet_storage_config = object (
      (
        "url",
        str (
            variable_text (env.var "WALLET_DB_HOST")
            ⧺ ":"
            ⧺ variable_text (env.var "WALLET_DB_PORT")),
      )
      ∷ ("wallet_scheme", str "MultiWalletSingleTable")
      ∷ [])

  get_wallet_storage_creds : Value
  get_wallet_storage_creds = object (
      ("account", variable (env.var "WALLET_DB_USER"))
      ∷ ("password", variable (env.var "WALLET_DB_PASS"))
      ∷ ("admin_account", variable (env.var "WALLET_DB_ADMIN_USER"))
      ∷ ("admin_password", variable (env.var "WALLET_DB_ADMIN_PASS"))
      ∷ [])

  -- `readFileSync` throws if there is no such file.
  unfoldable pub get_genesis_file : M String
  get_genesis_file = perform env (read_file (env.var "INDY_POOL_TRANSACTIONS_GENESIS_PATH"))

  abbrev pub internal_controller_url : String → String
  internal_controller_url id = variable_text (env.var "INTERNAL_URL") ⧺ "/v1/controller/" ⧺ id

  abbrev pub router_endpoint : String → String
  router_endpoint id = variable_text (env.var "PUBLIC_URL") ⧺ "/v1/router/" ⧺ id

  abbrev pub dto_admin_port : AgentCreateDto → Num
  dto_admin_port dto = num_or dto.admin_api_port (parse_variable (env.var "AGENT_ADMIN_PORT"))

  -- The fields that the constructor assigns, given the genesis file.
  unfoldable pub build_config : AgentCreateDto → String → AgentConfig
  unfolding config_ttl get_wallet_storage_config get_wallet_storage_creds
  build_config dto genesis =
      let http_port = parse_variable (env.var "AGENT_HTTP_PORT") in
      let admin_port = dto_admin_port dto in
      record {
        admin = "0.0.0.0 " ⧺ print_num admin_port;
        admin_api_key = dto.admin_api_key;
        agent_log_length = parse_int (variable_or (env.var "AGENT_LOG_LENGTH") "100");
        admin_port = admin_port;
        agent_id = dto.agent_id;
        docker_image = env.var "AGENT_DOCKER_IMAGE";
        endpoint = router_endpoint dto.agent_id;
        genesis_transactions = genesis;
        http_port = http_port;
        label = dto.label;
        ledger_pool_name = env.var "INDY_POOL_NAME";
        log_level = env.var "AGENT_LOG_LEVEL";
        inbound_transport = "http 0.0.0.0 " ⧺ print_num http_port;
        network_name = env.var "NETWORK_NAME";
        outbound_transport = "http";
        seed = dto.seed;
        wallet_name = dto.wallet_id;
        wallet_key = dto.wallet_key;
        wallet_storage_config = stringify get_wallet_storage_config;
        wallet_storage_creds = stringify get_wallet_storage_creds;
        wallet_storage_type = "postgres_storage";
        wallet_type = "indy";
        webhook_url = text_or dto.controller_url (internal_controller_url dto.agent_id);
        use_tails_server = is_true dto.use_tails_server;
        ttl = config_ttl dto.ttl;
        max_request_size = variable_or (env.var "MAX_REQUEST_SIZE") default_max_request_size;
      }

  -- `new AgentConfig(agentDto)`
  unfoldable pub new_agent_config : AgentCreateDto → M AgentConfig
  unfolding get_genesis_file
  new_agent_config dto = do genesis ← get_genesis_file; pure (build_config dto genesis)
