-- ===== src/Config/Command.antt =====
-- The command line that starts an agent, src/manager/agent.config.ts.
use aries_guardianship_agenc.Base.{ℕ, zero, suc, String, List, [], ◌∷◌, ◌++◌, if◌then◌else◌}
use aries_guardianship_agenc.Js.Text.{split_on}
use aries_guardianship_agenc.Js.Value.{
  Value, undefined, str, Optional, absent, nothing, given, optional_text, variable, is_empty,
}
use aries_guardianship_agenc.Effects.{Env}
use aries_guardianship_agenc.Config.{AgentConfig}

-- `parts[i]`
abbrev pub part : ℕ → List String → Value
part i [] = undefined
part zero (s ∷ parts) = str s
part (suc i) (s ∷ parts) = part i parts

-- `if (this.seed)`
abbrev pub seed_args : Optional String → List Value
seed_args absent = []
seed_args nothing = []
seed_args (given s) = if is_empty s then [] else str "--seed" ∷ str s ∷ []

unfoldable pub get_start_args : Env → AgentConfig → List Value
get_start_args env c =
    let inbound = split_on 32 c.inbound_transport in
    let admin = split_on 32 c.admin in
    let args =
      str "start"
      ∷ str "--inbound-transport"
      ∷ part 0 inbound
      ∷ part 1 inbound
      ∷ part 2 inbound
      ∷ str "--outbound-transport"
      ∷ str c.outbound_transport
      ∷ str "--ledger-pool-name"
      ∷ variable c.ledger_pool_name
      ∷ str "--genesis-transactions"
      ∷ str c.genesis_transactions
      ∷ str "--wallet-type"
      ∷ str c.wallet_type
      ∷ str "--wallet-storage-type"
      ∷ str c.wallet_storage_type
      ∷ str "--endpoint"
      ∷ str c.endpoint
      ∷ str "--wallet-name"
      ∷ str c.wallet_name
      ∷ str "--wallet-key"
      ∷ str c.wallet_key
      ∷ str "--wallet-storage-config"
      ∷ str c.wallet_storage_config
      ∷ str "--wallet-storage-creds"
      ∷ str c.wallet_storage_creds
      ∷ str "--admin"
      ∷ part 0 admin
      ∷ part 1 admin
      ∷ str "--admin-api-key"
      ∷ str c.admin_api_key
      ∷ str "--label"
      ∷ optional_text c.label
      ∷ str "--webhook-url"
      ∷ str c.webhook_url
      ∷ str "--log-level"
      ∷ variable c.log_level
      ∷ str "--wallet-local-did"
      ∷ str "--auto-provision"
      ∷ str "--admin-client-max-request-size"
      ∷ str c.max_request_size
      ∷ [] in
    let tails =
      if c.use_tails_server
      then str "--tails-server-base-url" ∷ variable (env.var "TAILS_URL") ∷ []
      else [] in
    args ++ tails ++ seed_args c.seed
