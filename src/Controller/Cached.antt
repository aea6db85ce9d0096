-- ===== src/Controller/Cached.antt =====
-- Webhooks of the agents and wallets that the other services have just made.
use aries_guardianship_agenc.Base.{ℕ, String, ◌≡◌, ◌⧺◌}
use aries_guardianship_agenc.Js.Number.{Num}
use aries_guardianship_agenc.Js.Number.Text.{print_num}
use aries_guardianship_agenc.Js.Value.{Value, undefined, str, variable}
use aries_guardianship_agenc.Effects.{Env, Result, ok, Trace, cache_get}
use aries_guardianship_agenc.Effects.Keeps.{Keeps}
use aries_guardianship_agenc.AgentManager.{AgentManager}
use aries_guardianship_agenc.Config.{AgentCreateDto, dto_admin_port, build_config}
use aries_guardianship_agenc.Manager.{SpinUpResult, spin_up_agent}
use aries_guardianship_agenc.Manager.SpinUp.{spin_up_agent-LastWrite}
use aries_guardianship_agenc.Manager.Writes.{LastWrite}
use aries_guardianship_agenc.Multitenant.{WalletCreateDto, WalletCreated, create_wallet}
use aries_guardianship_agenc.Multitenant.Grants.{create_wallet-Granted}
use aries_guardianship_agenc.Multitenant.Sources.{Granted}
use aries_guardianship_agenc.Controller.{handle_request}
use aries_guardianship_agenc.Controller.Laws.{sent, handle_request-agent, handle_request-wallet}

-- The cache gives back its last write, if that was under the key.
abbrev pub Remembers : Env → String → Trace → Type 0
Remembers env key t =
    (v : Value) (ttl : Num) → LastWrite key v ttl t → env.reply t (cache_get key) ≡ ok v

module _ (env : Env) (route topic : String) (content : Value) where
  -- As long as the cache remembers its last write, a webhook of the agent that `spinUpAgent` has
  -- returned for goes to the handler of its topic with the admin port and the key of the request,
  -- and without a token.
  pub handle_request-spin_up_agent :
      (manager : AgentManager) (fuel : ℕ) (dto : AgentCreateDto) (t : Trace) (r : SpinUpResult)
      (t' : Trace)
      → spin_up_agent env manager fuel dto t ≡ (ok r, t')
      → Remembers env dto.agent_id t'
      → handle_request env r.agent_id route topic content t'
        ≡ sent env dto.agent_id route topic content t' (record {
          agent_url = str ("http://" ⧺ dto.agent_id ⧺ ":" ⧺ print_num (dto_admin_port env dto));
          agent_id = dto.agent_id;
          admin_api_key = str dto.admin_api_key;
          route = route;
          topic = topic;
          body = content;
          token = undefined;
        })
  unfolding build_config
  handle_request-spin_up_agent manager fuel dto t r t' returned remembers =
      let (genesis, same, last) = spin_up_agent-LastWrite env dto manager fuel t r t' returned in
      rw same (
        handle_request-agent env dto.agent_id route topic content t' (build_config env dto genesis)
          (remembers _ _ last))

  -- Where a webhook of a wallet with this token goes.
  abbrev pub to_wallet : String → Value → Trace → Result Value × Trace
  to_wallet name token t = sent env name route topic content t (record {
    agent_url = variable (env.var "MULTITENANT_URL");
    agent_id = name;
    admin_api_key = variable (env.var "ACAPY_ADMIN_API_KEY");
    route = route;
    topic = topic;
    body = content;
    token = token;
  })

  -- As long as the cache remembers its last write, a webhook of the wallet that `createWallet` has
  -- returned for goes to the multitenant agent, with a token that was granted for the body.
  handle_request-create_wallet :
      (body : WalletCreateDto) (t : Trace) (w : WalletCreated) (t' : Trace)
      → create_wallet env body t ≡ (ok w, t')
      → Remembers env body.wallet_name t'
      → (id : Value) × (token : Value) × Granted env body id token
        × (handle_request env body.wallet_name route topic content t'
            ≡ to_wallet body.wallet_name token t')
  handle_request-create_wallet body t w t' returned remembers =
      let (id, token, granted, last, same) = create_wallet-Granted env body t w t' returned in
      (
        id,
        token,
        (t', granted),
        handle_request-wallet env body.wallet_name route topic content t' body.wallet_key id token _
            (remembers _ _ last),
      )
