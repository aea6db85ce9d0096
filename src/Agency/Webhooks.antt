-- ===== src/Agency/Webhooks.antt =====
-- Where the agency sends webhooks.
use aries_guardianship_agenc.Base.{String, List, ◌∷◌, ◌≡◌, ◌⊎◌, ◌⧺◌, Among}
use aries_guardianship_agenc.Js.Number.{Num}
use aries_guardianship_agenc.Js.Number.Text.{print_num}
use aries_guardianship_agenc.Js.Value.{Value, undefined, null, str, variable}
use aries_guardianship_agenc.Effects.{
  Env, Result, ok, err, Thrown, Trace, WebhookMessage, cache_get, cache_set, handle_webhook,
}
use aries_guardianship_agenc.Config.{AgentCreateDto, dto_admin_port}
use aries_guardianship_agenc.Manager
use aries_guardianship_agenc.Manager.{agent_entry}
use aries_guardianship_agenc.Multitenant
use aries_guardianship_agenc.Multitenant.{WalletCreateDto}
use aries_guardianship_agenc.Multitenant.Sources.{Granted}
use aries_guardianship_agenc.Agency.{Operation, create_agent, create_wallet}
use aries_guardianship_agenc.Agency.Caused.{Caused}

-- A cache gives nothing but what was stored under the key, or `undefined` or `null`. The handlers of
-- aries-controller are given the cache too; this takes them to store nothing that is read.
pub record GivesStored (env : Env) : Type 0 where
  pub gives :
      (t : Trace) (key : String) (v : Value)
      → env.reply t (cache_get key) ≡ ok v
      → ((v ≡ undefined) ⊎ (v ≡ null)) ⊎ ((ttl : Num) × Among (cache_set key v ttl) t)

module _ (env : Env) (ops : List Operation) (id : String) where
  -- To the agent of a request, with the port and the key of the request.
  abbrev pub ToAgent : WebhookMessage → Type 0
  ToAgent m =
      (dto : AgentCreateDto) × Among (create_agent dto) ops
      × (dto.agent_id ≡ id)
      × (m.agent_url ≡ str ("http://" ⧺ id ⧺ ":" ⧺ print_num (dto_admin_port env dto)))
      × (m.admin_api_key ≡ str dto.admin_api_key)
      × (m.token ≡ undefined)

  -- To the multitenant agent, with a token that was granted for the wallet of a request.
  abbrev pub ToWallet : WebhookMessage → Type 0
  ToWallet m =
      (body : WalletCreateDto) × (wallet_id : Value) × Among (create_wallet body) ops
      × (body.wallet_name ≡ id)
      × Granted env (Multitenant.with_defaults body) wallet_id m.token
      × (m.agent_url ≡ variable (env.var "MULTITENANT_URL"))
      × (m.admin_api_key ≡ variable (env.var "ACAPY_ADMIN_API_KEY"))

  module _ (route topic : String) (content : Value) (t : Trace) where
    -- What was made of the webhook.
    abbrev pub IsSent : Trace → Type 0
    IsSent t' =
        (m : WebhookMessage) × (t' ≡ handle_webhook m ∷ cache_get id ∷ t)
        × (m.agent_id ≡ id)
        × (ToAgent m ⊎ ToWallet m)

  -- The webhook was not handled: an exception, behind the reading of the cache alone.
  abbrev pub IsRefused : Result Value → Trace → Trace → Type 0
  IsRefused r t t' = (t' ≡ cache_get id ∷ t) × ((e : Thrown) × (r ≡ err e))
