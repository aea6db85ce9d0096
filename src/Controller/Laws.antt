-- ===== src/Controller/Laws.antt =====
-- Where webhooks go, for what the other services have cached.
use aries_guardianship_agenc.Base.{String, ◌∷◌, ◌≡◌, refl, if◌then◌else◌, ◌⊎◌, ◌⧺◌, arith}
use aries_guardianship_agenc.Js.Number.{Num}
use aries_guardianship_agenc.Js.Number.Text.{print_num}
use aries_guardianship_agenc.Js.Value.{
  Fields, obj, is_truthy, Value, undefined, null, str, variable, lookup_field, to_text,
}
use aries_guardianship_agenc.Effects.{
  Env, Result, ok, err, type_error, prop, get_prop, Trace, ◌>>=◌, WebhookMessage, cache_get,
  handle_webhook,
}
use aries_guardianship_agenc.Config.{AgentConfig}
use aries_guardianship_agenc.Manager.{agent_entry}
use aries_guardianship_agenc.Multitenant.{wallet_entry}
use aries_guardianship_agenc.Controller.{handle_request, webhook_url}

module _ (env : Env) (id route topic : String) (body : Value) (t : Trace) where
  abbrev pub sent : WebhookMessage → Result Value × Trace
  sent m = (env.reply (cache_get id ∷ t) (handle_webhook m), handle_webhook m ∷ cache_get id ∷ t)

  -- A webhook for an agent that the manager has cached goes to the handler of its topic with the
  -- address and the key that the agent was started with, and without a token.
  pub handle_request-agent :
      (c : AgentConfig)
      → env.reply t (cache_get id) ≡ ok (agent_entry c)
      → handle_request env id route topic body t
        ≡ sent (record {
          agent_url = str ("http://" ⧺ id ⧺ ":" ⧺ print_num c.admin_port);
          agent_id = id;
          admin_api_key = str c.admin_api_key;
          route = route;
          topic = topic;
          body = body;
          token = undefined;
        })
  unfolding handle_request lookup_field to_text ◌>>=◌
  handle_request-agent c cached = rw cached

  -- A webhook for a wallet that the multitenant service has cached goes there with the address and
  -- the key of the multitenant agent and the wallet's token.
  pub handle_request-wallet :
      (key : String) (wallet_id token : Value) (ttl : Num)
      → env.reply t (cache_get id) ≡ ok (wallet_entry env key wallet_id token ttl)
      → handle_request env id route topic body t
        ≡ sent (record {
          agent_url = variable (env.var "MULTITENANT_URL");
          agent_id = id;
          admin_api_key = variable (env.var "ACAPY_ADMIN_API_KEY");
          route = route;
          topic = topic;
          body = body;
          token = token;
        })
  unfolding handle_request lookup_field to_text ◌>>=◌
  handle_request-wallet key wallet_id token ttl cached = rw cached

  -- A webhook for an agent that the cache does not have is never handled: reading a property of
  -- `undefined` or `null` throws, and the port of the environment is not used.
  pub handle_request-missing :
      (agent : Value)
      → (agent ≡ undefined) ⊎ (agent ≡ null)
      → env.reply t (cache_get id) ≡ ok agent
      → handle_request env id route topic body t ≡ (err type_error, cache_get id ∷ t)
  unfolding handle_request ◌>>=◌
  handle_request-missing agent missing cached = ground arith

  -- What a webhook becomes of, by the answer of the cache.
  abbrev pub handled : Result Value → Result Value × Trace
  handled (err e) = (err e, cache_get id ∷ t)
  handled (ok undefined) = (err type_error, cache_get id ∷ t)
  handled (ok null) = (err type_error, cache_get id ∷ t)
  handled (ok agent) = sent (record {
    agent_url = webhook_url env id agent;
    agent_id = id;
    admin_api_key = prop "adminApiKey" agent;
    route = route;
    topic = topic;
    body = body;
    token = prop "token" agent;
  })

  -- A webhook is handled exactly if the cache has anything but `undefined` and `null` for the agent,
  -- and then once, right behind the read. Otherwise reading a property throws, or the exception of
  -- the cache goes on to the caller. Where an object is cached, the address never has the port of
  -- the environment.
  pub handle_request_total :
      (handle_request env id route topic body t ≡ handled (env.reply t (cache_get id)))
      × ((fs : Fields)
          → webhook_url env id (obj fs) ≡ (
              if is_truthy (lookup_field "multitenant" fs)
              then variable (env.var "MULTITENANT_URL")
              else str ("http://" ⧺ id ⧺ ":" ⧺ to_text (lookup_field "adminApiPort" fs))))
  unfolding handle_request get_prop ◌>>=◌
  handle_request_total = (ground arith, λ fs. refl)
