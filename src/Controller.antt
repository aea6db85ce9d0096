-- ===== src/Controller.antt =====
-- src/controller/agent.controller.service.ts, behind both endpoints of agent.controller.controller.ts:
-- a webhook of an agent goes to the handler that aries-controller has for its topic.
pub mod Cached
pub mod Laws
use aries_guardianship_agenc.Base.{String, Bool, Option, List, [], ◌∷◌, if◌then◌else◌, ◌⧺◌}
use aries_guardianship_agenc.Js.Value.{Value, str, variable, is_truthy, to_text}
use aries_guardianship_agenc.Effects.{
  Env, M, perform, lift, prop, get_prop, ◌>>=◌, WebhookMessage, cache_get, handle_webhook,
}

module _ (env : Env) where
  -- `agent ? agent.adminApiPort : process.env.AGENT_ADMIN_PORT`
  abbrev pub admin_port : Value → Value
  admin_port agent =
      if is_truthy agent then prop "adminApiPort" agent else variable (env.var "AGENT_ADMIN_PORT")

  abbrev pub webhook_url : String → Value → Value
  webhook_url id agent =
      if is_truthy (prop "multitenant" agent)
      then variable (env.var "MULTITENANT_URL")
      else str ("http://" ⧺ id ⧺ ":" ⧺ to_text (admin_port agent))

  -- `agent.multitenant` is read first, and throws for an agent that is not there.
  unfoldable pub handle_request : String → String → String → Value → M Value
  unfolding get_prop
  handle_request id route topic body = do
    agent ← perform env (cache_get id)
    multitenant ← lift (get_prop "multitenant" agent)
    perform env (
        handle_webhook (record {
          agent_url = webhook_url id agent;
          agent_id = id;
          admin_api_key = prop "adminApiKey" agent;
          route = route;
          topic = topic;
          body = body;
          token = prop "token" agent;
        }))

  -- GET and POST v1/controller/:agentId/:route/:subroute
  abbrev pub get_controller : String → String → String → Value → M Value
  get_controller agent_id route subroute body = handle_request agent_id route subroute body

  abbrev pub post_controller : String → String → String → Value → M Value
  post_controller agent_id route subroute body = handle_request agent_id route subroute body
