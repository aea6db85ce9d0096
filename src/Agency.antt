-- ===== src/Agency.antt =====
-- The whole agency: any requests, one behind the other, and what each makes the services do. The
-- endpoints are those of src/manager, src/multitenant, src/controller and src/transactions; a basic
-- message comes in through aries-controller, and a timer of setSpinDownJob may fire.

pub mod Caused
pub mod Http
pub mod Agents
pub mod Messages
pub mod Requested
pub mod Stopped
pub mod Wallets
pub mod Webhooks
use aries_guardianship_agenc.Base.{ℕ, String, List, [], ◌∷◌}
use aries_guardianship_agenc.Js.Value.{Value}
use aries_guardianship_agenc.Effects.{Env, Trace}
use aries_guardianship_agenc.AgentManager.{AgentManager}
use aries_guardianship_agenc.Config.{AgentCreateDto}
use aries_guardianship_agenc.Controller.{post_controller}
use aries_guardianship_agenc.Docker.{docker_service}
use aries_guardianship_agenc.K8s.{k8s_service}
use aries_guardianship_agenc.Manager.{
  StopAgentBody, ConnectAgentBody, post_agent, delete_agent, post_connect, spin_down_agent,
}
use aries_guardianship_agenc.Multitenant.{
  WalletCreateDto, WalletRemoveDto, post_wallet, delete_wallet,
}
use aries_guardianship_agenc.Transactions.Service.{
  RegisterTdcDto, RegisterOneTimeKeyDto, post_register, post_register_onetime_key, post_ids,
  basic_message_handler,
}

pub data Operation : Type 0 where
  create_agent : AgentCreateDto → Operation
  stop_agent : StopAgentBody → Operation
  connect_agent : ConnectAgentBody → Operation
  -- the timer of the agent fires
  spin_down : String → Operation
  create_wallet : WalletCreateDto → Operation
  remove_wallet : WalletRemoveDto → Operation
  -- the agent's id, the route, the subroute and the body
  webhook : String → String → String → Value → Operation
  -- the agent's id and key, and the message
  basic_message : String → Value → Value → Operation
  register : String → RegisterTdcDto → Operation
  register_onetime_key : String → RegisterOneTimeKeyDto → Operation
  list_ids : String → RegisterOneTimeKeyDto → Operation

-- MANAGER_TYPE, with the namespace that K8sService has read.
pub data Place : Type 0 where
  docker : Place
  kubernetes : String → Place

module _ (env : Env) where
  abbrev pub manager_of : Place → AgentManager
  manager_of docker = docker_service env
  manager_of (kubernetes namespace) = k8s_service env namespace

  module _ (place : Place) (fuel : ℕ) where
    -- The calls after an operation, however it ends.
    abbrev pub serve : Operation → Trace → Trace
    serve (create_agent body) t = (post_agent env (manager_of place) fuel body t).1
    serve (stop_agent body) t = (delete_agent env (manager_of place) body t).1
    serve (connect_agent body) t = (post_connect env fuel body t).1
    serve (spin_down id) t = (spin_down_agent env (manager_of place) id t).1
    serve (create_wallet body) t = (post_wallet env body t).1
    serve (remove_wallet body) t = (delete_wallet env body t).1
    serve (webhook id route subroute body) t = (post_controller env id route subroute body t).1
    serve (basic_message id key body) t = (basic_message_handler env id key body t).1
    serve (register id body) t = (post_register env id body t).1
    serve (register_onetime_key id body) t = (post_register_onetime_key env id body t).1
    serve (list_ids id body) t = (post_ids env id body t).1

    -- More operations, the last one first.
    abbrev pub serve_from : Trace → List Operation → Trace
    serve_from start [] = start
    serve_from start (op ∷ ops) = serve op (serve_from start ops)

    abbrev pub serve_all : List Operation → Trace
    serve_all = serve_from []
