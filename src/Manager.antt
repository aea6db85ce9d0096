-- ===== src/Manager.antt =====
-- src/manager/agent.manager.service.ts, with the endpoints of agent.manager.controller.ts. The
-- `while` loop that waits for an agent takes fuel, which Manager/Ping bounds.
pub mod AlreadyRunning
pub mod Endpoints
pub mod Failure
pub mod Invitations
pub mod Lifetime
pub mod SpinUp
pub mod Timers
pub mod Writes
pub mod Ping
pub mod Retry
use aries_guardianship_agenc.Base.{
  ℕ, zero, suc, String, Bool, true, false, [], ◌∷◌, ◌&&◌, ◌||◌, ◌*◌, ◌+◌, not, ltb, if◌then◌else◌,
  ◌⧺◌,
}
use aries_guardianship_agenc.Js.Number.{
  Num, int, fraction, infinity, nat, gtb_ℤ, eq_ℤ, num_eq, is_positive, is_negative, is_infinity,
  add_one, times_1000,
}
use aries_guardianship_agenc.Js.Value.{
  Value, undefined, num, str, object, Optional, absent, nothing, given, is_truthy, is_undefined,
  to_text,
}
use aries_guardianship_agenc.Effects.{
  Env, M, Thrown, protocol, error, out_of_fuel, no_details, named, pure, throw, lift, catch,
  perform, detached, prop, get_prop, parse_variable, ◌>>=◌, ◌>>◌, Date, HttpRequest,
  request_with_retry, request_without_retry, cache_get, cache_set, cache_del, current_time, delay,
  schedule_spin_down,
}
use aries_guardianship_agenc.Config.{
  AgentCreateDto, AgentConfig, new_agent_config, is_true, or_default,
}
use aries_guardianship_agenc.AgentManager.{AgentManager}
use aries_guardianship_agenc.Docker.{docker_service, equals_variable}
use aries_guardianship_agenc.K8s.{k8s_service, new_k8s_namespace}

pub record SpinUpResult : Type 0 where
  pub agent_id : String
  pub connection_data : Value

-- `a > b`
unfoldable pub greater : Num → Num → Bool
greater (int a) (int b) = gtb_ℤ a b
greater (int a) (fraction b q e) = gtb_ℤ a b
greater (fraction a p d) (int b) = gtb_ℤ a b || eq_ℤ a b
greater (fraction a p d) (fraction b q e) =
    gtb_ℤ a b || (eq_ℤ a b && ltb ((q + 1) * (p + d + 2)) ((p + 1) * (q + e + 2)))
greater infinity (int b) = true
greater infinity (fraction b q e) = true
greater _ _ = false

abbrev pub ttl_or_infinite : AgentConfig → Num
ttl_or_infinite c = if is_negative c.ttl then c.ttl else add_one c.ttl

-- What is cached of an agent.
abbrev pub agent_entry : AgentConfig → Value
agent_entry c = object (
    ("adminApiKey", str c.admin_api_key)
    ∷ ("adminApiPort", num c.admin_port)
    ∷ ("ttl", num c.ttl)
    ∷ [])

-- `http://${agentId}:${adminPort}` and a path.
abbrev pub agent_url : String → Value → String → String
agent_url id port path = "http://" ⧺ id ⧺ ":" ⧺ to_text port ⧺ path

abbrev pub status_request : String → Value → Value → HttpRequest
status_request id port key = record {
  method = "GET";
  url = agent_url id port "/status";
  headers = ("x-api-key", key) ∷ ("accept", str "application/json") ∷ [];
  body = undefined;
}

abbrev pub invitation_request : String → Value → Value → HttpRequest
invitation_request id port key = record {
  method = "POST";
  url = agent_url id port "/connections/create-invitation";
  headers = ("x-api-key", key) ∷ [];
  body = undefined;
}

abbrev pub never_up : String → Thrown
never_up id = protocol (named "Agent") ("Never got a good status code from agent " ⧺ id) no_details

module _ (env : Env) where
  unfoldable pub set_agent_cache : AgentConfig → M Unit
  set_agent_cache c = perform env (cache_set c.agent_id (agent_entry c) (ttl_or_infinite c))

  unfoldable pub set_spin_down_job : AgentConfig → M Unit
  unfolding detached
  set_spin_down_job c =
      if is_positive c.ttl && not (is_infinity c.ttl)
      then detached (perform env (schedule_spin_down c.agent_id (times_1000 c.ttl)))
      else pure tt

  unfoldable pub is_agent_server_up : String → Value → Value → M Bool
  is_agent_server_up id port key =
      catch
        (do
          res ← perform env (request_without_retry (status_request id port key))
          pure (if num_eq res.status (nat 200) then true else false))
        (λ e. pure false)

  unfoldable pub create_connection : String → Value → Value → M Value
  unfolding get_prop
  create_connection id port key = do
    res ← perform env (request_with_retry (invitation_request id port key))
    lift (get_prop "invitation" res.body)

  -- The loop, from a date at which it began.
  unfoldable pub ping_from : ℕ → String → Value → Value → Num → Date → M Unit
  unfolding greater
  ping_from zero id port key duration start = throw out_of_fuel
  ping_from (suc fuel) id port key duration start =
      let again = ping_from fuel id port key duration start in
      do
        now ← perform env current_time
        if greater duration (env.time_delta now start)
            then (do
              perform env (delay 1000)
              up ← catch (is_agent_server_up id port key) (λ e. pure false)
              if up then pure tt else again)
            else throw (never_up id)

  unfoldable pub ping_connection_with_retry : ℕ → String → Value → Value → Num → M Unit
  ping_connection_with_retry fuel id port key duration = do
    start ← perform env current_time
    ping_from fuel id port key duration start

  abbrev pub retry_duration : Num
  retry_duration = parse_variable (env.var "AGENT_RETRY_DURATION")

  unfoldable pub handle_already_running_container :
      AgentConfig → Optional Bool → Thrown → M SpinUpResult
  handle_already_running_container c auto_connect e = do
    cached ← perform env (cache_get c.agent_id)
    agent_data ←
        if is_undefined cached
        then (do set_agent_cache c; perform env (cache_get c.agent_id))
        else pure cached
    if is_truthy agent_data
        then (do
          connection_data ←
              if is_true auto_connect
              then create_connection c.agent_id (num c.admin_port) (str c.admin_api_key)
              else pure (object [])
          pure (record { agent_id = c.agent_id; connection_data = connection_data }))
        else throw e

  -- `agentCache ? agentCache.adminApiPort : parseInt(process.env.AGENT_ADMIN_PORT, 10)`
  abbrev pub cached_port : Value → Value
  cached_port agent =
      if is_truthy agent
      then prop "adminApiPort" agent
      else num (parse_variable (env.var "AGENT_ADMIN_PORT"))

  unfoldable pub connect_agent : ℕ → String → Value → M SpinUpResult
  connect_agent fuel id key = do
    agent ← perform env (cache_get id)
    ping_connection_with_retry fuel id (cached_port agent) key retry_duration
    connection_data ← create_connection id (cached_port agent) key
    pure (record { agent_id = id; connection_data = connection_data })

  unfoldable pub connect_if_asked : ℕ → AgentConfig → Optional Bool → M Value
  connect_if_asked fuel c auto_connect =
      if is_true auto_connect
      then (do
        ping_connection_with_retry fuel c.agent_id (num c.admin_port) (str c.admin_api_key)
            retry_duration
        create_connection c.agent_id (num c.admin_port) (str c.admin_api_key))
      else pure (object [])

  module _ (manager : AgentManager) where
    -- `try { startAgent } catch (e) { handleAlreadyRunningContainer }`, whose results are dropped
    unfoldable pub start_or_handle : AgentConfig → Optional Bool → M Unit
    start_or_handle c auto_connect =
        catch (do manager.start_agent c; pure tt)
          (λ e. do handle_already_running_container c auto_connect e; pure tt)

    unfoldable pub spin_up_agent : ℕ → AgentCreateDto → M SpinUpResult
    spin_up_agent fuel dto = do
      c ← new_agent_config env dto
      start_or_handle c dto.auto_connect
      set_agent_cache c
      set_spin_down_job c
      connection_data ← connect_if_asked fuel c dto.auto_connect
      pure (record { agent_id = c.agent_id; connection_data = connection_data })

    unfoldable pub spin_down_agent : String → M Unit
    spin_down_agent id = catch (do perform env (cache_del id); manager.stop_agent id) (λ e. pure tt)

  -- The constructor's choice.
  unfoldable pub new_agent_manager : M AgentManager
  new_agent_manager =
      if equals_variable "DOCKER" (env.var "MANAGER_TYPE")
      then pure (docker_service env)
      else if equals_variable "K8S" (env.var "MANAGER_TYPE")
      then (do namespace ← new_k8s_namespace env; pure (k8s_service env namespace))
      else throw (error "Invalid config for MANAGER_TYPE")

-- The body with the initialisers of its class.
unfoldable pub with_defaults : AgentCreateDto → AgentCreateDto
with_defaults body = record body {
  auto_connect = or_default body.auto_connect true;
  use_tails_server = or_default body.use_tails_server false;
}

-- POST v1/manager, with a body that has passed the validation.
unfoldable pub post_agent : Env → AgentManager → ℕ → AgentCreateDto → M SpinUpResult
unfolding with_defaults
post_agent env manager fuel body = spin_up_agent env manager fuel (with_defaults body)

-- DELETE v1/manager and POST v1/manager/connect, for bodies with texts; they are not validated.
pub record StopAgentBody : Type 0 where
  pub agent_id : String

pub record ConnectAgentBody : Type 0 where
  pub agent_id : String
  pub admin_api_key : Value

abbrev pub delete_agent : Env → AgentManager → StopAgentBody → M Unit
delete_agent env manager body = spin_down_agent env manager body.agent_id

abbrev pub post_connect : Env → ℕ → ConnectAgentBody → M SpinUpResult
post_connect env fuel body = connect_agent env fuel body.agent_id body.admin_api_key
