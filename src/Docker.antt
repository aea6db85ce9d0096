-- ===== src/Docker.antt =====
-- src/manager/docker.service.ts: agents as containers. `dockerode` is outside the program: its
-- calls are `create_container`, `start_container`, `attach_container` and `stop_container`.
pub mod Log
use aries_guardianship_agenc.Base.{
  ℕ, ◌+◌, String, Bool, true, false, Option, none, some, List, [], ◌∷◌, ◌&&◌, not, str_eq,
  if◌then◌else◌, ◌⧺◌,
}
use aries_guardianship_agenc.Js.Number.{Num, num_eq, exceeds}
use aries_guardianship_agenc.Js.Number.Text.{print_num}
use aries_guardianship_agenc.Js.Value.{
  Value, bool, str, array, object, variable, Fields, obj, fields,
}
use aries_guardianship_agenc.Effects.{
  Env, M, pure, perform, detached, ◌>>=◌, ◌>>◌, create_container, start_container, attach_container,
  stop_container, parse_variable,
}
use aries_guardianship_agenc.Config.{AgentConfig}
use aries_guardianship_agenc.Config.Command.{get_start_args}
use aries_guardianship_agenc.AgentManager.{AgentManager}

-- `s === process.env.X` for a text `s`.
abbrev pub equals_variable : String → Option String → Bool
equals_variable s none = false
equals_variable s (some t) = str_eq s t

-- `${port}/tcp`
unfoldable pub port_key : Num → String
port_key port = print_num port ⧺ "/tcp"

host_port : Num → Value
host_port port = array (object (("HostPort", str (print_num port)) ∷ []) ∷ [])

module _ (env : Env) where
  -- The test on the port and on the environment.
  abbrev pub exposes_admin_port : AgentConfig → Bool
  exposes_admin_port c =
      not (num_eq c.admin_port (parse_variable (env.var "AGENT_ADMIN_PORT")))
      && equals_variable env.local_env (env.var "NODE_ENV")

  -- Where both ports are one, the two bindings under its key are the same.
  unfoldable pub container_options : AgentConfig → Value
  unfolding port_key host_port
  container_options c =
      let exposed =
        if exposes_admin_port c
        then ("ExposedPorts", object ((port_key c.admin_port, object []) ∷ [])) ∷ []
        else [] in
      object (
        ("Image", variable c.docker_image)
        ∷ ("Tty", bool true)
        ∷ ("name", str c.agent_id)
        ∷ (
          "HostConfig",
          object (
              ("AutoRemove", bool true)
              ∷ ("NetworkMode", variable c.network_name)
              ∷ (
                "PortBindings",
                object (
                    (port_key c.admin_port, host_port c.admin_port)
                    ∷ (port_key c.http_port, host_port c.http_port)
                    ∷ []),
              )
              ∷ []),
        )
        ∷ ("Cmd", array (get_start_args env c))
        ∷ exposed)

  unfoldable pub start_agent : AgentConfig → M String
  unfolding detached
  start_agent c = do
    id ← perform env (create_container (container_options c))
    perform env (start_container id)
    detached (perform env (attach_container id))
    pure id

  unfoldable pub stop_agent : String → M Unit
  stop_agent id = perform env (stop_container id)

  -- `new DockerService()`
  unfoldable pub docker_service : AgentManager
  docker_service = record { start_agent = start_agent; stop_agent = stop_agent }

-- The handler of the container's output: the count so far, and what goes to the log.
pub on_data : AgentConfig → String → ℕ × List String → ℕ × List String
on_data c chunk (log_count, logged) =
    if exceeds c.agent_log_length log_count
    then (log_count + 1, ("Agent: " ⧺ chunk) ∷ logged)
    else (log_count, logged)

-- All the output of a container, chunk by chunk; the log has its last line first.
unfoldable pub attach_output : AgentConfig → ℕ × List String → List String → ℕ × List String
unfolding on_data
attach_output c state [] = state
attach_output c state (chunk ∷ chunks) = attach_output c (on_data c chunk state) chunks
