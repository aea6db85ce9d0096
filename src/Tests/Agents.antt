-- ===== src/Tests/Agents.antt =====
-- Runs of the manager: an agent that is started, waited for and asked for an invitation.
use aries_guardianship_agenc.Base.{
  ℕ, ◌+◌, String, [], ◌∷◌, ◌≡◌, refl, arith, if◌then◌else◌, ltb, leb,
}
use aries_guardianship_agenc.Js.Number.{Num, int, fraction, pos, nat}
use aries_guardianship_agenc.Js.Number.Text.{parse_int, print_num}
use aries_guardianship_agenc.Js.Value.{Value, str, num, object, given, lookup_field}
use aries_guardianship_agenc.Effects.{
  Env, ok, err, error, Trace, pure, throw, read_file, cache_set, ◌>>=◌, ◌>>◌, get_prop,
  schedule_spin_down,
}
use aries_guardianship_agenc.AgentManager.{AgentManager}
use aries_guardianship_agenc.Config.{AgentConfig, build_config, new_agent_config, config_ttl}
use aries_guardianship_agenc.Manager.{
  SpinUpResult, agent_entry, set_agent_cache, set_spin_down_job, is_agent_server_up,
  create_connection, ping_from, ping_connection_with_retry, connect_agent,
  handle_already_running_container, connect_if_asked, start_or_handle, spin_up_agent, greater,
}
use aries_guardianship_agenc.Manager.Invitations.{spin_up_agent-posts}
use aries_guardianship_agenc.Manager.Lifetime.{lifetime, set_agent_cache-set_spin_down_job}
use aries_guardianship_agenc.Manager.Retry.{Ending, ping_connection_with_retry-Ending}
use aries_guardianship_agenc.Manager.SpinUp.{spin_up_agent-LastWrite}
use aries_guardianship_agenc.Manager.Writes.{LastWrite, invitations}
use aries_guardianship_agenc.Tests.World.{world, is_up, is_empty, clock_of, date_of, dto}

abbrev pub env : Env
env = world is_up is_empty

abbrev pub works : AgentManager
works = record { start_agent = λ c. pure "container"; stop_agent = λ id. pure tt }

abbrev broken : AgentManager
broken = record { start_agent = λ c. throw (error "exists"); stop_agent = λ id. pure tt }

abbrev config : AgentConfig
config = build_config env dto "genesis"

abbrev port : Value
port = num (nat 5000)

ping_connection_with_retry-Ending_example :
    Ending env "a" port
      (str "secret")
      (clock_of is_up is_empty)
      3000
      (date_of [])
      (ping_connection_with_retry env 4 "a" port (str "secret") (nat 3000) [])
ping_connection_with_retry-Ending_example =
    ping_connection_with_retry-Ending env "a" port (str "secret") (clock_of is_up is_empty) 3000 4
      [] (omega arith)

abbrev pub spun_up : Trace
spun_up = (spin_up_agent env works 4 dto []).1

abbrev pub answer : SpinUpResult
answer = record { agent_id = "a"; connection_data = object (("label", str "a") ∷ []) }

pub spin_up_agent_test : spin_up_agent env works 4 dto [] ≡ (ok answer, spun_up)
unfolding spin_up_agent new_agent_config build_config start_or_handle set_agent_cache
    set_spin_down_job connect_if_asked ping_connection_with_retry ping_from is_agent_server_up
    create_connection greater config_ttl parse_int get_prop lookup_field ◌>>=◌
spin_up_agent_test = refl

spin_up_agent-LastWrite_example :
    (genesis : String) × (answer.agent_id ≡ dto.agent_id)
    × LastWrite "a"
        (agent_entry (build_config env dto genesis))
        (lifetime (given (nat 60))).cached_for
        spun_up
spin_up_agent-LastWrite_example =
    spin_up_agent-LastWrite env dto works 4 [] answer spun_up spin_up_agent_test

set_agent_cache-set_spin_down_job_example :
    (set_agent_cache env config >> set_spin_down_job env config) []
    ≡ (ok tt, schedule_spin_down "a" (nat 60000) ∷ cache_set "a" (agent_entry config) (nat 61) ∷ [])
set_agent_cache-set_spin_down_job_example =
    set_agent_cache-set_spin_down_job env dto "genesis" [] refl

abbrev pub fires_after : Num → ℕ
fires_after (int (pos ms)) = if ltb 2147483647 ms then 1 else ms
fires_after (fraction (pos ms) p d) = if leb 2147483647 ms then 1 else ms
fires_after _ = 1

-- The cache has the agent, and its start fails.
abbrev holds_agent : Env
holds_agent = world is_up (λ t key. ok (agent_entry config))

broken_test : broken.start_agent config [] ≡ (err (error "exists"), [])
unfolding throw
broken_test = refl

abbrev twice : Trace
twice = (spin_up_agent holds_agent broken 4 dto []).1

twice_test : spin_up_agent holds_agent broken 4 dto [] ≡ (ok answer, twice)
unfolding spin_up_agent new_agent_config build_config start_or_handle
    handle_already_running_container set_agent_cache set_spin_down_job connect_if_asked
    ping_connection_with_retry ping_from is_agent_server_up create_connection greater config_ttl
    parse_int get_prop lookup_field ◌>>=◌
twice_test = refl

abbrev read : Trace
read = read_file (holds_agent.var "INDY_POOL_TRANSACTIONS_GENESIS_PATH") ∷ []

failed_test : broken.start_agent config read ≡ (err (error "exists"), read)
unfolding throw
failed_test = refl

spin_up_agent-posts_example :
    invitations "a" "5000" "secret" twice ≡ invitations "a" "5000" "secret" read + 2
unfolding build_config print_num parse_int
spin_up_agent-posts_example =
    spin_up_agent-posts holds_agent broken 4 dto "genesis" (error "exists") [] read answer twice
      refl failed_test refl twice_test

abbrev connected : Trace
connected = (connect_agent holds_agent 4 "a" (str "secret") []).1
