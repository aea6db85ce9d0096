-- ===== src/Tests/Failures.antt =====
-- Starts and stops that fail.
use aries_guardianship_agenc.Base.{false, [], ◌∷◌, ◌≡◌, refl, eq_refl}
use aries_guardianship_agenc.Js.Number.{nat}
use aries_guardianship_agenc.Js.Value.{object, given}
use aries_guardianship_agenc.Effects.{
  Env, ok, err, error, Trace, pure, throw, cache_get, cache_set, cache_del, stop_container,
  schedule_spin_down,
}
use aries_guardianship_agenc.AgentManager.{AgentManager}
use aries_guardianship_agenc.Config.{AgentCreateDto, AgentConfig, build_config}
use aries_guardianship_agenc.Docker.{docker_service}
use aries_guardianship_agenc.K8s.{k8s_service}
use aries_guardianship_agenc.Manager.{agent_entry, spin_up_agent, spin_down_agent}
use aries_guardianship_agenc.Manager.Failure.{
  Stores, spin_up_agent-dropped, spin_down_agent-places, pod_down,
}
use aries_guardianship_agenc.Manager.SpinUp.{genesis_file}
use aries_guardianship_agenc.Tests.World.{world, is_up, remembered, dto}

abbrev env : Env
env = world is_up remembered

stores : Stores env
stores = record { writes = λ t key v ttl. refl; reads = λ t key v ttl. rw (eq_refl key) refl }

-- No agent can be started.
abbrev broken : AgentManager
broken = record { start_agent = λ c. throw (error "no image"); stop_agent = λ id. pure tt }

abbrev quiet : AgentCreateDto
quiet = record dto { auto_connect = given false }

abbrev config : AgentConfig
config = build_config env quiet "genesis"

abbrev read : Trace
read = genesis_file env quiet ∷ []

failed_test : broken.start_agent config read ≡ (err (error "no image"), read)
unfolding throw
failed_test = refl

spin_up_agent-dropped_example : spin_up_agent env broken 4 quiet [] ≡ (
  ok (record { agent_id = "a"; connection_data = object [] }),
  schedule_spin_down "a" (nat 60000)
      ∷ cache_set "a" (agent_entry config) (nat 61)
      ∷ cache_get "a"
      ∷ cache_set "a" (agent_entry config) (nat 61)
      ∷ cache_get "a"
      ∷ read,
)
spin_up_agent-dropped_example =
    spin_up_agent-dropped env stores broken 4 quiet refl "genesis" (error "no image") [] read refl
      failed_test refl

spin_down_agent-places_example :
    (spin_down_agent env (k8s_service env "ns") "a" []
      ≡ (ok tt, pod_down env "a" [] "ns" (ok tt) (ok tt)))
    × (spin_down_agent env (docker_service env) "a" []
        ≡ (ok tt, stop_container "a" ∷ cache_del "a" ∷ []))
spin_down_agent-places_example = spin_down_agent-places env "a" [] "ns"
