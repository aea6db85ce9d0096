-- ===== src/Manager/Failure.antt =====
-- What a caller is told of a start or a stop that fails.
use aries_guardianship_agenc.Base.{ℕ, String, false, [], ◌∷◌, ◌≡◌, refl, ◌∙◌, arith}
use aries_guardianship_agenc.Js.Number.{Num}
use aries_guardianship_agenc.Js.Value.{Value, undefined, object}
use aries_guardianship_agenc.Effects.{
  Env, Result, ok, err, Trace, Thrown, ◌>>=◌, pure, perform, cache_get, cache_set, cache_del,
  delete_service, delete_pod, stop_container,
}
use aries_guardianship_agenc.Effects.Laws.{bind-returned}
use aries_guardianship_agenc.AgentManager.{AgentManager}
use aries_guardianship_agenc.Config.{
  AgentCreateDto, AgentConfig, build_config, new_agent_config, is_true,
}
use aries_guardianship_agenc.Docker.{docker_service, stop_agent}
use aries_guardianship_agenc.K8s
use aries_guardianship_agenc.K8s.{k8s_service}
use aries_guardianship_agenc.Manager.{
  SpinUpResult, agent_entry, ttl_or_infinite, set_agent_cache, set_spin_down_job, start_or_handle,
  spin_up_agent, spin_down_agent, connect_if_asked,
}
use aries_guardianship_agenc.Manager.AlreadyRunning.{start_or_handle-failed}
use aries_guardianship_agenc.Manager.Lifetime.{
  lifetime, scheduled, cached_for-config_ttl, set_spin_down_job-lifetime,
}
use aries_guardianship_agenc.Manager.SpinUp.{genesis_file}

-- A cache whose writes work and can be read at once.
pub record Stores (env : Env) : Type 0 where
  pub writes :
      (t : Trace) (key : String) (v : Value) (ttl : Num) → env.reply t (cache_set key v ttl) ≡ ok tt
  pub reads :
      (t : Trace) (key : String) (v : Value) (ttl : Num)
      → env.reply (cache_set key v ttl ∷ t) (cache_get key) ≡ ok v

module _ (env : Env) (stores : Stores env) (manager : AgentManager) (fuel : ℕ)
    (dto : AgentCreateDto) (unconnected : is_true dto.auto_connect ≡ false) where
  configured :
      (genesis : String) (t : Trace)
      → env.reply t (genesis_file env dto) ≡ ok genesis
      → new_agent_config env dto t ≡ (ok (build_config env dto genesis), genesis_file env dto ∷ t)
  unfolding new_agent_config ◌>>=◌
  configured genesis t file = rw file refl

  stored :
      (c : AgentConfig) (t : Trace)
      → set_agent_cache env c t
        ≡ (ok tt, cache_set c.agent_id (agent_entry c) (ttl_or_infinite c) ∷ t)
  unfolding set_agent_cache perform
  stored c t = rw (stores.writes t c.agent_id (agent_entry c) (ttl_or_infinite c)) refl

  answered :
      (c : AgentConfig) (t : Trace)
      → ◌>>=◌ {B = SpinUpResult}
          (connect_if_asked env fuel c dto.auto_connect)
          (λ v. pure (record { agent_id = c.agent_id; connection_data = v }))
          t
        ≡ (ok (record { agent_id = c.agent_id; connection_data = object [] }), t)
  unfolding connect_if_asked pure ◌>>=◌
  answered c t = rw unconnected refl

  start_or_handle-dropped :
      (c : AgentConfig) (e : Thrown) (t s : Trace)
      → manager.start_agent c t ≡ (err e, s)
      → env.reply s (cache_get c.agent_id) ≡ ok undefined
      → start_or_handle env manager c dto.auto_connect t ≡ (
        ok tt,
        cache_get c.agent_id
            ∷ cache_set c.agent_id (agent_entry c) (ttl_or_infinite c)
            ∷ cache_get c.agent_id
            ∷ s,
      )
  start_or_handle-dropped c e t s failed unknown =
      start_or_handle-failed env manager c dto.auto_connect unconnected e t s failed undefined
        (agent_entry c) unknown (stores.writes _ _ _ _) (stores.reads _ _ _ _)

  -- A spin-up that does not connect, of an agent that the cache does not know: whatever exception
  -- its start has thrown, on a cache that stores what is written, the call returns the id with no
  -- connection, and the agent is cached and scheduled as one that has started.
  pub spin_up_agent-dropped :
      (genesis : String) (e : Thrown) (t s : Trace)
      → env.reply t (genesis_file env dto) ≡ ok genesis
      → manager.start_agent (build_config env dto genesis) (genesis_file env dto ∷ t) ≡ (err e, s)
      → env.reply s (cache_get dto.agent_id) ≡ ok undefined
      → let entry =
          cache_set dto.agent_id
            (agent_entry (build_config env dto genesis))
            (lifetime dto.ttl).cached_for in
        spin_up_agent env manager fuel dto t ≡ (
          ok (record { agent_id = dto.agent_id; connection_data = object [] }),
          scheduled dto.agent_id
              (lifetime dto.ttl).spun_down_in
              (entry ∷ cache_get dto.agent_id ∷ entry ∷ cache_get dto.agent_id ∷ s),
        )
  unfolding spin_up_agent build_config
  spin_up_agent-dropped genesis e t s file failed unknown =
      let c = build_config env dto genesis in
      let ttl = cached_for-config_ttl c dto.ttl refl in
      bind-returned (new_agent_config env dto) _ (configured genesis t file)
      ∙ bind-returned (start_or_handle env manager c dto.auto_connect) _
          (start_or_handle-dropped c e _ s failed unknown)
      ∙ bind-returned (set_agent_cache env c) _ (stored c _)
      ∙ bind-returned (set_spin_down_job env c) _ (set_spin_down_job-lifetime env c dto.ttl _ refl)
      ∙ answered c _
      ∙ rw ttl refl

module _ (env : Env) (id : String) (t : Trace) where
  -- The calls of a spin-down over Kubernetes, by the answers of the cache and of the cluster.
  abbrev pub pod_down : String → Result (Unit {0}) → Result (Unit {0}) → Trace
  pod_down namespace (err e) service = cache_del id ∷ t
  pod_down namespace (ok done) (err e) = delete_service id namespace ∷ cache_del id ∷ t
  pod_down namespace (ok done) (ok gone) =
      delete_pod id namespace ∷ delete_service id namespace ∷ cache_del id ∷ t

  -- Over Docker, the container of the agent's name is stopped.
  abbrev pub container_down : Result (Unit {0}) → Trace
  container_down (err e) = cache_del id ∷ t
  container_down (ok done) = stop_container id ∷ cache_del id ∷ t

  -- A spin-down over each of the two places returns without an exception, whatever the cache and
  -- the place answer. It deletes the pod only if the entry and the service could be deleted, and
  -- stops the container only if the entry could: an agent whose service cannot be deleted goes on
  -- in its pod, without an entry.
  pub spin_down_agent-places :
      (namespace : String)
      → (spin_down_agent env (k8s_service env namespace) id t ≡ (
        ok tt,
        pod_down namespace
            (env.reply t (cache_del id))
            (env.reply (cache_del id ∷ t) (delete_service id namespace)),
      ))
        × (spin_down_agent env (docker_service env) id t
            ≡ (ok tt, container_down (env.reply t (cache_del id))))
  unfolding spin_down_agent k8s_service docker_service stop_agent K8s.stop_agent ◌>>=◌
  spin_down_agent-places namespace = (ground arith, ground arith)
