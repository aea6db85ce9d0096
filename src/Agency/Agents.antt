-- ===== src/Agency/Agents.antt =====
-- What the requests of agents do.
use aries_guardianship_agenc.Base.{ℕ, String, Bool, List, refl, ◌⊎◌, inl, Among}
use aries_guardianship_agenc.Js.Value.{Value, Optional}
use aries_guardianship_agenc.Effects.{
  Env, Trace, Thrown, perform, cache_set, cache_del, create_container, stop_container, create_pod,
  delete_pod,
}
use aries_guardianship_agenc.Effects.Keeps.{
  Keeps, Keeps-perform, Keeps-detached, Keeps-catch, Keeps-bind, Keeps-pure, keeps_rules,
}
use aries_guardianship_agenc.Effects.Ensures.{Keeps-known}
use aries_guardianship_agenc.Config.{
  AgentCreateDto, AgentConfig, new_agent_config, get_genesis_file,
}
use aries_guardianship_agenc.Docker
use aries_guardianship_agenc.Docker.{docker_service, container_options}
use aries_guardianship_agenc.K8s
use aries_guardianship_agenc.K8s.{k8s_service, pod_options}
use aries_guardianship_agenc.Manager
use aries_guardianship_agenc.Manager.{
  ConnectAgentBody, set_agent_cache, set_spin_down_job, agent_entry, ttl_or_infinite,
  handle_already_running_container, start_or_handle, spin_up_agent, spin_down_agent, connect_agent,
  create_connection, ping_connection_with_retry, connect_if_asked, post_agent,
}
use aries_guardianship_agenc.Manager.SpinUp.{IsConfigured, new_agent_config-Ensures}
use aries_guardianship_agenc.Manager.Writes.{
  set_spin_down_job-Keeps, ping_connection_with_retry-Keeps, create_connection-Keeps,
  connect_if_asked-Keeps,
}
use aries_guardianship_agenc.Agency.{
  Operation, create_agent, stop_agent, spin_down, Place, docker, kubernetes, manager_of,
}
use aries_guardianship_agenc.Agency.Caused.{
  also, IsRequested, AllCaused, AllCaused-IgnoresWaiting, files_kept, reads_kept, starts_kept,
  attaches_kept, services_kept, unserves_kept,
}

module _ (env : Env) (ops : List Operation) (start : Trace) where
  module _ (c : AgentConfig) (requested : IsRequested env ops c) where
    start_agent-AllCaused :
        (place : Place) → Keeps (AllCaused env ops start) ((manager_of env place).start_agent c)
    unfolding docker_service k8s_service Docker.start_agent K8s.start_agent
    start_agent-AllCaused docker = Keeps-bind _ _ created λ id.
        Keeps-bind _ _ (starts_kept env ops start id) λ started.
          Keeps-bind _ _ (Keeps-detached _ (attaches_kept env ops start id))
            λ attached. Keeps-pure id
      where
        created :
            Keeps
              (AllCaused env ops start)
              (perform env (create_container (container_options env c)))
        created =
            Keeps-perform env (create_container (container_options env c))
              (λ t p. also (c, requested, refl) p)
    start_agent-AllCaused (kubernetes namespace) = Keeps-bind _ _ created λ done.
        Keeps-bind _ _ (services_kept env ops start namespace _) λ served. Keeps-pure c.agent_id
      where
        created :
            Keeps (AllCaused env ops start) (perform env (create_pod namespace (pod_options env c)))
        created =
            Keeps-perform env (create_pod namespace (pod_options env c))
              (λ t p. also (c, requested, refl) p)

    set_agent_cache-AllCaused : Keeps (AllCaused env ops start) (set_agent_cache env c)
    unfolding set_agent_cache
    set_agent_cache-AllCaused =
        Keeps-perform env (cache_set c.agent_id (agent_entry c) (ttl_or_infinite c))
          (λ t p. also (inl (c, requested, refl, refl, refl)) p)

    handle-AllCaused :
        (auto_connect : Optional Bool) (e : Thrown)
        → Keeps (AllCaused env ops start) (handle_already_running_container env c auto_connect e)
    unfolding handle_already_running_container
    handle-AllCaused auto_connect e =
        search
          (
            keeps_rules,
            reads_kept env ops start,
            set_agent_cache-AllCaused,
            create_connection-Keeps env (AllCaused-IgnoresWaiting env ops start)
                (λ r t p. also tt p),
          )
          depth 12

    start_or_handle-AllCaused :
        (place : Place) (auto_connect : Optional Bool)
        → Keeps
            (AllCaused env ops start)
            (start_or_handle env (manager_of env place) c auto_connect)
    unfolding start_or_handle
    start_or_handle-AllCaused place auto_connect =
        Keeps-catch _ _ (Keeps-bind _ _ (start_agent-AllCaused place) (λ id. Keeps-pure tt))
          (λ e. Keeps-bind _ _ (handle-AllCaused auto_connect e) (λ r. Keeps-pure tt))

  new_agent_config-AllCaused :
      (dto : AgentCreateDto) → Keeps (AllCaused env ops start) (new_agent_config env dto)
  unfolding new_agent_config get_genesis_file
  new_agent_config-AllCaused dto = search (keeps_rules, files_kept env ops start)

  module _ (place : Place) (fuel : ℕ) where
    pub post_agent-AllCaused :
        (dto : AgentCreateDto)
        → Among (create_agent dto) ops
        → Keeps (AllCaused env ops start) (post_agent env (manager_of env place) fuel dto)
    unfolding post_agent spin_up_agent
    post_agent-AllCaused dto among =
        Keeps-known _ _ (IsConfigured env (Manager.with_defaults dto))
          (new_agent_config-Ensures env (Manager.with_defaults dto)) (new_agent_config-AllCaused _)
          λ c configured.
            let requested : IsRequested env ops c = (dto, configured.0, among, configured.1) in
            Keeps-bind _ _ (start_or_handle-AllCaused c requested place _) λ started.
              Keeps-bind _ _ (set_agent_cache-AllCaused c requested) λ stored.
                Keeps-bind _ _
                  (set_spin_down_job-Keeps env (AllCaused-IgnoresWaiting env ops start) c)
                  λ scheduled.
                    Keeps-bind _ _
                      (connect_if_asked-Keeps env (AllCaused-IgnoresWaiting env ops start)
                        (λ r t p. also tt p) fuel c _)
                      λ v. Keeps-pure _

    pub connect_agent-AllCaused :
        (id : String) (key : Value)
        → Keeps (AllCaused env ops start) (connect_agent env fuel id key)
    unfolding connect_agent
    connect_agent-AllCaused id key =
        search
          (
            keeps_rules,
            reads_kept env ops start,
            ping_connection_with_retry-Keeps env (AllCaused-IgnoresWaiting env ops start),
            create_connection-Keeps env (AllCaused-IgnoresWaiting env ops start)
                (λ r t p. also tt p),
          )
          depth 12

  module _ (id : String)
      (asked : Among (stop_agent (record { agent_id = id })) ops ⊎ Among (spin_down id) ops) where
    pub stop_agent-AllCaused :
        (place : Place) → Keeps (AllCaused env ops start) ((manager_of env place).stop_agent id)
    unfolding docker_service k8s_service Docker.stop_agent K8s.stop_agent
    stop_agent-AllCaused docker = Keeps-perform env (stop_container id) (λ t p. also asked p)
    stop_agent-AllCaused (kubernetes namespace) =
        Keeps-bind _ _ (unserves_kept env ops start id namespace)
          (λ _. Keeps-perform env (delete_pod id namespace) (λ t p. also asked p))

    pub spin_down_agent-AllCaused :
        (place : Place)
        → Keeps (AllCaused env ops start) (spin_down_agent env (manager_of env place) id)
    unfolding spin_down_agent
    spin_down_agent-AllCaused place =
        Keeps-catch _ _
          (Keeps-bind _ _ (Keeps-perform env (cache_del id) (λ t p. also asked p))
            (λ _. stop_agent-AllCaused place))
          (λ e. Keeps-pure tt)
