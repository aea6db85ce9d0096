-- ===== src/Manager/SpinUp.antt =====
-- What `spinUpAgent` has done when it returns.
use mathlib.Core.Path.{subst}
use aries_guardianship_agenc.Base.{ℕ, String, ◌≡◌, refl, ap}
use aries_guardianship_agenc.Js.Value.{Value}
use aries_guardianship_agenc.Effects.{Env, ok, Trace, Call, pure, read_file, cache_set}
use aries_guardianship_agenc.Effects.Ensures.{
  Ensures, Anything, Ensures-pure, Ensures-kept, Ensures-returned, Ensures-bind, Ensures-then,
  Ensures-perform, Ensures-given,
}
use aries_guardianship_agenc.AgentManager.{AgentManager}
use aries_guardianship_agenc.Config.{AgentCreateDto, AgentConfig, build_config, new_agent_config}
use aries_guardianship_agenc.Manager.{
  SpinUpResult, agent_entry, ttl_or_infinite, set_agent_cache, spin_up_agent,
}
use aries_guardianship_agenc.Manager.Lifetime.{lifetime, cached_for-config_ttl}
use aries_guardianship_agenc.Manager.Writes.{
  LastWrite, LastWrite-IgnoresWaiting, set_spin_down_job-Keeps, connect_if_asked-Keeps,
}

module _ (env : Env) (dto : AgentCreateDto) where
  -- The configuration is that of the request with some genesis file.
  abbrev pub IsConfigured : AgentConfig → Type 0
  IsConfigured c = (genesis : String) × (c ≡ build_config env dto genesis)

  abbrev pub genesis_file : Call
  genesis_file = read_file (env.var "INDY_POOL_TRANSACTIONS_GENESIS_PATH")

  pub new_agent_config-Ensures : Ensures Anything (new_agent_config env dto) (λ c t. IsConfigured c)
  unfolding new_agent_config
  new_agent_config-Ensures =
      Ensures-bind _ _ (λ genesis t. Unit) _ (Ensures-perform env genesis_file _ (λ t a p e. tt))
        (λ genesis. Ensures-pure _ _ (λ t p. (genesis, refl)))

  -- The agent's id is given back, and its entry is the last write to the cache.
  abbrev IsCached : SpinUpResult → Trace → Type 0
  IsCached r t =
      (genesis : String) × (r.agent_id ≡ dto.agent_id)
      × LastWrite dto.agent_id (agent_entry (build_config env dto genesis))
          (lifetime dto.ttl).cached_for t

  entry_of :
      (c : AgentConfig) (t : Trace)
      → IsConfigured c
      → LastWrite c.agent_id (agent_entry c) (ttl_or_infinite c) t
      → (genesis : String) × LastWrite dto.agent_id
          (agent_entry (build_config env dto genesis))
          (lifetime dto.ttl).cached_for
          t
  unfolding build_config
  entry_of c t (genesis, e) p =
      let written = subst (λ x. LastWrite x.agent_id (agent_entry x) (ttl_or_infinite x) t) e p in
      (
        genesis,
        subst (λ ttl. LastWrite dto.agent_id (agent_entry (build_config env dto genesis)) ttl t)
            (cached_for-config_ttl (build_config env dto genesis) dto.ttl refl) written,
      )

  agent_id_of : (c : AgentConfig) → IsConfigured c → c.agent_id ≡ dto.agent_id
  unfolding build_config
  agent_id_of c (genesis, e) = ap (λ x. x.agent_id) e

  finished :
      (c : AgentConfig) (v : Value)
      → IsConfigured c
      → Ensures
          (LastWrite c.agent_id (agent_entry c) (ttl_or_infinite c))
          (pure (record { agent_id = c.agent_id; connection_data = v }))
          IsCached
  finished c v configured = Ensures-pure _ _ (λ t p.
      let (genesis, written) = entry_of c t configured p in
      (genesis, agent_id_of c configured, written))

  set_agent_cache-Ensures :
      (c : AgentConfig)
      → Ensures Anything
          (set_agent_cache env c)
          (λ done. LastWrite c.agent_id (agent_entry c) (ttl_or_infinite c))
  unfolding set_agent_cache
  set_agent_cache-Ensures c =
      Ensures-perform env (cache_set c.agent_id (agent_entry c) (ttl_or_infinite c)) _
        (λ t a p e. (refl, refl, refl))

  module _ (manager : AgentManager) (fuel : ℕ) where
    spin_up_agent-Ensures : Ensures Anything (spin_up_agent env manager fuel dto) IsCached
    unfolding spin_up_agent
    spin_up_agent-Ensures =
        Ensures-bind _ _ (λ c t. IsConfigured c) _ new_agent_config-Ensures
          λ c. Ensures-given _ _ λ configured. Ensures-then _ _ _ λ started.
            Ensures-bind _ _ _ _ (set_agent_cache-Ensures c) λ stored.
              let waits = LastWrite-IgnoresWaiting c.agent_id (agent_entry c) (ttl_or_infinite c) in
              Ensures-bind _ _ _ _ (Ensures-kept _ (set_spin_down_job-Keeps env waits c))
                λ scheduled.
                  Ensures-bind _ _ _ _
                    (Ensures-kept _
                      (connect_if_asked-Keeps env waits (λ r t p. p) fuel c dto.auto_connect))
                    λ v. finished c v configured

    -- Whatever the environment answers and wherever agents run: when `spinUpAgent` returns, it gives
    -- back the id of the request, and the last write to the cache has stored, under that id and for
    -- the time that the ttl of the request means, the entry of a configuration of the request.
    pub spin_up_agent-LastWrite :
        (t : Trace) (r : SpinUpResult) (t' : Trace)
        → spin_up_agent env manager fuel dto t ≡ (ok r, t')
        → (genesis : String) × (r.agent_id ≡ dto.agent_id)
          × LastWrite dto.agent_id
              (agent_entry (build_config env dto genesis))
              (lifetime dto.ttl).cached_for
              t'
    spin_up_agent-LastWrite t r t' e = Ensures-returned spin_up_agent-Ensures tt e
