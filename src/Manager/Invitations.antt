-- ===== src/Manager/Invitations.antt =====
-- How often `spinUpAgent` asks an agent for an invitation when the agent's start has failed.
use aries_guardianship_agenc.Base.{
  ℕ, ◌+◌, suc, String, true, ◌∷◌, ◌≡◌, refl, ap, arith, ◌⧺◌, eq_refl,
}
use aries_guardianship_agenc.Js.Number.Text.{print_num}
use aries_guardianship_agenc.Js.Value.{given, num, str, to_text}
use aries_guardianship_agenc.Effects.{
  Env, ok, err, Trace, Thrown, ◌>>=◌, pure, cache_set, cache_get, request_with_retry, perform, ◌>>◌,
}
use aries_guardianship_agenc.Effects.Laws.{bind-returned, bind-failed, catch-failed}
use aries_guardianship_agenc.Effects.Keeps.{
  Keeps, Keeps-perform, Keeps-pure, Keeps-if, Keeps-bind, keeps_rules,
}
use aries_guardianship_agenc.Effects.Ensures.{
  Ensures, Ensures-pure, Ensures-if, Ensures-kept, Ensures-returned, Ensures-bind, Ensures-perform,
  Ensures-throw,
}
use aries_guardianship_agenc.AgentManager.{AgentManager}
use aries_guardianship_agenc.Config.{AgentCreateDto, AgentConfig, build_config, new_agent_config}
use aries_guardianship_agenc.Manager.{
  SpinUpResult, agent_entry, ttl_or_infinite, invitation_request, set_agent_cache,
  create_connection, handle_already_running_container, set_spin_down_job, start_or_handle,
  spin_up_agent, connect_if_asked,
}
use aries_guardianship_agenc.Manager.SpinUp.{genesis_file}
use aries_guardianship_agenc.Manager.Writes.{
  invites, invitations, invitations-IgnoresWaiting, set_spin_down_job-Keeps,
  ping_connection_with_retry-Keeps,
}

-- The invitations of an agent, at its port and with its key.
abbrev invited : AgentConfig → Trace → ℕ
invited c t = invitations c.agent_id (print_num c.admin_port) c.admin_api_key t

abbrev Posted : AgentConfig → ℕ → Trace → Type 0
Posted c n t = invited c t ≡ n

invitation_request-invites :
    (c : AgentConfig)
    → invites c.agent_id
        (print_num c.admin_port)
        c.admin_api_key
        (invitation_request c.agent_id (num c.admin_port) (str c.admin_api_key))
      ≡ true
unfolding to_text
invitation_request-invites c =
    rw
      (eq_refl
        ("http://" ⧺ c.agent_id ⧺ ":" ⧺ print_num c.admin_port ⧺ "/connections/create-invitation"))
      (rw (eq_refl c.admin_api_key) refl)

module _ (env : Env) (c : AgentConfig) (n : ℕ) where
  create_connection-Posted :
      Ensures
        (Posted c n)
        (create_connection env c.agent_id (num c.admin_port) (str c.admin_api_key))
        (λ v. Posted c (suc n))
  unfolding create_connection
  create_connection-Posted =
      Ensures-bind _ _ (λ res. Posted c (suc n)) _
        (Ensures-perform env
          (request_with_retry
            (invitation_request c.agent_id (num c.admin_port) (str c.admin_api_key)))
          _ (λ t a p e. rw (invitation_request-invites c) (ap suc p)))
        (λ res. Ensures-kept _ (search keeps_rules))

  get_kept : (id : String) → Keeps (Posted c n) (perform env (cache_get id))
  get_kept id = Keeps-perform env (cache_get id) (λ t p. p)

  set_agent_cache-Posted : Keeps (Posted c n) (set_agent_cache env c)
  unfolding set_agent_cache
  set_agent_cache-Posted =
      Keeps-perform env (cache_set c.agent_id (agent_entry c) (ttl_or_infinite c)) (λ t p. p)

  handle-Posted :
      (e : Thrown)
      → Ensures
          (Posted c n)
          (handle_already_running_container env c (given true) e)
          (λ r. Posted c (suc n))
  unfolding handle_already_running_container
  handle-Posted e =
      let asked =
        Ensures-bind _ _ (λ v. Posted c (suc n)) _ (create_connection-Posted)
          (λ v. Ensures-pure _ _ (λ t p. p)) in
      let read_again = Keeps-bind _ _ (set_agent_cache-Posted) (λ done. get_kept c.agent_id) in
      Ensures-bind _ _ (λ v. Posted c n) _ (Ensures-kept _ (get_kept c.agent_id))
        λ cached.
          Ensures-bind _ _ (λ v. Posted c n) _
            (Ensures-kept _ (Keeps-if _ _ _ read_again (Keeps-pure cached)))
            λ v. Ensures-if _ _ _ _ asked (Ensures-throw e _)

  connect_if_asked-Posted :
      (fuel : ℕ)
      → Ensures (Posted c n) (connect_if_asked env fuel c (given true)) (λ v. Posted c (suc n))
  unfolding connect_if_asked
  connect_if_asked-Posted fuel =
      Ensures-bind _ _ (λ v. Posted c n) _
        (Ensures-kept _
          (ping_connection_with_retry-Keeps env (invitations-IgnoresWaiting _ _ _ n) _ _ _ _ _))
        (λ up. create_connection-Posted)

  -- The rest of `spinUpAgent`, behind the start.
  connected :
      (fuel : ℕ)
      → Ensures
          (Posted c n)
          {A = SpinUpResult}
          (do
            set_agent_cache env c
            set_spin_down_job env c
            v ← connect_if_asked env fuel c (given true)
            pure (record { agent_id = c.agent_id; connection_data = v }))
          (λ r. Posted c (suc n))
  connected fuel =
      Ensures-bind _ _ (λ done. Posted c n) _ (Ensures-kept _ (set_agent_cache-Posted))
        λ stored.
          Ensures-bind _ _ (λ done. Posted c n) _
            (Ensures-kept _ (set_spin_down_job-Keeps env (invitations-IgnoresWaiting _ _ _ n) c))
            λ scheduled.
              Ensures-bind _ _ (λ v. Posted c (suc n)) _ (connect_if_asked-Posted fuel)
                λ v. Ensures-pure _ _ (λ t p. p)

module _ (env : Env) (manager : AgentManager) (fuel : ℕ) (dto : AgentCreateDto) where
  -- The agent's start throws.
  module _ (c : AgentConfig) (e : Thrown) (t s : Trace)
      (failed : manager.start_agent c t ≡ (err e, s)) where
    started_eq :
        start_or_handle env manager c (given true) t
        ≡ (handle_already_running_container env c (given true) e >> pure tt) s
    unfolding start_or_handle
    started_eq = catch-failed _ _ (bind-failed (manager.start_agent c) _ failed)

    started :
        Ensures
          (λ t₁. t₁ ≡ t)
          (start_or_handle env manager c (given true))
          (λ done. Posted c (suc (invited c s)))
    started =
        let handled =
          Ensures-bind _ _ (λ r. Posted c (suc (invited c s)))
            (λ done. Posted c (suc (invited c s))) (handle-Posted env c (invited c s) e)
            (λ r. Ensures-pure tt _ (λ t' p. p)) in
        record { at = λ t₁ same. rw same (rw started_eq (handled.at s refl)) }

  -- Where `startAgent` throws and the request asks to connect, a call that returns has asked twice
  -- since then for an invitation, by a POST to /connections/create-invitation of that agent, at the
  -- admin port and with the key of its configuration.
  pub spin_up_agent-posts :
      (genesis : String) (e : Thrown) (t s : Trace) (r : SpinUpResult) (t' : Trace)
      → env.reply t (genesis_file env dto) ≡ ok genesis
      → manager.start_agent (build_config env dto genesis) (genesis_file env dto ∷ t) ≡ (err e, s)
      → dto.auto_connect ≡ given true
      → spin_up_agent env manager fuel dto t ≡ (ok r, t')
      → let c = build_config env dto genesis in
        invitations c.agent_id (print_num c.admin_port) c.admin_api_key t'
        ≡ invitations c.agent_id (print_num c.admin_port) c.admin_api_key s + 2
  unfolding spin_up_agent
  spin_up_agent-posts genesis e t s r t' read failed asked returned =
      let c = build_config env dto genesis in
      let configured : new_agent_config env dto t ≡ (ok c, genesis_file env dto ∷ t) =
        unfold new_agent_config ◌>>=◌ in rw read in
      let rest =
        Ensures-bind _ _ (λ done. Posted c (suc (invited c s)))
          (λ r. Posted c (suc (suc (invited c s))))
          (started c e (genesis_file env dto ∷ t) s failed)
          (λ done. connected env c (suc (invited c s)) fuel) in
      let moved = rw (bind-returned (new_agent_config env dto) _ configured) at returned in
      let told = simp asked at moved in omega (arith, Ensures-returned rest refl told)
