-- ===== src/Manager/Timers/Asked.antt =====
-- A spin-up with a positive ttl asks for a timer.
use aries_guardianship_agenc.Base.{ℕ, true, false, String, List, [], ◌∷◌, ◌++◌, ◌≡◌, refl, ap}
use aries_guardianship_agenc.Js.Number.{Num, is_positive, is_infinity, times_1000}
use aries_guardianship_agenc.Js.Value.{given}
use aries_guardianship_agenc.Effects.{Env, Call, Trace, schedule_spin_down}
use aries_guardianship_agenc.Effects.Ensures.{
  Ensures, Anything, Ensures-pure, Ensures-kept, Ensures-bind, Ensures-then, Ensures-given,
}
use aries_guardianship_agenc.AgentManager.{AgentManager}
use aries_guardianship_agenc.Config.{AgentCreateDto, AgentConfig, build_config}
use aries_guardianship_agenc.Manager.{spin_up_agent, set_spin_down_job}
use aries_guardianship_agenc.Manager.Lifetime.{spun_down_in-given, set_spin_down_job-lifetime}
use aries_guardianship_agenc.Manager.SpinUp.{IsConfigured, new_agent_config-Ensures}
use aries_guardianship_agenc.Manager.Writes.{IgnoresWaiting, connect_if_asked-Keeps}

-- The agent's timer has been asked for.
abbrev pub AskedFor : String → Num → Trace → Type 0
AskedFor id ms t =
    (newer : List Call) × (older : Trace) × (t ≡ newer ++ schedule_spin_down id ms ∷ older)

AskedFor-more :
    (id : String) (ms : Num) (c : Call) (t : Trace) → AskedFor id ms t → AskedFor id ms (c ∷ t)
AskedFor-more id ms c t (newer, older, e) = (c ∷ newer, older, ap (λ s. c ∷ s) e)

AskedFor-IgnoresWaiting : (id : String) (ms : Num) → IgnoresWaiting (AskedFor id ms)
AskedFor-IgnoresWaiting id ms = record {
  time = λ t p. AskedFor-more id ms _ t p;
  rest = λ n t p. AskedFor-more id ms _ t p;
  poll = λ r t p. AskedFor-more id ms _ t p;
  timer = λ i m t p. AskedFor-more id ms _ t p;
}

module _ (env : Env) (manager : AgentManager) (fuel : ℕ) (dto : AgentCreateDto) (n : Num)
    (lives : dto.ttl ≡ given n) (positive : is_positive n ≡ true)
    (ends : is_infinity n ≡ false) where
  abbrev IsAsked : Trace → Type 0
  IsAsked = AskedFor dto.agent_id (times_1000 n)

  set_spin_down_job-IsAsked :
      (c : AgentConfig)
      → IsConfigured env dto c
      → Ensures Anything (set_spin_down_job env c) (λ done. IsAsked)
  unfolding build_config
  set_spin_down_job-IsAsked c (genesis, same) = record {
    at = λ t p. rw same (
        rw (set_spin_down_job-lifetime env (build_config env dto genesis) dto.ttl t refl)
          (rw lives (rw (spun_down_in-given n positive ends) ([], t, refl))));
  }

  pub spin_up_agent-IsAsked : Ensures Anything (spin_up_agent env manager fuel dto) (λ r. IsAsked)
  unfolding spin_up_agent
  spin_up_agent-IsAsked =
      Ensures-bind _ _ (λ c t. IsConfigured env dto c) _ (new_agent_config-Ensures env dto)
        λ c. Ensures-given _ _ λ configured. Ensures-then _ _ _ λ started.
          Ensures-then _ _ _ λ stored.
            Ensures-bind _ _ (λ done. IsAsked) _ (set_spin_down_job-IsAsked c configured)
              λ scheduled.
                Ensures-bind _ _ (λ v. IsAsked) _
                  (Ensures-kept _ (
                    connect_if_asked-Keeps env (AskedFor-IgnoresWaiting _ _)
                      (λ r t p. AskedFor-more _ _ _ t p) fuel c dto.auto_connect))
                  λ v. Ensures-pure _ _ (λ t p. p)
