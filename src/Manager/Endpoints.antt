-- ===== src/Manager/Endpoints.antt =====
-- Spinning down, connecting to a running agent, and the defaults of a request's body.
use aries_guardianship_agenc.Base.{ℕ, String, true, false, ◌∷◌, ◌≡◌, refl, arith}
use aries_guardianship_agenc.Js.Value.{Value, absent, nothing, given}
use aries_guardianship_agenc.Effects.{Env, Result, ok, err, Trace, ◌>>=◌, cache_del}
use aries_guardianship_agenc.AgentManager.{AgentManager}
use aries_guardianship_agenc.Config.{AgentCreateDto, new_agent_config, build_config}
use aries_guardianship_agenc.Manager.{
  spin_down_agent, spin_up_agent, post_agent, start_or_handle, handle_already_running_container,
  connect_if_asked,
}

-- The calls of a spin-down: the agent is asked to stop only if its entry could be deleted.
abbrev pub spun_down : AgentManager → String → Trace → Result (Unit {0}) → Trace
spun_down manager id t (ok done) = (manager.stop_agent id t).1
spun_down manager id t (err e) = t

-- Spinning down never throws, whatever the cache and the place where agents run answer; the entry
-- is deleted first, and the agent is asked to stop exactly if that has worked.
pub spin_down_agent_total :
    (env : Env) (manager : AgentManager) (id : String) (t : Trace)
    → spin_down_agent env manager id t
      ≡ (ok tt, spun_down manager id (cache_del id ∷ t) (env.reply t (cache_del id)))
unfolding spin_down_agent ◌>>=◌
spin_down_agent_total env manager id t = ground arith

module _ (env : Env) (manager : AgentManager) (fuel : ℕ) (body : AgentCreateDto) where
  -- A body without `autoConnect` is treated as one that asks to connect, and one that gives `null`
  -- as one that asks not to, in all that the call does.
  pub post_agent-auto_connect :
      (t : Trace)
      → (post_agent env manager fuel (record body { auto_connect = absent }) t
          ≡ post_agent env manager fuel (record body { auto_connect = given true }) t)
        × (post_agent env manager fuel (record body { auto_connect = nothing }) t
            ≡ post_agent env manager fuel (record body { auto_connect = given false }) t)
  unfolding post_agent spin_up_agent start_or_handle handle_already_running_container
      connect_if_asked new_agent_config build_config
  post_agent-auto_connect t = (refl, refl)
