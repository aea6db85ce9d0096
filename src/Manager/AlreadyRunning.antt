-- ===== src/Manager/AlreadyRunning.antt =====
-- `startAgent` fails, and `handleAlreadyRunningContainer` asks the cache.
use aries_guardianship_agenc.Base.{Bool, false, ◌∷◌, ◌≡◌, if◌then◌else◌, Bool-cases, inl, inr}
use aries_guardianship_agenc.Js.Value.{Value, Optional, is_truthy, is_undefined}
use aries_guardianship_agenc.Effects.{
  Env, Result, ok, err, Trace, Thrown, ◌>>=◌, cache_get, cache_set,
}
use aries_guardianship_agenc.AgentManager.{AgentManager}
use aries_guardianship_agenc.Config.{AgentConfig, is_true}
use aries_guardianship_agenc.Manager.{
  agent_entry, ttl_or_infinite, set_agent_cache, handle_already_running_container, start_or_handle,
}

-- The exception of `startAgent` is dropped if the cache gives a value, and thrown again if not.
abbrev pub unless_cached : Value → Thrown → Result (Unit {0})
unless_cached v e = if is_truthy v then ok tt else err e

module _ (env : Env) (manager : AgentManager) (c : AgentConfig) (auto_connect : Optional Bool)
    (unconnected : is_true auto_connect ≡ false) (e : Thrown) (t s : Trace)
    (failed : manager.start_agent c t ≡ (err e, s)) where
  -- Where `startAgent` has thrown and no connection is asked for. If the cache answers other than
  -- `undefined`, nothing is written: the call goes on if the answer counts as true, and the
  -- exception is thrown again if not, as it is for `null`. If it answers `undefined`, the entry of
  -- the agent is written and read once more, and the second answer decides.
  pub start_or_handle-failed :
      (v w : Value)
      → env.reply s (cache_get c.agent_id) ≡ ok v
      → env.reply
          (cache_get c.agent_id ∷ s)
          (cache_set c.agent_id (agent_entry c) (ttl_or_infinite c))
        ≡ ok tt
      → env.reply
          (cache_set c.agent_id (agent_entry c) (ttl_or_infinite c) ∷ cache_get c.agent_id ∷ s)
          (cache_get c.agent_id)
        ≡ ok w
      → start_or_handle env manager c auto_connect t ≡ (
          if is_undefined v
          then (
            unless_cached w e,
            cache_get c.agent_id
                ∷ cache_set c.agent_id (agent_entry c) (ttl_or_infinite c)
                ∷ cache_get c.agent_id
                ∷ s,
          )
          else (unless_cached v e, cache_get c.agent_id ∷ s))
  unfolding start_or_handle handle_already_running_container set_agent_cache ◌>>=◌
  start_or_handle-failed v w got stored got_again = elim (Bool-cases (is_undefined v)) [
    | inl missing ↦ elim (Bool-cases (is_truthy w)) [
      | inl there ↦
          rw failed (rw got (rw missing (rw stored (rw got_again (rw there (rw unconnected))))))
      | inr not_there ↦ rw failed (rw got (rw missing (rw stored (rw got_again (rw not_there)))))
    ]
    | inr known ↦ elim (Bool-cases (is_truthy v)) [
      | inl there ↦ rw failed (rw got (rw known (rw there (rw unconnected))))
      | inr not_there ↦ rw failed (rw got (rw known (rw not_there)))
    ]
  ]
