-- ===== src/Manager/Timers.antt =====
-- The timers of `setSpinDownJob`: they fire while other methods are at work, and nothing takes one
-- back.
pub mod Asked
pub mod Promise
use aries_guardianship_agenc.Base.{ℕ, ◌+◌, ◌≤◌, String, List, [], ◌∷◌, ◌++◌, ◌≡◌}
use aries_guardianship_agenc.Js.Number.{Num}
use aries_guardianship_agenc.Effects.{Env, Call, Trace, schedule_spin_down, cache_del}
use aries_guardianship_agenc.AgentManager.{AgentManager}
use aries_guardianship_agenc.Manager.{spin_down_agent}
use aries_guardianship_agenc.Manager.Endpoints.{spun_down}
use aries_guardianship_agenc.Manager.Ping.{Clock}

pub record Timer : Type 0 where
  pub agent_id : String
  -- the time from which it may fire
  pub due : ℕ

-- The calls so far, and the timers that have not fired.
pub record System : Type 0 where
  pub trace : Trace
  pub pending : List Timer

-- `fires_after` is what `setTimeout` makes of the milliseconds that it is given.
module _ (env : Env) (clock : Clock env) (fires_after : Num → ℕ) where
  abbrev pub new_timers : Call → Trace → List Timer
  new_timers (schedule_spin_down id ms) t =
      (record { agent_id = id; due = (clock.date t).time + fires_after ms }) ∷ []
  new_timers _ t = []

  -- All timers that were ever started.
  abbrev pub timers : Trace → List Timer
  timers [] = []
  timers (c ∷ t) = new_timers c t ++ timers t

  module _ (manager : AgentManager) where
    -- Some method makes a call, whichever the methods at work are, or a timer that is due spins its
    -- agent down.
    pub data SystemStep : System → System → Type 0 where
      calls :
          (t : Trace) (pending : List Timer) (c : Call)
          → SystemStep
              (record { trace = t; pending = pending })
              (record { trace = c ∷ t; pending = new_timers c t ++ pending })
      fires :
          (t : Trace) (before after : List Timer) (timer : Timer)
          → timer.due ≤ (clock.date t).time
          → SystemStep
              (record { trace = t; pending = before ++ timer ∷ after })
              (record {
                trace = (spin_down_agent env manager timer.agent_id t).1;
                pending = before ++ after;
              })

    -- The calls of a spin-down: the entry is deleted, and if that works the agent is stopped.
    abbrev pub ended : String → Trace → Trace
    ended id t = spun_down manager id (cache_del id ∷ t) (env.reply t (cache_del id))

    -- The agent was spun down, at a time at which the timer was due.
    abbrev pub SpunDown : Timer → Trace → Type 0
    SpunDown timer t =
        (newer : List Call) × (older : Trace) × (t ≡ newer ++ ended timer.agent_id older)
        × (timer.due ≤ (clock.date older).time)

    pub data SystemReached : System → Type 0 where
      starts : SystemReached (record { trace = []; pending = [] })
      goes_on : (a b : System) → SystemReached a → SystemStep a b → SystemReached b

  -- What is relied on of the place where agents run: stopping an agent only adds calls, and starts
  -- no timer.
  pub record StopsOnly (manager : AgentManager) : Type 0 where
    pub adds : String → Trace → List Call
    pub adds_lem : (id : String) (t : Trace) → (manager.stop_agent id t).1 ≡ adds id t ++ t
    pub timers_lem : (id : String) (t : Trace) → timers (adds id t ++ t) ≡ timers t

module _ (env : Env) (clock : Clock env) (fires_after : Num → ℕ) (manager : AgentManager) where
  -- Any calls may have happened before one of the timers fires.
  pub SystemReached-timers :
      (t : Trace)
      → SystemReached env clock fires_after manager
          (record { trace = t; pending = timers env clock fires_after t })
  SystemReached-timers [] = starts
  SystemReached-timers (c ∷ t) = goes_on _ _ (SystemReached-timers t) (calls t _ c)
