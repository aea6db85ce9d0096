-- ===== src/Manager/Retry.antt =====
-- What `pingConnectionWithRetry` guarantees.
use aries_guardianship_agenc.Base.{
  ℕ, zero, suc, ◌+◌, ◌*◌, ◌≤◌, ◌<◌, String, true, false, ◌∷◌, ◌≡◌, inl, inr, Bool-cases, arith,
}
use aries_guardianship_agenc.Js.Number.{nat}
use aries_guardianship_agenc.Js.Value.{Value}
use aries_guardianship_agenc.Effects.{
  Env, Result, ok, err, Trace, Date, ◌>>=◌, current_time, request_without_retry,
}
use aries_guardianship_agenc.Manager.{
  status_request, never_up, greater, ping_from, ping_connection_with_retry,
}
use aries_guardianship_agenc.Manager.Ping.{
  Clock, poll, polled, goes_on, ping_from-timeout, ping_from-up, ping_from-again, rested,
}

module _ (env : Env) (id : String) (port key : Value) (clock : Clock env) (d : ℕ) where
  -- How waiting for an agent ends, begun at a date: the agent has answered 200 to the last call, or
  -- the wait is given up and at least the duration has passed.
  pub data Ending (start : Date) (r : Result (Unit {0}) × Trace) : Type 0 where
    up :
        (t : Trace)
        → poll env id port key t ≡ true
        → r ≡ (ok tt, request_without_retry (status_request id port key) ∷ t)
        → Ending start r
    given_up :
        (t : Trace)
        → start.time + d ≤ (clock.date t).time
        → r ≡ (err (never_up id), current_time ∷ t)
        → Ending start r

  goes_on-false :
      (start : Date) (t : Trace)
      → start.time ≤ (clock.date t).time
      → goes_on env id port key clock (nat d) start t ≡ false
      → start.time + d ≤ (clock.date t).time
  unfolding greater
  goes_on-false start t h e = ground (arith, clock.delta (clock.date t) start h)

  goes_on-true :
      (start : Date) (t : Trace)
      → start.time ≤ (clock.date t).time
      → goes_on env id port key clock (nat d) start t ≡ true
      → (clock.date t).time < start.time + d
  unfolding greater
  goes_on-true start t h e = ground (arith, clock.delta (clock.date t) start h)

  polled_later :
      (t : Trace) → (clock.date t).time + 1000 ≤ (clock.date (polled env id port key t)).time
  polled_later t = omega (
    arith,
    clock.advances t current_time,
    clock.waits (current_time ∷ t) 1000,
    clock.advances (rested env id port key t) (request_without_retry (status_request id port key)),
  )

  ping_from-Ending :
      (fuel : ℕ) (start : Date) (t : Trace)
      → start.time ≤ (clock.date t).time
      → start.time + d + 1000 ≤ (clock.date t).time + fuel * 1000
      → 0 < fuel
      → Ending start (ping_from env fuel id port key (nat d) start t)
  ping_from-Ending zero start t h enough p = absurd (omega arith)
  ping_from-Ending (suc fuel) start t h enough p =
      elim (Bool-cases (goes_on env id port key clock (nat d) start t)) [
        | inl more ↦ elim (Bool-cases (poll env id port key (rested env id port key t))) [
          | inl good ↦
              up (rested env id port key t) good
                (ping_from-up env id port key clock (nat d) start fuel t more good)
          | inr bad ↦ rw (ping_from-again env id port key clock (nat d) start fuel t more bad) (
              ping_from-Ending fuel start (polled env id port key t) (omega (arith, polled_later t))
                (omega (arith, polled_later t)) (omega (arith, goes_on-true start t h more)))
        ]
        | inr over ↦
            given_up t (goes_on-false start t h over)
              (ping_from-timeout env id port key clock (nat d) start fuel t over)
      ]

  -- The wait for an agent ends, whatever the agent answers: fuel for one round more than the
  -- seconds of the duration is enough. It returns only when the last call was a status request with
  -- the agent's key that was answered 200, and it throws the exception that names the agent only
  -- when at least the duration has passed since it began.
  pub ping_connection_with_retry-Ending :
      (fuel : ℕ) (t : Trace)
      → d + 1000 ≤ fuel * 1000
      → Ending (clock.date t) (ping_connection_with_retry env fuel id port key (nat d) t)
  unfolding ping_connection_with_retry ◌>>=◌
  ping_connection_with_retry-Ending fuel t enough = rw (clock.read t) (
      ping_from-Ending fuel (clock.date t) (current_time ∷ t) (clock.advances t current_time)
        (omega (arith, clock.advances t current_time)) (omega arith))
