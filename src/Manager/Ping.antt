-- ===== src/Manager/Ping.antt =====
-- `isAgentServerUp` and the loop of `pingConnectionWithRetry`.
use aries_guardianship_agenc.Base.{
  ℕ, suc, ◌+◌, ◌≤◌, ◌-◌, String, Bool, true, false, ◌∷◌, ◌≡◌, inl, inr, Bool-cases,
}
use aries_guardianship_agenc.Js.Number.{Num, nat, num_eq}
use aries_guardianship_agenc.Js.Value.{Value}
use aries_guardianship_agenc.Effects.{
  Env, Result, ok, err, Trace, HttpResponse, Date, Call, ◌>>=◌, current_time, delay,
  request_without_retry,
}
use aries_guardianship_agenc.Effects.Laws.{Result-cases}
use aries_guardianship_agenc.Manager.{
  status_request, never_up, greater, is_agent_server_up, ping_from,
}

-- What is relied on of the clock: a date is always there, time does not run back while calls are
-- made, a delay of so many milliseconds takes them, and `timeDelta` is the difference.
pub record Clock (env : Env) : Type 0 where
  pub date : Trace → Date
  pub read : (t : Trace) → env.reply t current_time ≡ ok (date t)
  pub advances : (t : Trace) (c : Call) → (date t).time ≤ (date (c ∷ t)).time
  pub waits : (t : Trace) (ms : ℕ) → (date t).time + ms ≤ (date (delay ms ∷ t)).time
  pub wakes : (t : Trace) (ms : ℕ) → env.reply t (delay ms) ≡ ok tt
  pub delta : (a b : Date) → b.time ≤ a.time → env.time_delta a b ≡ nat (a.time - b.time)

-- A good status code.
abbrev pub is_good : Result HttpResponse → Bool
is_good (ok res) = num_eq res.status (nat 200)
is_good (err e) = false

module _ (env : Env) (id : String) (port key : Value) where
  abbrev pub poll : Trace → Bool
  poll t = is_good (env.reply t (request_without_retry (status_request id port key)))

  -- One request is made and nothing is thrown: the result is whether the answer is 200.
  pub is_agent_server_up_lem :
      (t : Trace)
      → is_agent_server_up env id port key t
        ≡ (ok (poll t), request_without_retry (status_request id port key) ∷ t)
  unfolding is_agent_server_up ◌>>=◌
  is_agent_server_up_lem t =
      elim (Result-cases (env.reply t (request_without_retry (status_request id port key)))) [
        | inl (res, e) ↦ rw (e) (elim (Bool-cases (num_eq res.status (nat 200))) [
          | inl good ↦ rw good
          | inr bad ↦ rw bad
        ])
        | inr (thrown, e) ↦ rw e
      ]

  -- The calls of one round that goes on.
  abbrev pub rested : Trace → Trace
  rested t = delay 1000 ∷ current_time ∷ t

  abbrev pub polled : Trace → Trace
  polled t = request_without_retry (status_request id port key) ∷ rested t

  module _ (clock : Clock env) (duration : Num) (start : Date) where
    abbrev pub goes_on : Trace → Bool
    goes_on t = greater duration (env.time_delta (clock.date t) start)

    -- A round whose test fails, one that finds the agent up, and one that goes on.
    pub ping_from-timeout :
        (fuel : ℕ) (t : Trace)
        → goes_on t ≡ false
        → ping_from env (suc fuel) id port key duration start t
          ≡ (err (never_up id), current_time ∷ t)
    unfolding ping_from ◌>>=◌
    ping_from-timeout fuel t h = rw (clock.read t) (rw h)

    pub ping_from-up :
        (fuel : ℕ) (t : Trace)
        → goes_on t ≡ true
        → poll (rested t) ≡ true
        → ping_from env (suc fuel) id port key duration start t ≡ (ok tt, polled t)
    unfolding ping_from ◌>>=◌
    ping_from-up fuel t h u =
        rw (clock.read t)
          (rw h (rw (clock.wakes (current_time ∷ t) 1000) (rw is_agent_server_up_lem (rw u))))

    pub ping_from-again :
        (fuel : ℕ) (t : Trace)
        → goes_on t ≡ true
        → poll (rested t) ≡ false
        → ping_from env (suc fuel) id port key duration start t
          ≡ ping_from env fuel id port key duration start (polled t)
    unfolding ping_from ◌>>=◌
    ping_from-again fuel t h u =
        rw (clock.read t)
          (rw h (rw (clock.wakes (current_time ∷ t) 1000) (rw is_agent_server_up_lem (rw u))))
