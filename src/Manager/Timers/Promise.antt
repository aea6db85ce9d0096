-- ===== src/Manager/Timers/Promise.antt =====
-- What becomes of the timer of an agent.
use mathlib.Core.Path.{subst}
use mathlib.Core.List.{append_assoc}
use native.Mathlib.Decide.{dec_le}
use aries_guardianship_agenc.Base.{
  true, false, ℕ, ◌+◌, ◌≤◌, ◌<◌, String, List, [], ◌∷◌, ◌++◌, ◌≡◌, refl, sym, ap, ◌∙◌, ◌⊎◌, inl,
  inr, arith, Among, Among-append,
}
use aries_guardianship_agenc.Js.Number.{Num, is_positive, is_infinity, times_1000, exceeds}
use aries_guardianship_agenc.Js.Value.{given}
use aries_guardianship_agenc.Effects.{Env, ok, Call, Trace, schedule_spin_down, cache_del}
use aries_guardianship_agenc.Effects.Laws.{Result-cases}
use aries_guardianship_agenc.Effects.Ensures.{Ensures-returned}
use aries_guardianship_agenc.AgentManager.{AgentManager}
use aries_guardianship_agenc.Config.{AgentCreateDto}
use aries_guardianship_agenc.Manager.{SpinUpResult, spin_up_agent, spin_down_agent}
use aries_guardianship_agenc.Manager.Endpoints.{spin_down_agent_total}
use aries_guardianship_agenc.Manager.Ping.{Clock}
use aries_guardianship_agenc.Manager.Timers.{
  Timer, System, new_timers, timers, SystemStep, calls, fires, SystemReached, starts, goes_on,
  ended, SpunDown, StopsOnly,
}
use aries_guardianship_agenc.Manager.Timers.Asked.{spin_up_agent-IsAsked}

Among-split :
    {A : Type 0} (a : A) (xs : List A)
    → Among a xs
    → (before : List A) × (after : List A) × (xs ≡ before ++ a ∷ after)
Among-split a [] h = elim h [ ]
Among-split a (b ∷ bs) (inl e) = ([], bs, ap (λ x. x ∷ bs) (sym e))
Among-split a (b ∷ bs) (inr h) =
    let (before, after, e) = Among-split a bs h in (b ∷ before, after, ap (λ ys. b ∷ ys) e)

module _ (env : Env) (clock : Clock env) (fires_after : Num → ℕ) where
  -- The timer that asking for one sets.
  abbrev pub set_for : String → Num → Trace → Timer
  set_for id ms older = record { agent_id = id; due = (clock.date older).time + fires_after ms }

  abbrev pub SetFor : String → Num → Timer → Trace → Type 0
  SetFor id ms timer t =
      (newer : List Call) × (older : Trace) × (t ≡ newer ++ schedule_spin_down id ms ∷ older)
      × (timer ≡ set_for id ms older)

  timers-append :
      (timer : Timer) (newer : List Call) (t : Trace)
      → Among timer (timers env clock fires_after t)
      → Among timer (timers env clock fires_after (newer ++ t))
  timers-append timer [] t h = h
  timers-append timer (c ∷ newer) t h =
      (Among-append timer (new_timers env clock fires_after c (newer ++ t)) _).1
        (inr (timers-append timer newer t h))

  module _ (manager : AgentManager) (stops : StopsOnly env clock fires_after manager) where
    SpunDown-append :
        (timer : Timer) (more : List Call) (t : Trace)
        → SpunDown env clock fires_after manager timer t
        → SpunDown env clock fires_after manager timer (more ++ t)
    SpunDown-append timer more t (newer, older, e, late) =
        (more ++ newer, older, rw e (sym (append_assoc more newer _)), late)

    spin_down_agent-ended :
        (id : String) (t : Trace)
        → (spin_down_agent env manager id t).1 ≡ ended env clock fires_after manager id t
    spin_down_agent-ended id t = ap (λ o. o.1) (spin_down_agent_total env manager id t)

    spin_down_agent-adds :
        (id : String) (t : Trace)
        → (newer : List Call) × ((spin_down_agent env manager id t).1 ≡ newer ++ cache_del id ∷ t)
          × (timers env clock fires_after (spin_down_agent env manager id t).1
              ≡ timers env clock fires_after t)
    spin_down_agent-adds id t = elim (Result-cases (env.reply t (cache_del id))) [
      | inl (done, works) ↦ (
        stops.adds id (cache_del id ∷ t),
        rw (spin_down_agent_total env manager id t) (rw works (stops.adds_lem id _)),
        rw (spin_down_agent_total env manager id t)
            (rw works (rw (stops.adds_lem id (cache_del id ∷ t)) (stops.timers_lem id _))),
      )
      | inr (e, fails) ↦ (
        [],
        rw (spin_down_agent_total env manager id t) (rw fails refl),
        rw (spin_down_agent_total env manager id t) (rw fails refl),
      )
    ]

    abbrev Stays : Timer → System → Type 0
    Stays timer a = Among timer a.pending ⊎ SpunDown env clock fires_after manager timer a.trace

    -- The timer is pending and due, and in a step from here it spins its agent down.
    abbrev pub CanSpinDown : Timer → System → Type 0
    CanSpinDown timer a =
        (before : List Timer) × (after : List Timer) × (a.pending ≡ before ++ timer ∷ after)
        × (timer.due ≤ (clock.date a.trace).time)
        × SystemStep env clock fires_after manager a (record {
          trace = ended env clock fires_after manager timer.agent_id a.trace;
          pending = before ++ after;
        })

    Among-CanSpinDown :
        (timer : Timer) (t : Trace) (pending : List Timer)
        → Among timer pending
        → timer.due ≤ (clock.date t).time
        → CanSpinDown timer (record { trace = t; pending = pending })
    Among-CanSpinDown timer t pending among late =
        let (before, after, e) = Among-split timer pending among in
        (
          before,
          after,
          e,
          late,
          subst
              (λ p.
                SystemStep env clock fires_after manager (record { trace = t; pending = p })
                  (record {
                    trace = ended env clock fires_after manager timer.agent_id t;
                    pending = before ++ after;
                  }))
              (sym e)
              (subst
                (λ s.
                  SystemStep env clock fires_after manager
                    (record { trace = t; pending = before ++ timer ∷ after })
                    (record { trace = s; pending = before ++ after }))
                (spin_down_agent-ended timer.agent_id t) (fires t before after timer late)),
        )

    SystemStep-Stays :
        (timer : Timer) (a b : System)
        → SystemStep env clock fires_after manager a b
        → (Among timer (timers env clock fires_after a.trace) → Stays timer a)
        → Among timer (timers env clock fires_after b.trace)
        → Stays timer b
    SystemStep-Stays timer _ _ (calls t pending c) stay h =
        elim ((Among-append timer (new_timers env clock fires_after c t) _).0 h) [
          | inl new ↦ inl ((Among-append timer _ pending).1 (inl new))
          | inr old ↦ elim (stay old) [
            | inl p ↦ inl ((Among-append timer _ pending).1 (inr p))
            | inr d ↦ inr (SpunDown-append timer (c ∷ []) t d)
          ]
        ]
    SystemStep-Stays timer _ _ (fires t before after fired late) stay h =
        let (newer, made, same) = spin_down_agent-adds fired.agent_id t in
        elim (stay (subst (Among timer) same h)) [
          | inl p ↦ elim ((Among-append timer before _).0 p) [
            | inl q ↦ inl ((Among-append timer before after).1 (inl q))
            | inr q ↦ elim q [
              | inl e ↦ inr (rw e ([], t, spin_down_agent-ended fired.agent_id t, late))
              | inr k ↦ inl ((Among-append timer before after).1 (inr k))
            ]
          ]
          | inr d ↦ inr (
              subst (SpunDown env clock fires_after manager timer)
                (append_assoc newer (cache_del fired.agent_id ∷ []) t ∙ sym made)
                (SpunDown-append timer (newer ++ cache_del fired.agent_id ∷ []) t d))
        ]

    SystemReached-Stays :
        (timer : Timer) (a : System)
        → SystemReached env clock fires_after manager a
        → Among timer (timers env clock fires_after a.trace)
        → Stays timer a
    SystemReached-Stays timer _ starts h = elim h [ ]
    SystemReached-Stays timer b (goes_on a _ reached step) h =
        SystemStep-Stays timer a b step (SystemReached-Stays timer a reached) h

    module _ (fuel : ℕ) (dto : AgentCreateDto) (n : Num) (t : Trace) (r : SpinUpResult) (t' : Trace)
        (later : List Call) (pending : List Timer) (lives : dto.ttl ≡ given n)
        (positive : is_positive n ≡ true) (ends : is_infinity n ≡ false)
        (returned : spin_up_agent env manager fuel dto t ≡ (ok r, t'))
        (reached : SystemReached env clock fires_after manager
          (record { trace = later ++ t'; pending = pending })) where
      -- A spin-up with a ttl that is positive and finite, a fraction too, that has returned, over a
      -- place where stopping an agent only adds calls and starts no timer, has set a timer of its
      -- agent, due the milliseconds of the ttl, as `setTimeout` takes them, after the date of its
      -- setting. However calls and timers go on from there: the agent has been spun down at a time at
      -- which the timer was due, its entry deleted and then, if that has worked, the agent stopped; or
      -- the timer is still pending, and is not due yet, or fires in a step from there, which does that.
      pub spin_up_agent-SpunDown :
          (timer : Timer) × SetFor dto.agent_id (times_1000 n) timer t'
          × (SpunDown env clock fires_after manager timer (later ++ t')
              ⊎ (Among timer pending
                  × (((clock.date (later ++ t')).time < timer.due)
                      ⊎ CanSpinDown timer (record { trace = later ++ t'; pending = pending }))))
      spin_up_agent-SpunDown =
          let (newer, older, asked) =
            Ensures-returned (spin_up_agent-IsAsked env manager fuel dto n lives positive ends) tt
              returned in
          let timer = set_for dto.agent_id (times_1000 n) older in
          (
            timer,
            (newer, older, asked, refl),
            elim (SystemReached-Stays timer _ reached (
                timers-append timer later t' (rw asked (timers-append timer newer _ (inl refl))))) [
                  | inl p ↦ inr (
                    p,
                    elim (dec_le timer.due (clock.date (later ++ t')).time) [
                      | yes late ↦ inr (Among-CanSpinDown timer _ pending p late)
                      | no early ↦ inl (omega arith)
                    ],
                  )
                  | inr d ↦ inl d
                ],
          )

      -- A spin-up that has returned, with a ttl of which the milliseconds are more than 2147483647,
      -- where `setTimeout` replaces each such time by one millisecond, as that of Node does: once a
      -- millisecond has passed since the timer was set, the agent has been spun down, or the timer is
      -- pending and fires in a step from there.
      pub spin_up_agent-overflow :
          ((ms : Num) → exceeds ms 2147483647 ≡ true → fires_after ms ≡ 1)
          → exceeds (times_1000 n) 2147483647 ≡ true
          → (newer : List Call) × (older : Trace) × (t'
              ≡ newer ++ schedule_spin_down dto.agent_id (times_1000 n) ∷ older)
            × ((clock.date older).time < (clock.date (later ++ t')).time
                → let timer : Timer = record {
                  agent_id = dto.agent_id;
                  due = (clock.date older).time + 1;
                } in
                  SpunDown env clock fires_after manager timer (later ++ t')
                  ⊎ CanSpinDown timer (record { trace = later ++ t'; pending = pending }))
      spin_up_agent-overflow clamps long =
          let (timer, (newer, older, asked, set), state) = spin_up_agent-SpunDown in
          let same : timer ≡ record { agent_id = dto.agent_id; due = (clock.date older).time + 1 } =
            set
            ∙ ap (λ ms. record { agent_id = dto.agent_id; due = (clock.date older).time + ms })
                (clamps (times_1000 n) long) in
          (
            newer,
            older,
            asked,
            λ passed.
                subst
                  (λ due.
                    SpunDown env clock fires_after manager due (later ++ t')
                    ⊎ CanSpinDown due (record { trace = later ++ t'; pending = pending }))
                  same
                  (elim state [
                    | inl d ↦ inl d
                    | inr (p, inr fires_now) ↦ inr fires_now
                    | inr (p, inl early) ↦ absurd (omega (arith, ap (λ x. x.due) same))
                  ]),
          )
