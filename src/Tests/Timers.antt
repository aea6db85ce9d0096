-- ===== src/Tests/Timers.antt =====
-- The timer of an agent that was spun up.
use aries_guardianship_agenc.Base.{
  ◌+◌, ◌<◌, ◌⊎◌, true, List, Among, [], ◌∷◌, ◌++◌, ◌≡◌, refl, arith,
}
use aries_guardianship_agenc.Js.Number.{
  Num, int, fraction, infinity, nan, pos, negsuc, nat, exceeds,
}
use aries_guardianship_agenc.Js.Number.Text.{parse_int}
use aries_guardianship_agenc.Js.Value.{given, lookup_field}
use aries_guardianship_agenc.Effects.{
  ok, Call, Trace, pure, delay, schedule_spin_down, get_prop, ◌>>=◌,
}
use aries_guardianship_agenc.Config.{AgentCreateDto, build_config, new_agent_config, config_ttl}
use aries_guardianship_agenc.Manager.{
  spin_up_agent, start_or_handle, set_agent_cache, set_spin_down_job, connect_if_asked,
  ping_connection_with_retry, ping_from, is_agent_server_up, create_connection, greater,
}
use aries_guardianship_agenc.Manager.Timers.{
  Timer, timers, SpunDown, StopsOnly, SystemReached, SystemReached-timers,
}
use aries_guardianship_agenc.Manager.Timers.Promise.{
  SetFor, CanSpinDown, spin_up_agent-SpunDown, spin_up_agent-overflow,
}
use aries_guardianship_agenc.Tests.World.{is_up, is_empty, clock_of, date_of, dto}
use aries_guardianship_agenc.Tests.Agents.{
  env, works, spun_up, answer, fires_after, spin_up_agent_test,
}

abbrev waiting : List Timer
waiting = timers env (clock_of is_up is_empty) fires_after (delay 120000 ∷ spun_up)

works_stops : StopsOnly env (clock_of is_up is_empty) fires_after works
unfolding pure
works_stops = record { adds = λ id t. []; adds_lem = λ id t. refl; timers_lem = λ id t. refl }

abbrev reached :
    (t : Trace)
    → SystemReached env
        (clock_of is_up is_empty)
        fires_after
        works
        (record { trace = t; pending = timers env (clock_of is_up is_empty) fires_after t })
reached = SystemReached-timers env (clock_of is_up is_empty) fires_after works

-- The agent that was spun up, two minutes later.
spin_up_agent-SpunDown_example :
    (timer : Timer) × SetFor env (clock_of is_up is_empty) fires_after "a" (nat 60000) timer spun_up
    × (SpunDown env (clock_of is_up is_empty) fires_after works timer (delay 120000 ∷ spun_up)
        ⊎ (Among timer waiting
            × ((date_of (delay 120000 ∷ spun_up)).time < timer.due
                ⊎ CanSpinDown env
                    (clock_of is_up is_empty)
                    fires_after
                    works
                    works_stops
                    timer
                    (record { trace = delay 120000 ∷ spun_up; pending = waiting }))))
spin_up_agent-SpunDown_example =
    spin_up_agent-SpunDown env (clock_of is_up is_empty) fires_after works works_stops 4 dto
      (nat 60) [] answer spun_up (delay 120000 ∷ []) waiting refl refl refl spin_up_agent_test
      (reached _)

-- A ttl of thirty days and half a second.
abbrev long_ttl : Num
long_ttl = fraction (pos 2592000) 0 0

abbrev long_dto : AgentCreateDto
long_dto = record dto { ttl = given long_ttl }

abbrev long_up : Trace
long_up = (spin_up_agent env works 4 long_dto []).1

long_test : spin_up_agent env works 4 long_dto [] ≡ (ok answer, long_up)
unfolding spin_up_agent new_agent_config build_config start_or_handle set_agent_cache
    set_spin_down_job connect_if_asked ping_connection_with_retry ping_from is_agent_server_up
    create_connection greater config_ttl parse_int get_prop lookup_field ◌>>=◌
long_test = refl

clamps : (ms : Num) → exceeds ms 2147483647 ≡ true → fires_after ms ≡ 1
clamps (int (pos n)) long = ground arith
clamps (int (negsuc n)) long = absurd (cc long)
clamps (fraction (pos n) p d) long = ground arith
clamps (fraction (negsuc n) p d) long = absurd (cc long)
clamps infinity long = refl
clamps nan long = absurd (cc long)

abbrev long_waiting : List Timer
long_waiting = timers env (clock_of is_up is_empty) fires_after (delay 1000 ∷ long_up)

-- One second later.
spin_up_agent-overflow_example :
    (newer : List Call) × (older : Trace) × (long_up
      ≡ newer ++ schedule_spin_down "a" (nat 2592000500) ∷ older)
    × ((date_of older).time < (date_of (delay 1000 ∷ long_up)).time
        → let timer : Timer = record { agent_id = "a"; due = (date_of older).time + 1 } in
          SpunDown env (clock_of is_up is_empty) fires_after works timer (delay 1000 ∷ long_up)
          ⊎ CanSpinDown env
              (clock_of is_up is_empty)
              fires_after
              works
              works_stops
              timer
              (record { trace = delay 1000 ∷ long_up; pending = long_waiting }))
spin_up_agent-overflow_example =
    spin_up_agent-overflow env (clock_of is_up is_empty) fires_after works works_stops 4 long_dto
      long_ttl [] answer long_up (delay 1000 ∷ []) long_waiting refl refl refl long_test (reached _)
      clamps refl
