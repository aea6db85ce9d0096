-- ===== src/Tests/Startup.antt =====
-- A start of the agency, and a report.
use aries_guardianship_agenc.Base.{some, [], ◌∷◌, ◌≡◌, refl}
use aries_guardianship_agenc.Effects.{Env, ok, Trace, ◌>>=◌, delay, current_time}
use aries_guardianship_agenc.App.{ServiceReport, setup, bootstrap, generate_stats_report}
use aries_guardianship_agenc.App.Start.{started}
use aries_guardianship_agenc.Tests.World.{world, is_up, is_empty, date_of}

abbrev env : Env
env = world is_up is_empty

bootstrap_test : bootstrap env [] ≡ (ok (some (date_of [])), started env [])
unfolding bootstrap setup ◌>>=◌
bootstrap_test = refl

abbrev later : Trace
later = delay 5000 ∷ started env []

abbrev report : ServiceReport
report = record {
  service_name = env.var "SERVICE_NAME";
  started_at = "a day";
  current_time = "a day";
  versions = "none" ∷ [];
}

report_test :
    generate_stats_report env (some (date_of [])) later ≡ (ok report, current_time ∷ later)
unfolding generate_stats_report ◌>>=◌
report_test = refl
