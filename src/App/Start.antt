-- ===== src/App/Start.antt =====
-- How the agency starts.
use aries_guardianship_agenc.Base.{some, List, [], ◌∷◌, ◌++◌, ◌≡◌, arith, if◌then◌else◌}
use aries_guardianship_agenc.Effects.{
  Env, ok, Trace, Call, ◌>>=◌, Date, current_time, create_app, use_logger, use_exception_filter,
  use_traceware, listen, use_json_limit, setup_documentation, app_call,
}
use aries_guardianship_agenc.App.{ServiceReport, is_local, setup, bootstrap, generate_stats_report}

module _ (env : Env) where
  abbrev pub documentation : List Call
  documentation =
      if is_local env
      then app_call (
          setup_documentation "api-docs" "Agency Service"
            "Internal Documentation for the Agency microservice" "1.0")
        ∷ []
      else []

  -- The calls before the date of the start is read, the last one first.
  abbrev pub set_up : Trace → Trace
  set_up t =
      app_call (use_json_limit env.json_limit)
      ∷ app_call use_exception_filter
      ∷ app_call (use_traceware (env.var "SERVICE_NAME"))
      ∷ app_call use_logger
      ∷ app_call create_app
      ∷ t

  abbrev pub started : Trace → Trace
  started t = app_call (listen (env.var "PORT")) ∷ documentation ++ current_time ∷ set_up t

  -- A start that has come through has made these calls in this order, and no others: it listens
  -- last, and the documentation is there exactly in the local environment. From then on a report has
  -- the date that was read while it started, whatever was called in between, and the current one.
  pub bootstrap-generate_stats_report :
      (t t' s s' : Trace) (d : Date) (report : ServiceReport)
      → bootstrap env t ≡ (ok (some d), t')
      → generate_stats_report env (some d) s ≡ (ok report, s')
      → (t' ≡ started t)
        × (s' ≡ current_time ∷ s)
        × ((start : Date) × (now : Date) × (env.reply (set_up t) current_time ≡ ok start)
            × (env.reply s current_time ≡ ok now)
            × (report.started_at ≡ env.date_text start)
            × (report.current_time ≡ env.date_text now))
  unfolding bootstrap setup generate_stats_report ◌>>=◌
  bootstrap-generate_stats_report t t' s s' d report came reported = ground arith
