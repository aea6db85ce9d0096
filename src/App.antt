-- ===== src/App.antt =====
-- src/main.ts, src/app/app.service.ts and src/app/app.controller.ts: the start of the agency and its
-- health endpoints. Nest is outside the program: what is asked of it is an `AppCall`.
pub mod Start
pub mod Storage
use aries_guardianship_agenc.Base.{
  String, Bool, true, false, Option, none, some, List, [], ◌∷◌, if◌then◌else◌,
}
use aries_guardianship_agenc.Effects.{
  Env, M, Thrown, type_error, pure, throw, catch, perform, ◌>>=◌, ◌>>◌, Date, current_time,
  create_app, use_logger, use_exception_filter, use_traceware, listen, use_json_limit,
  setup_documentation, app_call,
}
use aries_guardianship_agenc.Docker.{equals_variable}
use aries_guardianship_agenc.Config.{get_genesis_file}

-- ServiceReportDto
pub record ServiceReport : Type 0 where
  pub service_name : Option String
  pub started_at : String
  pub current_time : String
  pub versions : List String

module _ (env : Env) where
  -- `process.env.NODE_ENV === Constants.LOCAL`
  abbrev pub is_local : Bool
  is_local = equals_variable env.local_env (env.var "NODE_ENV")

  -- The date is the value of the static field `startedAt`.
  unfoldable pub setup : M Date
  setup = do
    perform env (app_call use_logger)
    perform env (app_call (use_traceware (env.var "SERVICE_NAME")))
    perform env (app_call use_exception_filter)
    perform env (app_call (use_json_limit env.json_limit))
    started_at ← perform env current_time
    if is_local
        then perform env (
            app_call (
              setup_documentation "api-docs" "Agency Service"
                "Internal Documentation for the Agency microservice" "1.0"))
        else pure tt
    pure started_at

  -- The field is `undefined` before `setup`.
  unfoldable pub generate_stats_report : Option Date → M ServiceReport
  generate_stats_report none = throw type_error
  generate_stats_report (some started_at) = do
    now ← perform env current_time
    pure (record {
      service_name = env.var "SERVICE_NAME";
      started_at = env.date_text started_at;
      current_time = env.date_text now;
      versions = "none" ∷ [];
    })

  -- `bootstrap().catch(…)`: the value of `startedAt`, or `none` where the start has failed and nothing
  -- listens.
  unfoldable pub bootstrap : M (Option Date)
  bootstrap =
      catch
        (do
          perform env (app_call create_app)
          started_at ← setup
          perform env (app_call (listen (env.var "PORT")))
          pure (some started_at))
        (λ e. pure none)

  -- The endpoints of AppController.
  abbrev pub base : Option String
  base = env.var "SERVICE_NAME"

  abbrev pub ping : String
  ping = env.ping_response

  abbrev pub healthz : String
  healthz = env.healthz_response

  abbrev pub get_genesis : M String
  get_genesis = get_genesis_file env
