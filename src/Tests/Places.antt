-- ===== src/Tests/Places.antt =====
-- Runs of Docker, Kubernetes, the router and the controller.
use aries_guardianship_agenc.Base.{
  if◌then◌else◌, Char, String, code, true, ◌↔◌, false, List, [], ◌∷◌, ◌≡◌, refl, arith, ◌⧺◌,
}
use aries_guardianship_agenc.Js.Value.{
  variable_text, Fields, obj, is_truthy, to_text, variable, undefined, str, lookup_field, given,
}
use aries_guardianship_agenc.Effects.{
  Env, ok, err, type_error, Trace, cache_get, PodCondition, Date, create_pod, create_service,
  delete_pod, delete_service, ◌>>=◌,
}
use aries_guardianship_agenc.Config.{AgentConfig, build_config}
use aries_guardianship_agenc.Config.Command.{get_start_args}
use aries_guardianship_agenc.Config.AgentId.{is_agent_id, is_agent_id_iff, is_lower}
use aries_guardianship_agenc.Config.Args.{flatten_options, options, get_start_args-build_config}
use aries_guardianship_agenc.K8s.{
  ready_since, pod_options, service_options, start_agent, stop_agent,
}
use aries_guardianship_agenc.K8s.Ready.{ready_since-ArePast}
use aries_guardianship_agenc.K8s.Objects.{name_of, stop_agent-start_agent}
use aries_guardianship_agenc.Router.{router, path_rewrite}
use aries_guardianship_agenc.Router.Laws.{router-path_rewrite}
use aries_guardianship_agenc.Controller.{handle_request, webhook_url}
use aries_guardianship_agenc.Controller.Laws.{handle_request_total}
use aries_guardianship_agenc.Tests.World.{world, is_up, is_empty, dto}

abbrev env : Env
env = world is_up is_empty

abbrev config : AgentConfig
config = build_config env dto "genesis"

get_start_args-build_config_example :
    get_start_args env config ≡ str "start" ∷ flatten_options (options env dto "genesis")
get_start_args-build_config_example = get_start_args-build_config env dto "genesis"

abbrev ready : List PodCondition
ready =
    (record {
      type = "Ready";
      status = "True";
      last_transition_time = given (record { ref = 1; time = 5 });
    })
    ∷ []

abbrev now : Date
now = record { ref = 0; time = 9 }

ready_since-ArePast_example : ready_since now ready ≡ false
ready_since-ArePast_example = ready_since-ArePast now ready ((omega arith, omega arith), tt)

abbrev created : Trace
created =
    create_service "ns" (service_options config) ∷ create_pod "ns" (pod_options env config) ∷ []

abbrev deleted : Trace
deleted = delete_pod "a" "ns" ∷ delete_service "a" "ns" ∷ created

started_lem : start_agent env "ns" config [] ≡ (ok "a", created)
unfolding start_agent build_config ◌>>=◌
started_lem = refl

stopped_lem : stop_agent env "ns" "a" created ≡ (ok tt, deleted)
unfolding stop_agent ◌>>=◌
stopped_lem = refl

stop_agent-start_agent_example :
    (deleted ≡ deleted)
    × (name_of (pod_options env config) ≡ str "a")
    × (name_of (service_options config) ≡ str "a")
stop_agent-start_agent_example =
    stop_agent-start_agent env "ns" config "a" [] created deleted started_lem stopped_lem

router-path_rewrite_example :
    (router env "/v1/router/a1/x/y" ≡ "http://a1:" ⧺ variable_text (env.var "AGENT_HTTP_PORT"))
    × (path_rewrite "/v1/router/a1/x/y" ≡ "x/y")
router-path_rewrite_example = router-path_rewrite env "a" "1" "x/y" (omega arith)

-- The cache has nothing.
handle_request_total_example :
    (handle_request env "a" "topic" "connections" undefined []
      ≡ (err type_error, cache_get "a" ∷ []))
    × ((fs : Fields)
        → webhook_url env "a" (obj fs) ≡ (
            if is_truthy (lookup_field "multitenant" fs)
            then variable (env.var "MULTITENANT_URL")
            else str ("http://" ⧺ "a" ⧺ ":" ⧺ to_text (lookup_field "adminApiPort" fs))))
handle_request_total_example = handle_request_total env "a" "topic" "connections" undefined []

is_agent_id_iff_example : (is_agent_id "A-b_" ≡ true) ↔ (
    (before : String) × (c : Char) × (after : String) × ("A-b_" ≡ before ⧺ String.◌∷◌ c after)
    × (is_lower (code c) ≡ true))
is_agent_id_iff_example = is_agent_id_iff "A-b_"
