-- ===== src/Tests/Http.antt =====
-- Requests over HTTP to the whole agency.
use mathlib.Core.Path.{subst}
use aries_guardianship_agenc.Base.{
  true, false, some, List, [], ◌∷◌, ◌≡◌, refl, sym, inl, inr, Among, All,
}
use aries_guardianship_agenc.Js.Number.{fraction, pos}
use aries_guardianship_agenc.Js.Value.{lookup_field, absent, nothing, given}
use aries_guardianship_agenc.Effects.{Env}
use aries_guardianship_agenc.Config.{AgentCreateDto}
use aries_guardianship_agenc.Routes
use aries_guardianship_agenc.Routes.{
  post, literal, Route, route, routes, app_routes, manager_routes, controller_routes,
  multitenant_routes, transaction_routes,
}
use aries_guardianship_agenc.Validation.{Rules, agent_create_rules}
use aries_guardianship_agenc.Validation.Bodies.{AgentBody}
use aries_guardianship_agenc.Agency.{Operation, create_agent, spin_down, docker, serve_all}
use aries_guardianship_agenc.Agency.Http.{Incoming, body_rules, creates_agent, Accepted}
use aries_guardianship_agenc.Agency.Http.Accepts.{routes-Accepted}
use aries_guardianship_agenc.Agency.Http.Origins.{FromHttp, HasOrigin, serve_all-FromHttp}
use aries_guardianship_agenc.Tests.World.{world, is_up, is_empty}
use aries_guardianship_agenc.Tests.Bodies.{pipe, agent_body, agent_body_test}
use aries_guardianship_agenc.Tests.Routes.{first_match}

abbrev request : Incoming
request = record { verb = post; parts = "v1" ∷ "manager" ∷ []; body = agent_body }

abbrev to_create : Route
to_create = route post (literal "v1" ∷ literal "manager" ∷ []) Routes.create_agent

taken_test : first_match.dispatch routes request.verb request.parts ≡ some to_create
unfolding routes app_routes manager_routes controller_routes multitenant_routes transaction_routes
taken_test = refl

valid :
    (rules : Rules)
    → body_rules Routes.create_agent ≡ some rules
    → pipe.accepts rules agent_body ≡ true
valid rules e =
    let same : agent_create_rules ≡ rules = cc e in
    subst (λ r. pipe.accepts r agent_body ≡ true) same agent_body_test

routes-Accepted_example : (op : Operation) × Accepted first_match pipe request op
routes-Accepted_example = routes-Accepted first_match pipe request to_create taken_test valid tt

abbrev created : AgentCreateDto
created = record {
  wallet_id = "w";
  wallet_key = "k";
  admin_api_key = "s";
  agent_id = "a1";
  seed = nothing;
  ttl = given (fraction (pos 59) 0 0);
  controller_url = absent;
  label = absent;
  auto_connect = given false;
  admin_api_port = absent;
  use_tails_server = absent;
}

created-AgentBody : AgentBody agent_body created
unfolding lookup_field
created-AgentBody = record {
  wallet_id_lem = refl;
  wallet_key_lem = refl;
  admin_api_key_lem = refl;
  agent_id_lem = refl;
  seed_lem = refl;
  ttl_lem = refl;
  controller_url_lem = refl;
  label_lem = refl;
  auto_connect_lem = refl;
  admin_api_port_lem = refl;
  use_tails_server_lem = refl;
}

abbrev env : Env
env = world is_up is_empty

-- The agent is created, and its timer fires.
abbrev ops : List Operation
ops = spin_down "a1" ∷ create_agent created ∷ []

accepted : Accepted first_match pipe request (create_agent created)
accepted = record {
  route = to_create;
  taken = taken_test;
  valid = valid;
  handled = creates_agent created created-AgentBody;
}

abbrev Origin : Operation → Type 0
Origin = HasOrigin env first_match pipe (request ∷ []) ops

origins : (op : Operation) → Among op ops → Origin op
origins op (inl e) = subst Origin (sym e) (inr (created, inr (inl refl), refl))
origins op (inr (inl e)) = subst Origin (sym e) (inl (request, inl refl, accepted))
origins op (inr (inr none)) = absurd none

serve_all-FromHttp_example :
    All (FromHttp env first_match pipe (request ∷ []) ops) (serve_all env docker 4 ops)
serve_all-FromHttp_example =
    serve_all-FromHttp env first_match pipe (request ∷ []) ops origins docker 4
