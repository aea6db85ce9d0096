-- ===== src/Agency/Http/Accepts.antt =====
-- Every request that the routes and the validation let through is an operation.
use mathlib.Core.Path.{subst}
use aries_guardianship_agenc.Base.{
  String, Bool, true, false, ◌&&◌, ◌||◌, and_true, Bool-cases, Option, some, List, [], ◌∷◌, ◌≡◌,
  refl, sym, inl, inr, str_eq, Among,
}
use aries_guardianship_agenc.Js.Value.{Fields, str, lookup_field}
use aries_guardianship_agenc.Routes
use aries_guardianship_agenc.Routes.{
  Segment, literal, param, Route, Endpoint, covers, same_verb, routes, app_routes, manager_routes,
  controller_routes, multitenant_routes, transaction_routes,
}
use aries_guardianship_agenc.Routes.Dispatch.{Express}
use aries_guardianship_agenc.Validation.{
  Rules, ValidationPipe, wallet_remove_rules, register_tdc_rules, register_one_time_key_rules,
}
use aries_guardianship_agenc.Validation.Decorators.{string_lem, accepts-AllPass}
use aries_guardianship_agenc.Validation.Bodies.{
  agent_create_rules-AgentBody, wallet_create_rules-WalletBody,
}
use aries_guardianship_agenc.Transactions.Service.{RegisterOneTimeKeyDto}
use aries_guardianship_agenc.Agency.{Operation}
use aries_guardianship_agenc.Agency.Http.{
  Incoming, param_of, body_rules, OneTimeKeyBody, Handles, creates_agent, stops_agent,
  connects_agent, gets_controller, posts_controller, creates_wallet, removes_wallet,
  registers_with_tdc, registers_onetime_key, gets_ids, Accepted,
}

-- The parameters that a method reads of the path.
abbrev needs : Endpoint → List String
needs Routes.get_controller = "agentId" ∷ "route" ∷ "subroute" ∷ []
needs Routes.post_controller = "agentId" ∷ "route" ∷ "subroute" ∷ []
needs Routes.register_with_tdc = "agentId" ∷ []
needs Routes.register_onetime_key = "agentId" ∷ []
needs Routes.get_one_time_key_ids = "agentId" ∷ []
needs _ = []

abbrev has_param : String → List Segment → Bool
has_param name [] = false
has_param name (literal a ∷ path) = has_param name path
has_param name (param n ∷ path) = str_eq n name || has_param name path

abbrev has_params : List String → List Segment → Bool
has_params [] path = true
has_params (name ∷ names) path = has_param name path && has_params names path

abbrev all_have : List Route → Bool
all_have [] = true
all_have (r ∷ rs) = has_params (needs r.endpoint) r.path && all_have rs

all_have-routes : all_have routes ≡ true
unfolding routes app_routes manager_routes controller_routes multitenant_routes transaction_routes
all_have-routes = refl

all_have-Among :
    (rs : List Route) (r : Route)
    → all_have rs ≡ true
    → Among r rs
    → has_params (needs r.endpoint) r.path ≡ true
all_have-Among [] r h among = elim among [ ]
all_have-Among (q ∷ rs) r h (inl e) =
    subst (λ x. has_params (needs x.endpoint) x.path ≡ true) (sym e)
      (and_true (has_params (needs q.endpoint) q.path) _ h).0
all_have-Among (q ∷ rs) r h (inr later) =
    all_have-Among rs r (and_true (has_params (needs q.endpoint) q.path) _ h).1 later

param_of_given :
    (same : String → String → Bool) (name : String) (path : List Segment) (parts : List String)
    → covers same path parts ≡ true
    → has_param name path ≡ true
    → (s : String) × (param_of name path parts ≡ some s)
param_of_given same name [] parts c h = absurd (cc h)
param_of_given same name (literal a ∷ path) [] c h = absurd (cc c)
param_of_given same name (param n ∷ path) [] c h = absurd (cc c)
param_of_given same name (literal a ∷ path) (s ∷ parts) c h =
    param_of_given same name path parts (and_true (same a s) _ c).1 h
param_of_given same name (param n ∷ path) (s ∷ parts) c h = elim (Bool-cases (str_eq n name)) [
  | inl here ↦ (s, rw here refl)
  | inr other ↦
      let (v, e) = param_of_given same name path parts c (rw other at h) in (v, rw other e)
]

-- Each name of the list has a value.
abbrev Given : (String → Option String) → List String → Type 0
Given params [] = Unit
Given params (name ∷ names) = ((s : String) × (params name ≡ some s)) × Given params names

param_of-Given :
    (same : String → String → Bool) (names : List String) (path : List Segment)
    (parts : List String)
    → covers same path parts ≡ true
    → has_params names path ≡ true
    → Given (λ name. param_of name path parts) names
param_of-Given same [] path parts c h = tt
param_of-Given same (name ∷ names) path parts c h =
    let (here, more) = and_true (has_param name path) _ h in
    (param_of_given same name path parts c here, param_of-Given same names path parts c more)

-- What a request must be for an operation: not one for a health endpoint, and for the two bodies
-- that are not validated, one with a text for the id of the agent.
abbrev pub Asks : Endpoint → Fields → Type 0
Asks Routes.base body = ⊥
Asks Routes.ping body = ⊥
Asks Routes.healthz body = ⊥
Asks Routes.get_genesis_file body = ⊥
Asks Routes.generate_stats_report body = ⊥
Asks Routes.stop_agent body = (id : String) × (lookup_field "agentId" body ≡ str id)
Asks Routes.connect_agent body = (id : String) × (lookup_field "agentId" body ≡ str id)
Asks _ body = Unit

module _ (pipe : ValidationPipe) (params : String → Option String) (body : Fields) where
  abbrev Valid : Endpoint → Type 0
  Valid e = (rules : Rules) → body_rules e ≡ some rules → pipe.accepts rules body ≡ true

  one_time_key :
      pipe.accepts register_one_time_key_rules body ≡ true
      → (dto : RegisterOneTimeKeyDto) × OneTimeKeyBody body dto
  one_time_key valid =
      let (p₁, (p₂, (p₃, done))) = accepts-AllPass pipe register_one_time_key_rules body valid in
      let (connection_id, e₁) = string_lem _ p₁ in
      let (tdc_endpoint, e₂) = string_lem _ p₂ in
      let (key, e₃) = string_lem _ p₃ in
      (
        record { connection_id = connection_id; tdc_endpoint = tdc_endpoint; one_time_key = key },
        record { connection_id_lem = e₁; tdc_endpoint_lem = e₂; one_time_key_lem = e₃ },
      )

  handles :
      (e : Endpoint)
      → Given params (needs e)
      → Valid e
      → Asks e body
      → (op : Operation) × Handles params body e op
  handles Routes.base given valid asks = absurd asks
  handles Routes.ping given valid asks = absurd asks
  handles Routes.healthz given valid asks = absurd asks
  handles Routes.get_genesis_file given valid asks = absurd asks
  handles Routes.generate_stats_report given valid asks = absurd asks
  handles Routes.create_agent given valid asks =
      let (dto, is, matched, ttl, port) = agent_create_rules-AgentBody pipe body (valid _ refl) in
      (_, creates_agent dto is)
  handles Routes.stop_agent given valid (id, e) = (_, stops_agent (record { agent_id = id }) e)
  handles Routes.connect_agent given valid (id, e) = (
    _,
    connects_agent (record { agent_id = id; admin_api_key = lookup_field "adminApiKey" body }) e
        refl,
  )
  handles Routes.get_controller ((id, e₁), ((route, e₂), ((subroute, e₃), done))) valid asks =
      (_, gets_controller id route subroute e₁ e₂ e₃)
  handles Routes.post_controller ((id, e₁), ((route, e₂), ((subroute, e₃), done))) valid asks =
      (_, posts_controller id route subroute e₁ e₂ e₃)
  handles Routes.create_wallet given valid asks =
      let (dto, is, ttl) = wallet_create_rules-WalletBody pipe body (valid _ refl) in
      (_, creates_wallet dto is)
  handles Routes.remove_wallet given valid asks =
      let (p₁, (p₂, done)) = accepts-AllPass pipe wallet_remove_rules body (valid _ refl) in
      let (name, e₁) = string_lem _ p₁ in
      let (key, e₂) = string_lem _ p₂ in
      (_, removes_wallet (record { wallet_name = name; wallet_key = key }) e₁ e₂)
  handles Routes.register_with_tdc ((id, e), done) valid asks =
      let (p₁, (p₂, passed)) = accepts-AllPass pipe register_tdc_rules body (valid _ refl) in
      let (prefix, e₁) = string_lem _ p₁ in
      let (endpoint, e₂) = string_lem _ p₂ in
      (_, registers_with_tdc id (record { tdc_prefix = prefix; tdc_endpoint = endpoint }) e e₁ e₂)
  handles Routes.register_onetime_key ((id, e), done) valid asks =
      let (dto, is) = one_time_key (valid _ refl) in (_, registers_onetime_key id dto e is)
  handles Routes.get_one_time_key_ids ((id, e), done) valid asks =
      let (dto, is) = one_time_key (valid _ refl) in (_, gets_ids id dto e is)

-- A request that takes a route, with a body that the pipe lets through where the route has one, is an
-- operation of the agency: the parameters of the path and the properties of the body that the method
-- reads are there, with their types. Left out are the health endpoints, and the bodies without a text
-- for the id of the agent at the two endpoints that are not validated.
pub routes-Accepted :
    (express : Express) (pipe : ValidationPipe) (request : Incoming) (r : Route)
    → express.dispatch routes request.verb request.parts ≡ some r
    → ((rules : Rules)
        → body_rules r.endpoint ≡ some rules
        → pipe.accepts rules request.body ≡ true)
    → Asks r.endpoint request.body
    → (op : Operation) × Accepted express pipe request op
routes-Accepted express pipe request r taken valid asks =
    let (among, a) = express.takes routes request.verb request.parts r taken in
    let covered = (and_true (same_verb r.verb request.verb) _ a).1 in
    let given =
      param_of-Given express.same (needs r.endpoint) r.path request.parts covered
        (all_have-Among routes r all_have-routes among) in
    let (op, handled) =
      handles pipe (λ name. param_of name r.path request.parts) request.body r.endpoint given valid
        asks in
    (op, record { route = r; taken = taken; valid = valid; handled = handled })
