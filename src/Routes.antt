-- ===== src/Routes.antt =====
-- The decorators of the controllers (src/**/*.controller.ts): which endpoint a request reaches. What
-- Nest and express do with them is outside the program.
pub mod Clash
pub mod Dispatch
use aries_guardianship_agenc.Base.{
  String, Bool, true, false, ◌&&◌, if◌then◌else◌, Option, none, some, List, [], ◌∷◌, ◌++◌, map,
}

pub data Verb : Type 0 where
  get post delete : Verb

abbrev pub same_verb : Verb → Verb → Bool
same_verb get get = true
same_verb post post = true
same_verb delete delete = true
same_verb _ _ = false

-- The methods of the controllers.
pub data Endpoint : Type 0 where
  base ping healthz get_genesis_file generate_stats_report : Endpoint
  create_agent stop_agent connect_agent : Endpoint
  get_controller post_controller : Endpoint
  create_wallet remove_wallet : Endpoint
  register_with_tdc register_onetime_key get_one_time_key_ids : Endpoint

pub data Segment : Type 0 where
  literal : String → Segment
  -- `:name`
  param : String → Segment

pub record Route : Type 0 where
  pub verb : Verb
  pub path : List Segment
  pub endpoint : Endpoint

abbrev pub route : Verb → List Segment → Endpoint → Route
route verb path endpoint = record { verb = verb; path = path; endpoint = endpoint }

-- `@Controller(prefix)`
abbrev pub controller : List Segment → List Route → List Route
controller prefix routes = map {A = Route} (λ r. record r { path = prefix ++ r.path }) routes

unfoldable pub app_routes : List Route
app_routes = controller [] (
    route get [] base
    ∷ route get (literal "ping" ∷ []) ping
    ∷ route get (literal "healthz" ∷ []) healthz
    ∷ route get (literal "genesis-file" ∷ []) get_genesis_file
    ∷ route get (literal "stats" ∷ []) generate_stats_report
    ∷ [])

unfoldable pub manager_routes : List Route
manager_routes = controller (literal "v1" ∷ literal "manager" ∷ []) (
    route post [] create_agent
    ∷ route delete [] stop_agent
    ∷ route post (literal "connect" ∷ []) connect_agent
    ∷ [])

-- ':agentId/:route/:subroute'
abbrev webhook_path : List Segment
webhook_path = param "agentId" ∷ param "route" ∷ param "subroute" ∷ []

unfoldable pub controller_routes : List Route
controller_routes =
    controller (literal "v1" ∷ literal "controller" ∷ [])
      (route get webhook_path get_controller ∷ route post webhook_path post_controller ∷ [])

-- Of the two `@Controller` decorators, the upper one is applied last, and sets the prefix.
unfoldable pub multitenant_routes : List Route
multitenant_routes =
    controller (literal "v2" ∷ literal "multitenant" ∷ [])
      (route post [] create_wallet ∷ route delete [] remove_wallet ∷ [])

unfoldable pub transaction_routes : List Route
transaction_routes = controller (literal "v2" ∷ literal "transaction" ∷ []) (
    route post (param "agentId" ∷ literal "register" ∷ []) register_with_tdc
    ∷ route post (param "agentId" ∷ literal "registerOnetimeKey" ∷ []) register_onetime_key
    ∷ route post (param "agentId" ∷ literal "ids" ∷ []) get_one_time_key_ids
    ∷ [])

-- The controllers of the modules that AppModule imports, and its own. That of the router has no
-- methods.
unfoldable pub routes : List Route
routes =
    app_routes
    ++ (manager_routes ++ (controller_routes ++ (multitenant_routes ++ transaction_routes)))

-- A request has a verb and the segments of its path, none of them empty. How a literal segment is
-- compared with one of a request is left open.
module _ (same : String → String → Bool) where
  abbrev pub covers : List Segment → List String → Bool
  covers [] [] = true
  covers (literal a ∷ path) (s ∷ parts) = same a s && covers path parts
  covers (param name ∷ path) (s ∷ parts) = covers path parts
  covers _ _ = false

  abbrev pub answers : Route → Verb → List String → Bool
  answers r verb parts = same_verb r.verb verb && covers r.path parts
