-- ===== src/Agency/Http.antt =====
-- The requests over HTTP that become operations: the methods of the controllers with their `@Param`
-- and `@Body` parameters, and the pipe that validates some of the bodies.
pub mod Accepts
pub mod Origins
use aries_guardianship_agenc.Base.{
  String, Bool, true, false, Option, none, some, List, [], ◌∷◌, ◌≡◌, ◌⊎◌, if◌then◌else◌, str_eq,
  Among,
}
use aries_guardianship_agenc.Js.Value.{Fields, obj, str, lookup_field}
use aries_guardianship_agenc.Config.{AgentCreateDto}
use aries_guardianship_agenc.Manager.{StopAgentBody, ConnectAgentBody}
use aries_guardianship_agenc.Multitenant.{WalletCreateDto, WalletRemoveDto}
use aries_guardianship_agenc.Transactions.Service.{RegisterTdcDto, RegisterOneTimeKeyDto}
use aries_guardianship_agenc.Routes
use aries_guardianship_agenc.Routes.{Verb, Segment, literal, param, Route, Endpoint, routes}
use aries_guardianship_agenc.Routes.Dispatch.{Express}
use aries_guardianship_agenc.Validation.{
  Rules, ValidationPipe, agent_create_rules, wallet_create_rules, wallet_remove_rules,
  register_tdc_rules, register_one_time_key_rules,
}
use aries_guardianship_agenc.Validation.Bodies.{AgentBody, WalletBody}
use aries_guardianship_agenc.Agency
use aries_guardianship_agenc.Agency.{Operation}

pub record Incoming : Type 0 where
  pub verb : Verb
  pub parts : List String
  pub body : Fields

-- `@Param(name)`
abbrev pub param_of : String → List Segment → List String → Option String
param_of name (param n ∷ path) (s ∷ parts) =
    let rest = param_of name path parts in if str_eq n name then some s else rest
param_of name (literal a ∷ path) (s ∷ parts) = param_of name path parts
param_of _ _ _ = none

-- `@Body(new ProtocolValidationPipe())`, with the class of the body; the other bodies are `any`.
abbrev pub body_rules : Endpoint → Option Rules
body_rules Routes.create_agent = some agent_create_rules
body_rules Routes.create_wallet = some wallet_create_rules
body_rules Routes.remove_wallet = some wallet_remove_rules
body_rules Routes.register_with_tdc = some register_tdc_rules
body_rules Routes.register_onetime_key = some register_one_time_key_rules
body_rules Routes.get_one_time_key_ids = some register_one_time_key_rules
body_rules _ = none

pub record OneTimeKeyBody (body : Fields) (dto : RegisterOneTimeKeyDto) : Type 0 where
  pub connection_id_lem : lookup_field "connectionId" body ≡ str dto.connection_id
  pub tdc_endpoint_lem : lookup_field "tdcEndpoint" body ≡ str dto.tdc_endpoint
  pub one_time_key_lem : lookup_field "oneTimeKey" body ≡ str dto.one_time_key

-- The operation that a method of a controller asks for, by the parameters of the path and the body.
pub data Handles (params : String → Option String) (body : Fields)
    : Endpoint → Operation → Type 0 where
  creates_agent :
      (dto : AgentCreateDto)
      → AgentBody body dto
      → Handles params body Routes.create_agent (Agency.create_agent dto)
  stops_agent :
      (b : StopAgentBody)
      → lookup_field "agentId" body ≡ str b.agent_id
      → Handles params body Routes.stop_agent (Agency.stop_agent b)
  connects_agent :
      (b : ConnectAgentBody)
      → lookup_field "agentId" body ≡ str b.agent_id
      → b.admin_api_key ≡ lookup_field "adminApiKey" body
      → Handles params body Routes.connect_agent (Agency.connect_agent b)
  gets_controller :
      (id route subroute : String)
      → params "agentId" ≡ some id
      → params "route" ≡ some route
      → params "subroute" ≡ some subroute
      → Handles params body Routes.get_controller (Agency.webhook id route subroute (obj body))
  posts_controller :
      (id route subroute : String)
      → params "agentId" ≡ some id
      → params "route" ≡ some route
      → params "subroute" ≡ some subroute
      → Handles params body Routes.post_controller (Agency.webhook id route subroute (obj body))
  creates_wallet :
      (dto : WalletCreateDto)
      → WalletBody body dto
      → Handles params body Routes.create_wallet (Agency.create_wallet dto)
  removes_wallet :
      (dto : WalletRemoveDto)
      → lookup_field "walletName" body ≡ str dto.wallet_name
      → lookup_field "walletKey" body ≡ str dto.wallet_key
      → Handles params body Routes.remove_wallet (Agency.remove_wallet dto)
  registers_with_tdc :
      (id : String) (dto : RegisterTdcDto)
      → params "agentId" ≡ some id
      → lookup_field "tdcPrefix" body ≡ str dto.tdc_prefix
      → lookup_field "tdcEndpoint" body ≡ str dto.tdc_endpoint
      → Handles params body Routes.register_with_tdc (Agency.register id dto)
  registers_onetime_key :
      (id : String) (dto : RegisterOneTimeKeyDto)
      → params "agentId" ≡ some id
      → OneTimeKeyBody body dto
      → Handles params body Routes.register_onetime_key (Agency.register_onetime_key id dto)
  gets_ids :
      (id : String) (dto : RegisterOneTimeKeyDto)
      → params "agentId" ≡ some id
      → OneTimeKeyBody body dto
      → Handles params body Routes.get_one_time_key_ids (Agency.list_ids id dto)

-- A request that the server gives to a method of a controller, with a body that the pipe lets through.
pub record Accepted (express : Express) (pipe : ValidationPipe) (request : Incoming)
    (op : Operation) : Type 0 where
  pub route : Route
  pub taken : express.dispatch routes request.verb request.parts ≡ some route
  pub valid :
      (rules : Rules)
      → body_rules route.endpoint ≡ some rules
      → pipe.accepts rules request.body ≡ true
  pub handled :
      Handles (λ name. param_of name route.path request.parts) request.body route.endpoint op
