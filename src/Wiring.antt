-- ===== src/Wiring.antt =====
-- The modules of Nest (src/**/*.module.ts) and the constructors of the classes that they bring in.
-- Nest makes an instance of each class of a module, with the providers that the module can see. What
-- the modules of the libraries export is a parameter.
pub mod Resolved
pub mod Visible
use aries_guardianship_agenc.Base.{
  String, Bool, true, false, ◌||◌, ◌&&◌, List, [], ◌∷◌, ◌++◌, str_eq, if◌then◌else◌,
}
use aries_guardianship_agenc.Routes.{
  Route, app_routes, manager_routes, controller_routes, multitenant_routes, transaction_routes,
}

-- A class, with the tokens that its constructor asks for and the routes that its methods have.
pub record Class : Type 0 where
  pub name : String
  pub dependencies : List String
  pub routes : List Route

abbrev pub class : String → List String → Class
class name dependencies = record { name = name; dependencies = dependencies; routes = [] }

abbrev pub app_service : Class
app_service = class "AppService" []

abbrev pub app_controller : Class
app_controller = record (class "AppController" ("AppService" ∷ [])) { routes = app_routes }

abbrev pub agent_manager_service : Class
agent_manager_service = class "AgentManagerService" ("ProtocolHttpService" ∷ "CACHE_MANAGER" ∷ [])

abbrev pub agent_manager_controller : Class
agent_manager_controller = record (class "AgentManagerController" ("AgentManagerService" ∷ [])) {
  routes = manager_routes;
}

abbrev pub multitenant_service : Class
multitenant_service = class "MultitenantService" ("ProtocolHttpService" ∷ "CACHE_MANAGER" ∷ [])

abbrev pub multitenant_controller : Class
multitenant_controller = record (class "MultitenantController" ("MultitenantService" ∷ [])) {
  routes = multitenant_routes;
}

abbrev pub agent_controller_service : Class
agent_controller_service =
    class "AgentControllerService"
      ("ProtocolHttpService" ∷ "CACHE_MANAGER" ∷ "AGENT_GOVERNANCE" ∷ [])

abbrev pub agent_controller_controller : Class
agent_controller_controller =
    record (class "AgentControllerController" ("AgentControllerService" ∷ [])) {
      routes = controller_routes;
    }

abbrev pub agent_router_service : Class
agent_router_service = class "AgentRouterService" []

abbrev pub agent_router_controller : Class
agent_router_controller = class "AgentRouterController" ("AgentRouterService" ∷ [])

abbrev pub data_service : Class
data_service = class "DataService" ("Connection" ∷ [])

abbrev pub transaction_message_response_factory : Class
transaction_message_response_factory =
    class "TransactionMessageResponseFactory" ("DataService" ∷ "ProtocolHttpService" ∷ [])

-- The constructor also registers the handler of basic messages at the governance, from which the
-- operation `basic_message` of Agency comes.
abbrev pub transaction_service : Class
transaction_service = class "TransactionService" (
    "AGENT_GOVERNANCE" ∷ "CACHE_MANAGER" ∷ "AgentService" ∷ "DataService"
    ∷ "TransactionMessageResponseFactory" ∷ "ProtocolHttpService" ∷ [])

abbrev pub transaction_controller : Class
transaction_controller = record (class "TransactionController" ("TransactionService" ∷ [])) {
  routes = transaction_routes;
}

-- A provider is a class of the program, or a name of a library's.
pub data Provider : Type 0 where
  own : Class → Provider
  outside : String → Provider

-- `needs`: the constructor of the module's own class.
pub record Module : Type 0 where
  pub name : String
  pub imports : List String
  pub controllers : List Class
  pub providers : List Provider
  pub exports : List String
  pub is_global : Bool
  pub needs : List String

abbrev pub nothing_else : Module
nothing_else = record {
  name = "";
  imports = [];
  controllers = [];
  providers = [];
  exports = [];
  is_global = false;
  needs = [];
}

abbrev pub global_cache_module : Module
global_cache_module = record nothing_else {
  name = "GlobalCacheModule";
  imports = "CacheModule" ∷ [];
  exports = "CacheModule" ∷ [];
  is_global = true;
}

abbrev pub agent_manager_module : Module
agent_manager_module = record nothing_else {
  name = "AgentManagerModule";
  imports = "GlobalCacheModule" ∷ "ProtocolHttpModule" ∷ [];
  controllers = agent_manager_controller ∷ [];
  providers = own agent_manager_service ∷ [];
}

abbrev pub agent_router_module : Module
agent_router_module = record nothing_else {
  name = "AgentRouterModule";
  imports = "GlobalCacheModule" ∷ [];
  controllers = agent_router_controller ∷ [];
  providers = own agent_router_service ∷ [];
  needs = "AgentRouterService" ∷ [];
}

abbrev pub agent_controller_module : Module
agent_controller_module = record nothing_else {
  name = "AgentControllerModule";
  imports = "ProtocolHttpModule" ∷ "GlobalCacheModule" ∷ [];
  controllers = agent_controller_controller ∷ [];
  providers = own agent_controller_service ∷ outside "AgentGovernanceFactory" ∷ [];
}

abbrev pub multitenant_module : Module
multitenant_module = record nothing_else {
  name = "MultitenantModule";
  imports = "GlobalCacheModule" ∷ "ProtocolHttpModule" ∷ [];
  controllers = multitenant_controller ∷ [];
  providers = own multitenant_service ∷ [];
}

abbrev pub transaction_module : Module
transaction_module = record nothing_else {
  name = "TransactionModule";
  imports = "AgentModule" ∷ "ProtocolHttpModule" ∷ "GlobalCacheModule" ∷ [];
  controllers = transaction_controller ∷ [];
  providers =
      outside "AgentGovernanceFactory"
      ∷ own transaction_service
      ∷ own data_service
      ∷ own transaction_message_response_factory
      ∷ [];
}

abbrev pub persistence_module : Module
persistence_module = record nothing_else {
  name = "PersistenceModule";
  imports = "DataService" ∷ [];
  providers = own data_service ∷ [];
  exports = "DataService" ∷ [];
}

abbrev pub transaction_messaging_module : Module
transaction_messaging_module = record nothing_else {
  name = "TransactionMessagingModule";
  imports = "AgentModule" ∷ "ProtocolHttpModule" ∷ [];
  providers = own transaction_message_response_factory ∷ own data_service ∷ [];
  exports = "TransactionMessageResponseFactory" ∷ [];
}

-- `OrmConfig()` is the root module of TypeORM.
abbrev pub app_module : Module
app_module = record nothing_else {
  name = "AppModule";
  imports =
      "ConfigModule" ∷ "TypeOrmModule" ∷ "ProtocolLoggerModule" ∷ "AgentManagerModule"
      ∷ "AgentRouterModule" ∷ "AgentControllerModule" ∷ "MultitenantModule" ∷ "TransactionModule"
      ∷ "PersistenceModule" ∷ "TransactionMessagingModule" ∷ [];
  controllers = app_controller ∷ [];
  providers = own app_service ∷ outside "LoggingInterceptor" ∷ [];
}

-- PersistenceModule imports the service as if it were a module: one with nothing declared, of which
-- Nest makes an instance.
abbrev pub data_service_module : Module
data_service_module = record nothing_else {
  name = data_service.name;
  needs = data_service.dependencies;
}

-- AppModule and the modules that it imports, and what they import.
abbrev pub modules : List Module
modules =
    app_module ∷ agent_manager_module ∷ agent_router_module ∷ agent_controller_module
    ∷ multitenant_module ∷ transaction_module ∷ persistence_module ∷ transaction_messaging_module
    ∷ global_cache_module ∷ data_service_module ∷ []
