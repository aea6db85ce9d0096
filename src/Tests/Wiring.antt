-- ===== src/Tests/Wiring.antt =====
-- Libraries that export just what the program asks them for.
use aries_guardianship_agenc.Base.{
  String, true, List, [], ◌∷◌, refl, inl, inr, str_eq, if◌then◌else◌,
}
use aries_guardianship_agenc.Wiring.{transaction_module, transaction_service}
use aries_guardianship_agenc.Wiring.Visible.{Libraries, Visible}
use aries_guardianship_agenc.Wiring.Resolved.{modules-Visible}

abbrev exports_of : String → List String
exports_of name =
    if str_eq name "ProtocolHttpModule"
    then "ProtocolHttpService" ∷ []
    else if str_eq name "CacheModule"
    then "CACHE_MANAGER" ∷ []
    else if str_eq name "AgentModule"
    then "AgentService" ∷ []
    else if str_eq name "TypeOrmModule"
    then "Connection" ∷ []
    else []

abbrev libraries : Libraries
libraries = record {
  exports_of = exports_of;
  token_of = λ name. "AGENT_GOVERNANCE";
  is_global = λ name. true;
  http = inl refl;
  cache = inl refl;
  agents = inl refl;
  connection = inl refl;
  database = refl;
  governance = refl;
}

-- The service of the transactions gets the agent service.
modules-Visible_example : Visible libraries transaction_module "AgentService"
modules-Visible_example =
    modules-Visible libraries transaction_module transaction_service "AgentService"
      (inr (inr (inr (inr (inr (inl refl)))))) (inr (inr (inl refl))) (inr (inr (inl refl)))
