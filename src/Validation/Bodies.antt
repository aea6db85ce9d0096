-- ===== src/Validation/Bodies.antt =====
-- The bodies that the validation lets through, as the records of the services.
use aries_guardianship_agenc.Base.{true, ◌≡◌, refl, ◌∙◌}
use aries_guardianship_agenc.Js.Number.{Num, IsFinite}
use aries_guardianship_agenc.Js.Value.{
  Fields, bool, num, str, Optional, absent, nothing, given, lookup_field,
}
use aries_guardianship_agenc.Config.{AgentCreateDto}
use aries_guardianship_agenc.Config.AgentId.{agent_id_pattern, is_agent_id}
use aries_guardianship_agenc.Multitenant.{WalletCreateDto}
use aries_guardianship_agenc.Validation.{ValidationPipe, agent_create_rules, wallet_create_rules}
use aries_guardianship_agenc.Validation.Decorators.{
  optional_value, FiniteNum, finite, string_lem, optional_string_lem, optional_boolean_lem,
  optional_number_lem, pattern_lem, accepts-AllPass,
}

abbrev numbers : Optional FiniteNum → Optional Num
numbers absent = absent
numbers nothing = nothing
numbers (given (n, is_finite)) = given n

-- The number is left out, `null`, or neither `NaN` nor infinite.
abbrev pub AnyIsFinite : Optional Num → Type 0
AnyIsFinite absent = Unit
AnyIsFinite nothing = Unit
AnyIsFinite (given n) = IsFinite n

numbers_lem : (o : Optional FiniteNum) → optional_value finite o ≡ optional_value num (numbers o)
numbers_lem absent = refl
numbers_lem nothing = refl
numbers_lem (given n) = refl

numbers-AnyIsFinite : (o : Optional FiniteNum) → AnyIsFinite (numbers o)
numbers-AnyIsFinite absent = tt
numbers-AnyIsFinite nothing = tt
numbers-AnyIsFinite (given (n, is_finite)) = is_finite

-- The record has what the body gives for each property of the class.
pub record AgentBody (body : Fields) (dto : AgentCreateDto) : Type 0 where
  pub wallet_id_lem : lookup_field "walletId" body ≡ str dto.wallet_id
  pub wallet_key_lem : lookup_field "walletKey" body ≡ str dto.wallet_key
  pub admin_api_key_lem : lookup_field "adminApiKey" body ≡ str dto.admin_api_key
  pub agent_id_lem : lookup_field "agentId" body ≡ str dto.agent_id
  pub seed_lem : lookup_field "seed" body ≡ optional_value str dto.seed
  pub ttl_lem : lookup_field "ttl" body ≡ optional_value num dto.ttl
  pub controller_url_lem : lookup_field "controllerUrl" body ≡ optional_value str dto.controller_url
  pub label_lem : lookup_field "label" body ≡ optional_value str dto.label
  pub auto_connect_lem : lookup_field "autoConnect" body ≡ optional_value bool dto.auto_connect
  pub admin_api_port_lem : lookup_field "adminApiPort" body ≡ optional_value num dto.admin_api_port
  pub use_tails_server_lem :
      lookup_field "useTailsServer" body ≡ optional_value bool dto.use_tails_server

pub record WalletBody (body : Fields) (dto : WalletCreateDto) : Type 0 where
  pub wallet_name_lem : lookup_field "walletName" body ≡ str dto.wallet_name
  pub wallet_key_lem : lookup_field "walletKey" body ≡ str dto.wallet_key
  pub label_lem : lookup_field "label" body ≡ optional_value str dto.label
  pub ttl_lem : lookup_field "ttl" body ≡ optional_value num dto.ttl
  pub controller_url_lem : lookup_field "controllerUrl" body ≡ optional_value str dto.controller_url
  pub auto_connect_lem : lookup_field "autoConnect" body ≡ optional_value bool dto.auto_connect
  pub return_token_lem : lookup_field "returnToken" body ≡ optional_value bool dto.return_token

module _ (pipe : ValidationPipe) (body : Fields) where
  -- A body of POST v1/manager that the validation lets through is that of a record of the model: each
  -- property of the class has the type that it is read with. Its id matches the pattern, and its ttl
  -- and its port are no `NaN` and not infinite.
  pub agent_create_rules-AgentBody :
      pipe.accepts agent_create_rules body ≡ true
      → (dto : AgentCreateDto) × AgentBody body dto
        × (is_agent_id dto.agent_id ≡ true)
        × AnyIsFinite dto.ttl
        × AnyIsFinite dto.admin_api_port
  unfolding is_agent_id
  agent_create_rules-AgentBody valid =
      let (p₁, (p₂, (p₃, (p₄, (p₅, (p₆, (p₇, (p₈, (p₉, (p₁₀, (p₁₁, done))))))))))) =
        accepts-AllPass pipe agent_create_rules body valid in
      let (wallet_id, e₁) = string_lem _ p₁ in
      let (wallet_key, e₂) = string_lem _ p₂ in
      let (admin_api_key, e₃) = string_lem _ p₃ in
      let (agent_id, e₄, matched) = pattern_lem agent_id_pattern _ p₄ in
      let (seed, e₅) = optional_string_lem _ p₅ in
      let (ttl, e₆) = optional_number_lem _ p₆ in
      let (controller_url, e₇) = optional_string_lem _ p₇ in
      let (label, e₈) = optional_string_lem _ p₈ in
      let (auto_connect, e₉) = optional_boolean_lem _ p₉ in
      let (admin_api_port, e₁₀) = optional_number_lem _ p₁₀ in
      let (use_tails_server, e₁₁) = optional_boolean_lem _ p₁₁ in
      (
        record {
          wallet_id = wallet_id;
          wallet_key = wallet_key;
          admin_api_key = admin_api_key;
          agent_id = agent_id;
          seed = seed;
          ttl = numbers ttl;
          controller_url = controller_url;
          label = label;
          auto_connect = auto_connect;
          admin_api_port = numbers admin_api_port;
          use_tails_server = use_tails_server;
        },
        record {
          wallet_id_lem = e₁;
          wallet_key_lem = e₂;
          admin_api_key_lem = e₃;
          agent_id_lem = e₄;
          seed_lem = e₅;
          ttl_lem = e₆ ∙ numbers_lem ttl;
          controller_url_lem = e₇;
          label_lem = e₈;
          auto_connect_lem = e₉;
          admin_api_port_lem = e₁₀ ∙ numbers_lem admin_api_port;
          use_tails_server_lem = e₁₁;
        },
        matched,
        numbers-AnyIsFinite ttl,
        numbers-AnyIsFinite admin_api_port,
      )

  -- A body of POST v2/multitenant that the validation lets through is that of a record of the model,
  -- and its ttl is no `NaN` and not infinite.
  pub wallet_create_rules-WalletBody :
      pipe.accepts wallet_create_rules body ≡ true
      → (dto : WalletCreateDto) × WalletBody body dto × AnyIsFinite dto.ttl
  wallet_create_rules-WalletBody valid =
      let (p₁, (p₂, (p₃, (p₄, (p₅, (p₆, (p₇, done))))))) =
        accepts-AllPass pipe wallet_create_rules body valid in
      let (wallet_name, e₁) = string_lem _ p₁ in
      let (wallet_key, e₂) = string_lem _ p₂ in
      let (label, e₃) = optional_string_lem _ p₃ in
      let (ttl, e₄) = optional_number_lem _ p₄ in
      let (controller_url, e₅) = optional_string_lem _ p₅ in
      let (auto_connect, e₆) = optional_boolean_lem _ p₆ in
      let (return_token, e₇) = optional_boolean_lem _ p₇ in
      (
        record {
          wallet_name = wallet_name;
          wallet_key = wallet_key;
          label = label;
          ttl = numbers ttl;
          controller_url = controller_url;
          auto_connect = auto_connect;
          return_token = return_token;
        },
        record {
          wallet_name_lem = e₁;
          wallet_key_lem = e₂;
          label_lem = e₃;
          ttl_lem = e₄ ∙ numbers_lem ttl;
          controller_url_lem = e₅;
          auto_connect_lem = e₆;
          return_token_lem = e₇;
        },
        numbers-AnyIsFinite ttl,
      )
