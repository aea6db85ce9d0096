-- ===== src/Validation.antt =====
-- The rules by decorators for the bodies of requests, src/manager/dtos, src/multitenant/dtos and
-- src/transactions/dtos. class-validator and the pipe of protocol-common, which check them, are outside
-- the program.
pub mod Bodies
pub mod Decorators
use aries_guardianship_agenc.Base.{String, Bool, true, List, [], ◌∷◌, ◌≡◌, ◌⊎◌, Among}
use aries_guardianship_agenc.Js.Number.{Num, IsFinite}
use aries_guardianship_agenc.Js.Regex.{Regex, found_in}
use aries_guardianship_agenc.Js.Value.{Value, Fields, undefined, null, bool, num, str, lookup_field}
use aries_guardianship_agenc.Config.AgentId.{agent_id_pattern}

pub data Rule : Type 0 where
  is_string is_number is_boolean is_optional : Rule
  matches : Regex → Rule

-- The properties of a class, with their decorators.
abbrev pub Rules : Type 0
Rules = List (String × List Rule)

abbrev pub agent_create_rules : Rules
agent_create_rules =
    ("walletId", is_string ∷ [])
    ∷ ("walletKey", is_string ∷ [])
    ∷ ("adminApiKey", is_string ∷ [])
    ∷ ("agentId", is_string ∷ matches agent_id_pattern ∷ [])
    ∷ ("seed", is_optional ∷ is_string ∷ [])
    ∷ ("ttl", is_optional ∷ is_number ∷ [])
    ∷ ("controllerUrl", is_optional ∷ is_string ∷ [])
    ∷ ("label", is_optional ∷ is_string ∷ [])
    ∷ ("autoConnect", is_optional ∷ is_boolean ∷ [])
    ∷ ("adminApiPort", is_optional ∷ is_number ∷ [])
    ∷ ("useTailsServer", is_optional ∷ is_boolean ∷ [])
    ∷ []

abbrev pub wallet_create_rules : Rules
wallet_create_rules =
    ("walletName", is_string ∷ [])
    ∷ ("walletKey", is_string ∷ [])
    ∷ ("label", is_optional ∷ is_string ∷ [])
    ∷ ("ttl", is_optional ∷ is_number ∷ [])
    ∷ ("controllerUrl", is_optional ∷ is_string ∷ [])
    ∷ ("autoConnect", is_optional ∷ is_boolean ∷ [])
    ∷ ("returnToken", is_optional ∷ is_boolean ∷ [])
    ∷ []

abbrev pub wallet_remove_rules : Rules
wallet_remove_rules = ("walletName", is_string ∷ []) ∷ ("walletKey", is_string ∷ []) ∷ []

abbrev pub register_tdc_rules : Rules
register_tdc_rules = ("tdcPrefix", is_string ∷ []) ∷ ("tdcEndpoint", is_string ∷ []) ∷ []

abbrev pub register_one_time_key_rules : Rules
register_one_time_key_rules =
    ("connectionId", is_string ∷ [])
    ∷ ("tdcEndpoint", is_string ∷ [])
    ∷ ("oneTimeKey", is_string ∷ [])
    ∷ []

-- What class-validator documents of a value that a decorator accepts. A number is neither `NaN` nor
-- infinite, and may be a fraction.
abbrev pub Means : Rule → Value → Type 0
Means is_string v = (s : String) × (v ≡ str s)
Means is_number v = (n : Num) × (v ≡ num n) × IsFinite n
Means is_boolean v = (b : Bool) × (v ≡ bool b)
Means is_optional v = Unit
Means (matches r) v = (s : String) × (v ≡ str s) × (found_in r s ≡ true)

-- The other decorators are not looked at for an optional property that is `undefined` or `null`.
abbrev pub Passes : List Rule → Value → Type 0
Passes rs v =
    (Among is_optional rs × ((v ≡ undefined) ⊎ (v ≡ null))) ⊎ ((r : Rule) → Among r rs → Means r v)

pub record ValidationPipe : Type 0 where
  pub accepts : Rules → Fields → Bool
  pub accepts_lem :
      (rules : Rules) (body : Fields) (name : String) (rs : List Rule)
      → accepts rules body ≡ true
      → Among (name, rs) rules
      → Passes rs (lookup_field name body)
