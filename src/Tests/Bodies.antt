-- ===== src/Tests/Bodies.antt =====
-- A pipe that checks the rules, and two bodies that it lets through.
use aries_guardianship_agenc.Base.{
  and_true, String, Bool, true, false, ◌&&◌, List, [], ◌∷◌, ◌≡◌, refl, sym, ◌⊎◌, inl, inr, Among,
  Bool-cases, if◌then◌else◌,
}
use mathlib.Core.Path.{subst}
use aries_guardianship_agenc.Js.Number.{pos, fraction, int, nat}
use aries_guardianship_agenc.Js.Regex.{found_in}
use aries_guardianship_agenc.Js.Value.{
  Value, Fields, fields, undefined, null, bool, num, str, lookup_field,
}
use aries_guardianship_agenc.Config.{AgentCreateDto}
use aries_guardianship_agenc.Config.AgentId.{is_agent_id, agent_id_pattern}
use aries_guardianship_agenc.Validation.{
  ValidationPipe, Rule, Rules, Means, Passes, is_string, is_number, is_boolean, is_optional,
  matches, agent_create_rules, wallet_create_rules,
}
use aries_guardianship_agenc.Validation.Bodies.{
  AgentBody, AnyIsFinite, agent_create_rules-AgentBody,
}

abbrev pub holds : Rule → Value → Bool
holds is_string (str s) = true
holds is_number (num (int z)) = true
holds is_number (num (fraction z p d)) = true
holds is_boolean (bool b) = true
holds is_optional v = true
holds (matches r) (str s) = found_in r s
holds _ _ = false

holds-Means : (r : Rule) (v : Value) → holds r v ≡ true → Means r v
holds-Means is_string (str s) h = (s, refl)
holds-Means is_number (num (int z)) h = (int z, refl, (λ e. cc e, λ e. cc e))
holds-Means is_number (num (fraction z p d)) h = (fraction z p d, refl, (λ e. cc e, λ e. cc e))
holds-Means is_boolean (bool b) h = (b, refl)
holds-Means is_optional v h = tt
holds-Means (matches r) (str s) h = (s, refl, h)
holds-Means _ _ h = absurd (cc h)

abbrev pub optional : List Rule → Bool
optional [] = false
optional (is_optional ∷ rs) = true
optional (r ∷ rs) = optional rs

abbrev pub missing : Value → Bool
missing undefined = true
missing null = true
missing v = false

abbrev pub all_hold : List Rule → Value → Bool
all_hold [] v = true
all_hold (r ∷ rs) v = holds r v && all_hold rs v

abbrev pub passes : List Rule → Value → Bool
passes rs v = if optional rs && missing v then true else all_hold rs v

abbrev pub accepts : Rules → Fields → Bool
accepts [] body = true
accepts ((name, rs) ∷ rules) body = passes rs (lookup_field name body) && accepts rules body

all_hold-Means :
    (rs : List Rule) (v : Value) → all_hold rs v ≡ true → (r : Rule) → Among r rs → Means r v
all_hold-Means [] v h r none = absurd none
all_hold-Means (q ∷ rs) v h r (inl e) =
    subst (λ x. Means x v) (sym e) (holds-Means q v (and_true (holds q v) _ h).0)
all_hold-Means (q ∷ rs) v h r (inr among) = all_hold-Means rs v (and_true (holds q v) _ h).1 r among

optional-Among : (rs : List Rule) → optional rs ≡ true → Among is_optional rs
optional-Among [] h = cc h
optional-Among (is_optional ∷ rs) h = inl refl
optional-Among (is_string ∷ rs) h = inr (optional-Among rs h)
optional-Among (is_number ∷ rs) h = inr (optional-Among rs h)
optional-Among (is_boolean ∷ rs) h = inr (optional-Among rs h)
optional-Among (matches r ∷ rs) h = inr (optional-Among rs h)

missing_lem : (v : Value) → missing v ≡ true → (v ≡ undefined) ⊎ (v ≡ null)
missing_lem undefined h = inl refl
missing_lem null h = inr refl
missing_lem _ h = absurd (cc h)

passes-Passes : (rs : List Rule) (v : Value) → passes rs v ≡ true → Passes rs v
passes-Passes rs v h = elim (Bool-cases (optional rs && missing v)) [
  | inl left ↦
      let (o, m) = and_true (optional rs) _ left in inl (optional-Among rs o, missing_lem v m)
  | inr given ↦ inr (all_hold-Means rs v (rw given at h))
]

pub accepts-Passes :
    (rules : Rules) (body : Fields) (name : String) (rs : List Rule)
    → accepts rules body ≡ true
    → Among (name, rs) rules
    → Passes rs (lookup_field name body)
accepts-Passes [] body name rs h none = absurd none
accepts-Passes ((n, r) ∷ rules) body name rs h (inl e) =
    subst (λ p. Passes p.1 (lookup_field p.0 body)) (sym e)
      (passes-Passes r (lookup_field n body) (and_true (passes r (lookup_field n body)) _ h).0)
accepts-Passes ((n, r) ∷ rules) body name rs h (inr among) =
    accepts-Passes rules body name rs (and_true (passes r (lookup_field n body)) _ h).1 among

abbrev pub pipe : ValidationPipe
pipe = record { accepts = accepts; accepts_lem = accepts-Passes }

abbrev pub agent_body : Fields
agent_body = fields (
    ("walletId", str "w")
    ∷ ("walletKey", str "k")
    ∷ ("adminApiKey", str "s")
    ∷ ("agentId", str "a1")
    ∷ ("seed", null)
    ∷ ("ttl", num (fraction (pos 59) 0 0))
    ∷ ("autoConnect", bool false)
    ∷ [])

pub agent_body_test : pipe.accepts agent_create_rules agent_body ≡ true
unfolding lookup_field found_in agent_id_pattern
agent_body_test = refl

agent_create_rules-AgentBody_example :
    (dto : AgentCreateDto) × AgentBody agent_body dto
    × (is_agent_id dto.agent_id ≡ true)
    × AnyIsFinite dto.ttl
    × AnyIsFinite dto.admin_api_port
agent_create_rules-AgentBody_example = agent_create_rules-AgentBody pipe agent_body agent_body_test

abbrev wallet_body : Fields
wallet_body = fields (("walletName", str "w") ∷ ("walletKey", str "k") ∷ ("ttl", num (nat 60)) ∷ [])

wallet_body_test : pipe.accepts wallet_create_rules wallet_body ≡ true
unfolding lookup_field
wallet_body_test = refl
