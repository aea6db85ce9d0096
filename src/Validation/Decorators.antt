-- ===== src/Validation/Decorators.antt =====
-- What a property may be by its decorators.
use aries_guardianship_agenc.Base.{String, Bool, true, List, [], ◌∷◌, ◌≡◌, refl, inl, inr, Among}
use aries_guardianship_agenc.Js.Number.{Num, IsFinite}
use aries_guardianship_agenc.Js.Regex.{Regex, found_in}
use aries_guardianship_agenc.Js.Value.{
  Value, Fields, lookup_field, undefined, null, bool, num, str, Optional, absent, nothing, given,
}
use aries_guardianship_agenc.Validation.{
  ValidationPipe, Rules, Rule, is_string, is_number, is_boolean, is_optional, matches, Passes,
  Means,
}

-- A property of a class as a value.
abbrev pub optional_value : {A : Type 0} → (A → Value) → Optional A → Value
optional_value of absent = undefined
optional_value of nothing = null
optional_value of (given a) = of a

pub string_lem : (v : Value) → Passes (is_string ∷ []) v → (s : String) × (v ≡ str s)
string_lem v (inl (inl e, missing)) = absurd (cc e)
string_lem v (inl (inr none, missing)) = absurd none
string_lem v (inr means) = means is_string (inl refl)

optional_lem :
    {A : Type 0} (of : A → Value) (rule : Rule) (v : Value)
    → (Means rule v → (a : A) × (v ≡ of a))
    → Passes (is_optional ∷ rule ∷ []) v
    → (o : Optional A) × (v ≡ optional_value of o)
optional_lem of rule v read (inl (among, inl e)) = (absent, e)
optional_lem of rule v read (inl (among, inr e)) = (nothing, e)
optional_lem of rule v read (inr means) =
    let (a, e) = read (means rule (inr (inl refl))) in (given a, e)

pub optional_string_lem :
    (v : Value)
    → Passes (is_optional ∷ is_string ∷ []) v
    → (o : Optional String) × (v ≡ optional_value str o)
optional_string_lem v = optional_lem str is_string v (λ m. m)

pub optional_boolean_lem :
    (v : Value)
    → Passes (is_optional ∷ is_boolean ∷ []) v
    → (o : Optional Bool) × (v ≡ optional_value bool o)
optional_boolean_lem v = optional_lem bool is_boolean v (λ m. m)

-- A number that is neither `NaN` nor infinite.
abbrev pub FiniteNum : Type 0
FiniteNum = (n : Num) × IsFinite n

abbrev pub finite : FiniteNum → Value
finite (n, is_finite) = num n

pub optional_number_lem :
    (v : Value)
    → Passes (is_optional ∷ is_number ∷ []) v
    → (o : Optional FiniteNum) × (v ≡ optional_value finite o)
optional_number_lem v = optional_lem finite is_number v (λ m. ((m.0, m.2), m.1))

pub pattern_lem :
    (r : Regex) (v : Value)
    → Passes (is_string ∷ matches r ∷ []) v
    → (s : String) × (v ≡ str s) × (found_in r s ≡ true)
pattern_lem r v (inl (inl e, missing)) = absurd (cc e)
pattern_lem r v (inl (inr (inl e), missing)) = absurd (cc e)
pattern_lem r v (inl (inr (inr none), missing)) = absurd none
pattern_lem r v (inr means) = means (matches r) (inr (inl refl))

-- Every property passes.
abbrev pub AllPass : Rules → Fields → Type 0
AllPass [] body = Unit
AllPass ((name, rs) ∷ rules) body = Passes rs (lookup_field name body) × AllPass rules body

pub accepts-AllPass :
    (pipe : ValidationPipe) (rules : Rules) (body : Fields)
    → pipe.accepts rules body ≡ true
    → AllPass rules body
accepts-AllPass pipe rules body valid =
    all rules (λ name rs among. pipe.accepts_lem rules body name rs valid among)
  where
    all :
        (some_rules : Rules)
        → ((name : String) (rs : List Rule)
            → Among (name, rs) some_rules
            → Passes rs (lookup_field name body))
        → AllPass some_rules body
    all [] pass = tt
    all ((name, rs) ∷ rest) pass = (pass name rs (inl refl), all rest (λ n r a. pass n r (inr a)))
