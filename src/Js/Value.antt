-- ===== src/Js/Value.antt =====
-- The values of a dynamic language: what a remote service answers and what a cache holds.
use aries_guardianship_agenc.Base.{
  String, Bool, true, false, List, [], ◌∷◌, Option, none, some, ◌≡◌, refl, str_eq, if◌then◌else◌,
  ◌⧺◌,
}
use aries_guardianship_agenc.Js.Number.{Num, is_truthy_num}
use aries_guardianship_agenc.Js.Number.Text.{print_num}

mutual
  pub data Value : Type 0 where
    undefined null : Value
    bool : Bool → Value
    num : Num → Value
    str : String → Value
    arr : Items → Value
    obj : Fields → Value

  pub data Items : Type 0 where
    nil : Items
    item : Value → Items → Items

  pub data Fields : Type 0 where
    end : Fields
    field : String → Value → Fields → Fields

-- Literals.
abbrev pub items : List Value → Items
items [] = nil
items (v ∷ vs) = item v (items vs)

abbrev pub fields : List (String × Value) → Fields
fields [] = end
fields ((k, v) ∷ rest) = field k v (fields rest)

-- `[v, …]`
abbrev pub array : List Value → Value
array vs = arr (items vs)

-- `{ k: v, … }`
abbrev pub object : List (String × Value) → Value
object kvs = obj (fields kvs)

-- An optional property: left out, `null`, or given.
pub data Optional {ℓ} (A : Type ℓ) : Type ℓ where
  absent nothing : Optional A
  given : A → Optional A

abbrev pub optional_text : Optional String → Value
optional_text absent = undefined
optional_text nothing = null
optional_text (given s) = str s

-- A variable of the environment, which is a text or `undefined`.
abbrev pub variable : Option String → Value
variable none = undefined
variable (some s) = str s

-- The text of `${v}` for such a variable.
abbrev pub variable_text : Option String → String
variable_text none = "undefined"
variable_text (some s) = s

abbrev pub is_empty : String → Bool
is_empty String.[] = true
is_empty (String.◌∷◌ c s) = false

-- Whether a value counts as true in a test.
abbrev pub is_truthy : Value → Bool
is_truthy undefined = false
is_truthy null = false
is_truthy (bool b) = b
is_truthy (num n) = is_truthy_num n
is_truthy (str String.[]) = false
is_truthy (str (String.◌∷◌ c s)) = true
is_truthy (arr vs) = true
is_truthy (obj fs) = true

-- `v === undefined`
abbrev pub is_undefined : Value → Bool
is_undefined undefined = true
is_undefined _ = false

-- `v === s` for a text `s`.
abbrev pub is_text : Value → String → Bool
is_text (str t) s = str_eq t s
is_text undefined s = false
is_text null s = false
is_text (bool b) s = false
is_text (num n) s = false
is_text (arr vs) s = false
is_text (obj fs) s = false

unfoldable pub lookup_field : String → Fields → Value
lookup_field k end = undefined
lookup_field k (field j v rest) = if str_eq j k then v else lookup_field k rest

-- The text of `${v}`: an array's items are joined by commas, `undefined` and `null` left empty.
unfoldable mutual
  pub to_text : Value → String
  to_text undefined = "undefined"
  to_text null = "null"
  to_text (bool true) = "true"
  to_text (bool false) = "false"
  to_text (num n) = print_num n
  to_text (str s) = s
  to_text (arr vs) = join vs
  to_text (obj fs) = "[object Object]"

  pub join : Items → String
  join nil = ""
  join (item v nil) = joined v
  join (item v (item w rest)) = joined v ⧺ "," ⧺ join (item w rest)

  pub joined : Value → String
  joined undefined = ""
  joined null = ""
  joined (bool true) = "true"
  joined (bool false) = "false"
  joined (num n) = print_num n
  joined (str s) = s
  joined (arr vs) = join vs
  joined (obj fs) = "[object Object]"

to_text_test : to_text (array (str "a" ∷ null ∷ bool true ∷ [])) ≡ "a,,true"
unfolding to_text
to_text_test = refl
