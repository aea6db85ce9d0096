-- ===== src/Js/Json.antt =====
-- `JSON.stringify` with no replacer and no indentation.
use aries_guardianship_agenc.Base.{
  ℕ, ◌/◌, ◌%◌, String, Char, code, Bool, true, false, [], ◌∷◌, ◌≡◌, refl, ◌==◌, ltb, if◌then◌else◌,
  ◌⧺◌,
}
use aries_guardianship_agenc.Js.Number.{Num, int, fraction, infinity, nan, nat}
use aries_guardianship_agenc.Js.Number.Text.{digit, print_num}
use aries_guardianship_agenc.Js.Value.{
  Value, undefined, null, bool, num, str, arr, obj, Items, nil, item, Fields, end, field, array,
  object,
}

hex_digit : ℕ → String
hex_digit n =
    if ltb n 10
    then digit n
    else if n == 10
    then "a"
    else if n == 11
    then "b"
    else if n == 12
    then "c"
    else if n == 13
    then "d"
    else if n == 14
    then "e"
    else "f"

escape : Char → String
unfolding hex_digit
escape c =
    let n = code c in
    if n == 34
    then "\\\""
    else if n == 92
    then "\\\\"
    else if n == 8
    then "\\b"
    else if n == 9
    then "\\t"
    else if n == 10
    then "\\n"
    else if n == 12
    then "\\f"
    else if n == 13
    then "\\r"
    else if ltb n 32
    then "\\u00" ⧺ hex_digit (n / 16) ⧺ hex_digit (n % 16)
    else String.◌∷◌ c String.[]

escaped : String → String
unfolding escape
escaped String.[] = ""
escaped (String.◌∷◌ c s) = escape c ⧺ escaped s

quote : String → String
unfolding escaped
quote s = "\"" ⧺ escaped s ⧺ "\""

finite : Num → String
finite (int z) = print_num (int z)
finite (fraction z p d) = print_num (fraction z p d)
finite infinity = "null"
finite nan = "null"

-- A comma, unless nothing follows.
abbrev followed : String → String
followed String.[] = ""
followed (String.◌∷◌ c s) = "," ⧺ String.◌∷◌ c s

abbrev is_omitted : Value → Bool
is_omitted undefined = true
is_omitted _ = false

-- A property that is `undefined` is left out, and such an item of an array is `null`.
unfoldable mutual
  unfolding quote finite

  pub stringify : Value → String
  stringify undefined = "null"
  stringify null = "null"
  stringify (bool true) = "true"
  stringify (bool false) = "false"
  stringify (num n) = finite n
  stringify (str s) = quote s
  stringify (arr vs) = "[" ⧺ stringify_items vs ⧺ "]"
  stringify (obj fs) = "{" ⧺ stringify_fields fs ⧺ "}"

  pub stringify_items : Items → String
  stringify_items nil = ""
  stringify_items (item v vs) = stringify v ⧺ followed (stringify_items vs)

  pub stringify_fields : Fields → String
  stringify_fields end = ""
  stringify_fields (field k v fs) =
      if is_omitted v
      then stringify_fields fs
      else quote k ⧺ ":" ⧺ stringify v ⧺ followed (stringify_fields fs)

stringify_test :
    stringify
      (object (("a", str "x\"y") ∷ ("b", undefined) ∷ ("c", array (num (nat 1) ∷ null ∷ [])) ∷ []))
    ≡ "{\"a\":\"x\\\"y\",\"c\":[1,null]}"
unfolding stringify print_num
stringify_test = refl
