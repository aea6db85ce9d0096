-- ===== src/Multitenant/Taken.antt =====
-- How a name that is taken shows in the exception of a registration.
use aries_guardianship_agenc.Base.{String, true, ◌≡◌, ◌≢◌, refl, sym, ap, ◌∙◌, ◌↔◌, ◌⧺◌}
use aries_guardianship_agenc.Js.Regex.{Regex, seq, literal, some_of, found_in}
use aries_guardianship_agenc.Js.Regex.Meaning.{
  AllOf, Matches, found_in_iff, Matches-literal, Matches-some_of,
}
use aries_guardianship_agenc.Effects.{
  Thrown, ErrorCode, protocol, error, type_error, syntax_error, out_of_fuel, no_details,
  text_details, thrown_details, value_details,
}
use aries_guardianship_agenc.Multitenant.{
  is_not_newline, nothing_more, already_exists, is_already_registered,
}
use text.Mathlib.TextLemmas.{nil-append}
use mathlib.Core.Path.{subst}

-- The text has "Wallet with … already exists", with something in one line between.
abbrev pub SaysTaken : String → Type 0
SaysTaken s =
    (before : String) × (name : String) × (after : String) × (s
      ≡ before ⧺ "Wallet with " ⧺ name ⧺ " already exists" ⧺ after)
    × (name ≢ "")
    × AllOf is_not_newline name

abbrev end_part : Regex
end_part = literal " already exists" nothing_more

abbrev name_part : Regex
name_part = seq (some_of is_not_newline) end_part

name_part_iff :
    (s after : String)
    → Matches name_part s after
    → (name : String) × (rest : String) × (s ≡ name ⧺ " already exists" ⧺ rest)
      × (name ≢ "")
      × AllOf is_not_newline name
name_part_iff s after (v, some, lit) =
    let (name, e, filled, all) = (Matches-some_of is_not_newline s v).0 some in
    let (rest, e', many) = (Matches-literal " already exists" nothing_more v after).0 lit in
    (name, rest, e ∙ ap (λ x. name ⧺ x) e', filled, all)

name_part-from :
    (name rest : String)
    → name ≢ ""
    → AllOf is_not_newline name
    → Matches name_part (name ⧺ " already exists" ⧺ rest) rest
name_part-from name rest filled all =
    let ended : Matches end_part (" already exists" ⧺ rest) rest =
      (Matches-literal " already exists" nothing_more _ rest).1
        (rest, refl, ("", sym (nil-append rest), tt)) in
    (
      " already exists" ⧺ rest,
      (Matches-some_of is_not_newline _ _).1 (name, refl, filled, all),
      ended,
    )

SaysTaken-iff : (s : String) → (found_in already_exists s ≡ true) ↔ SaysTaken s
unfolding already_exists
SaysTaken-iff s =
    let (to, from) = found_in_iff (literal "Wallet with " name_part) s in
    (
      λ h.
          let (before, rest, after, e, m) = to h in
          let (u, e', m') = (Matches-literal "Wallet with " name_part rest after).0 m in
          let (name, w, e'', filled, all) = name_part_iff u after m' in
          (
            before,
            name,
            w,
            e ∙ ap (λ x. before ⧺ x) (e' ∙ ap (λ x. "Wallet with " ⧺ x) e''),
            filled,
            all,
          ),
      λ (before, name, after, e, filled, all). from (
        before,
        "Wallet with " ⧺ name ⧺ " already exists" ⧺ after,
        after,
        e,
        (Matches-literal "Wallet with " name_part _ after).1
            (name ⧺ " already exists" ⧺ after, refl, name_part-from name after filled all),
      ),
    )

same_text :
    {c d : ErrorCode} {m n s t : String}
    → protocol c m (text_details s) ≡ protocol d n (text_details t)
    → s ≡ t
same_text e = cc e

-- An exception counts as a name that is taken exactly if it is a `ProtocolException` whose details
-- are a text that has, in one line, "Wallet with ", at least one character and " already exists".
pub is_already_registered_iff :
    (e : Thrown)
    → (is_already_registered e ≡ true) ↔ (
        (code : ErrorCode) × (message : String) × (s : String) × (e
          ≡ protocol code message (text_details s))
        × SaysTaken s)
unfolding is_already_registered
is_already_registered_iff (protocol code message (text_details s)) =
    let (to, from) = SaysTaken-iff s in
    (
      λ h. (code, message, s, refl, to h),
      λ (c, m, u, e, taken). from (subst SaysTaken (sym (same_text e)) taken),
    )
is_already_registered_iff (protocol code message no_details) =
    (λ h. absurd (cc h), λ (c, m, u, e, taken). absurd (cc e))
is_already_registered_iff (protocol code message (thrown_details e)) =
    (λ h. absurd (cc h), λ (c, m, u, e, taken). absurd (cc e))
is_already_registered_iff (protocol code message (value_details v)) =
    (λ h. absurd (cc h), λ (c, m, u, e, taken). absurd (cc e))
is_already_registered_iff (error message) =
    (λ h. absurd (cc h), λ (c, m, u, e, taken). absurd (cc e))
is_already_registered_iff type_error = (λ h. absurd (cc h), λ (c, m, u, e, taken). absurd (cc e))
is_already_registered_iff syntax_error = (λ h. absurd (cc h), λ (c, m, u, e, taken). absurd (cc e))
is_already_registered_iff out_of_fuel = (λ h. absurd (cc h), λ (c, m, u, e, taken). absurd (cc e))
