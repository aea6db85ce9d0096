-- ===== src/Js/Regex.antt =====
-- Regular expressions of the forms that the services use. A match is a way to go on: `rests` lists
-- what may be left of a text behind a match at its start, in the order in which JavaScript's
-- matcher tries them (greedy first).
pub mod Matches
pub mod Meaning
use aries_guardianship_agenc.Base.{
  ℕ, ◌+◌, String, code, Bool, true, false, List, [], ◌∷◌, ◌++◌, Option, none, some, ◌≡◌, refl, ◌==◌,
  ◌&&◌, ◌||◌, not, leb, if◌then◌else◌,
}

-- A class is a test of a character's code.
pub data Regex : Type 0 where
  one : (ℕ → Bool) → Regex
  many : (ℕ → Bool) → Regex
  seq : Regex → Regex → Regex
  optional : Regex → Regex

-- A text, character by character.
abbrev pub literal : String → Regex → Regex
literal String.[] r = r
literal (String.◌∷◌ c s) r = seq (one (λ d. d == code c)) (literal s r)

-- `[…]+`
abbrev pub some_of : (ℕ → Bool) → Regex
some_of p = seq (one p) (many p)

pub rests_one : (ℕ → Bool) → String → List String
rests_one p String.[] = []
rests_one p (String.◌∷◌ c s) = if p (code c) then s ∷ [] else []

-- `[…]*`, the longest match first.
pub rests_many : (ℕ → Bool) → String → List String
rests_many p String.[] = String.[] ∷ []
rests_many p (String.◌∷◌ c s) =
    let longer = rests_many p s in
    if p (code c) then longer ++ String.◌∷◌ c s ∷ [] else String.◌∷◌ c s ∷ []

pub rests_each : (String → List String) → List String → List String
rests_each f [] = []
rests_each f (s ∷ ss) = f s ++ rests_each f ss

unfoldable pub rests : Regex → String → List String
unfolding rests_one rests_many rests_each
rests (one p) s = rests_one p s
rests (many p) s = rests_many p s
rests (seq r q) s = rests_each (rests q) (rests r s)
rests (optional r) s = rests r s ++ s ∷ []

abbrev pub first : List String → Option String
first [] = none
first (s ∷ ss) = some s

abbrev pub is_found : List String → Bool
is_found [] = false
is_found (s ∷ ss) = true

-- `r` with no `^`: a match may start anywhere.
unfoldable pub found_in : Regex → String → Bool
unfolding rests
found_in r String.[] = is_found (rests r String.[])
found_in r (String.◌∷◌ c s) = is_found (rests r (String.◌∷◌ c s)) || found_in r s

-- `s.replace(/^r/, '')`
unfoldable pub drop_match : Regex → String → String
unfolding rests
drop_match r s = elim (first (rests r s)) [ none ↦ s | some rest ↦ rest ]

-- A character other than `c`.
abbrev pub other_than : ℕ → ℕ → Bool
other_than c d = not (d == c)

drop_match_test :
    drop_match
      (literal "/v1/" (seq (some_of (other_than b'/')) (optional (one (λ d. d == b'/')))))
      "/v1/ab/c/d"
    ≡ "c/d"
unfolding drop_match
drop_match_test = refl
