-- ===== src/Js/Text.antt =====
-- Texts: `String.prototype.split` on one character, and what a text holds none of.
use text.Mathlib.TextLemmas.{nil-append, cons-append, append_assoc}
use aries_guardianship_agenc.Base.{
  ℕ, String, Char, code, List, [], ◌∷◌, ◌≡◌, refl, ◌≢◌, ◌==◌, if◌then◌else◌, ◌⧺◌, arith,
}

push_head : Char → List String → List String
push_head c [] = String.◌∷◌ c String.[] ∷ []
push_head c (w ∷ ws) = String.◌∷◌ c w ∷ ws

-- `s.split(c)`, the separator given by its code.
unfoldable pub split_on : ℕ → String → List String
unfolding push_head
split_on sep String.[] = "" ∷ []
split_on sep (String.◌∷◌ c s) =
    let rest = split_on sep s in if code c == sep then "" ∷ rest else push_head c rest

-- The text does not hold the character.
abbrev pub Lacks : ℕ → String → Type 0
Lacks sep String.[] = Unit
Lacks sep (String.◌∷◌ c s) = (code c ≢ sep) × Lacks sep s

pub Lacks-append : (sep : ℕ) (s t : String) → Lacks sep s → Lacks sep t → Lacks sep (s ⧺ t)
Lacks-append sep String.[] t h k = rw nil-append k
Lacks-append sep (String.◌∷◌ c s) t (p, h) k = rw cons-append (p, Lacks-append sep s t h k)

-- A text without the separator is one part.
pub split_on-Lacks : (sep : ℕ) (s : String) → Lacks sep s → split_on sep s ≡ s ∷ []
unfolding split_on
split_on-Lacks sep String.[] h = refl
split_on-Lacks sep (String.◌∷◌ c s) (p, h) = ground (arith, split_on-Lacks sep s h)

-- The first part ends at the first separator.
pub split_on-append :
    (c : Char) (s t : String)
    → Lacks (code c) s
    → split_on (code c) (s ⧺ String.◌∷◌ c t) ≡ s ∷ split_on (code c) t
unfolding split_on
split_on-append c String.[] t h = rw nil-append (ground arith)
split_on-append c (String.◌∷◌ d s) t (p, h) =
    rw cons-append (ground (arith, split_on-append c s t h))

-- The same where the separator ends a text that something is appended to.
pub split_on-prefix :
    (c : Char) (s t : String)
    → Lacks (code c) s
    → split_on (code c) ((s ⧺ String.◌∷◌ c String.[]) ⧺ t) ≡ s ∷ split_on (code c) t
split_on-prefix c s t h = rw append_assoc (rw cons-append (rw nil-append (split_on-append c s t h)))
