-- ===== src/Config/AgentId.antt =====
-- The pattern that `@Matches` gives for the id of an agent, src/manager/dtos/agent.create.dto.ts.
-- class-validator tests whether the pattern matches somewhere in the text.
use aries_guardianship_agenc.Base.{
  ℕ, String, Char, code, Bool, true, ◌≡◌, refl, ap, ◌∙◌, ◌↔◌, inr, ◌&&◌, ◌||◌, ◌==◌, leb, ◌⧺◌,
}
use aries_guardianship_agenc.Js.Regex.{Regex, one, many, seq, optional, found_in}
use aries_guardianship_agenc.Js.Regex.Meaning.{found_in_iff}

abbrev pub is_lower : ℕ → Bool
is_lower c = leb b'a' c && leb c b'z'

abbrev pub is_lower_or_digit : ℕ → Bool
is_lower_or_digit c = is_lower c || (leb b'0' c && leb c b'9')

-- /[a-z]([-a-z0-9]*[a-z0-9])?/
unfoldable pub agent_id_pattern : Regex
agent_id_pattern =
    seq (one is_lower)
      (optional (seq (many (λ c. c == b'-' || is_lower_or_digit c)) (one is_lower_or_digit)))

unfoldable pub is_agent_id : String → Bool
is_agent_id id = found_in agent_id_pattern id

-- An id passes exactly if one of its characters is a lower case letter, whatever stands before and
-- behind: the pattern is not anchored.
pub is_agent_id_iff :
    (id : String)
    → (is_agent_id id ≡ true) ↔ (
        (before : String) × (c : Char) × (after : String) × (id ≡ before ⧺ String.◌∷◌ c after)
        × (is_lower (code c) ≡ true))
unfolding is_agent_id agent_id_pattern
is_agent_id_iff id =
    let (to, from) = found_in_iff agent_id_pattern id in
    (
      λ h.
          let (before, rest, t, e, (u, (c, e', lower), m)) = to h in
          (before, c, u, e ∙ ap (λ x. before ⧺ x) e', lower),
      λ (before, c, after, e, lower).
          from (before, String.◌∷◌ c after, after, e, (after, (c, refl, lower), inr refl)),
    )
