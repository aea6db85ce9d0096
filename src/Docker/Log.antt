-- ===== src/Docker/Log.antt =====
-- How much of a container's output goes to the log.
use aries_guardianship_agenc.Base.{
  ℕ, ◌+◌, zero, suc, String, List, [], ◌∷◌, ◌≡◌, refl, ap, ◌∙◌, arith, ◌⧺◌,
}
use aries_guardianship_agenc.Js.Number.{nat}
use aries_guardianship_agenc.Config.{AgentConfig}
use aries_guardianship_agenc.Docker.{on_data, attach_output}

-- The first `n` chunks with the prefix of the log, the last one first, in front of `logged`.
abbrev pub first_lines : ℕ → List String → List String → List String
first_lines zero chunks logged = logged
first_lines (suc n) [] logged = logged
first_lines (suc n) (chunk ∷ chunks) logged = first_lines n chunks (("Agent: " ⧺ chunk) ∷ logged)

from_count :
    (c : AgentConfig) (m n : ℕ) (logged chunks : List String)
    → c.agent_log_length ≡ nat (m + n)
    → (attach_output c (m, logged) chunks).1 ≡ first_lines n chunks logged
unfolding attach_output on_data
from_count c m zero logged [] h = refl
from_count c m (suc n) logged [] h = refl
from_count c m zero logged (chunk ∷ chunks) h =
    rw h (ground (arith, from_count c m 0 logged chunks h))
from_count c m (suc n) logged (chunk ∷ chunks) h = rw h (
    ground (
      arith,
      from_count c (m + 1) n (("Agent: " ⧺ chunk) ∷ logged) chunks (h ∙ ap nat (omega arith)),
    ))

-- For a limit that is a natural number, the log holds the first chunks up to that limit, in their
-- order and each with its prefix, and none behind it.
attach_output-first_lines :
    (c : AgentConfig) (n : ℕ) (chunks : List String)
    → c.agent_log_length ≡ nat n
    → (attach_output c (0, []) chunks).1 ≡ first_lines n chunks []
attach_output-first_lines c n chunks h = from_count c 0 n [] chunks (h ∙ ap nat (omega arith))
