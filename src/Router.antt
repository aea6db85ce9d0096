-- ===== src/Router.antt =====
-- src/router/agent.router.service.ts and src/router/agent.router.module.ts: the agency as a proxy in
-- front of the agents. http-proxy-middleware, outside the program, calls `router` with the request
-- and rewrites its path by `path_rewrite`.
pub mod Laws
use aries_guardianship_agenc.Base.{
  ℕ, zero, suc, String, Bool, true, false, Option, none, some, List, [], ◌∷◌, ◌==◌, ◌⧺◌,
}
use aries_guardianship_agenc.Js.Text.{split_on}
use aries_guardianship_agenc.Js.Value.{variable_text}
use aries_guardianship_agenc.Js.Regex.{
  Regex, one, optional, seq, literal, some_of, other_than, drop_match,
}
use aries_guardianship_agenc.Effects.{Env}

-- `parts[i]`
abbrev pub part : ℕ → List String → Option String
part i [] = none
part zero (s ∷ parts) = some s
part (suc i) (s ∷ parts) = part i parts

abbrev pub slash : ℕ → Bool
slash c = c == b'/'

module _ (env : Env) where
  unfoldable pub get_url : String → String
  get_url id = "http://" ⧺ id ⧺ ":" ⧺ variable_text (env.var "AGENT_HTTP_PORT")

  -- The function that `getRouter` returns, on the path of a request.
  unfoldable pub router : String → String
  unfolding get_url
  router path = get_url (variable_text (part 3 (split_on b'/' path)))

-- '^/v1/router/[^/]+/?'
unfoldable pub prefix : Regex
prefix = literal "/v1/router/" (seq (some_of (other_than b'/')) (optional (one slash)))

unfoldable pub path_rewrite : String → String
unfolding prefix
path_rewrite path = drop_match prefix path
