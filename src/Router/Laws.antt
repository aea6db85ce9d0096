-- ===== src/Router/Laws.antt =====
-- Requests to the public endpoint of an agent reach that agent.
use text.Mathlib.TextLemmas.{append_assoc}
use aries_guardianship_agenc.Base.{String, Char, ◌∷◌, ◌≡◌, refl, ap, ◌∙◌, arith, ◌⧺◌}
use aries_guardianship_agenc.Js.Text.{Lacks, split_on, split_on-append, split_on-prefix}
use aries_guardianship_agenc.Js.Regex.{one, seq, optional, some_of, other_than}
use aries_guardianship_agenc.Js.Regex.Matches.{drop_match-first, first-literal, first-some_of}
use aries_guardianship_agenc.Js.Value.{variable_text}
use aries_guardianship_agenc.Effects.{Env}
use aries_guardianship_agenc.Router.{slash, get_url, router, prefix, path_rewrite}

abbrev slash_char : Char
slash_char = "/"

-- The fixed parts of a public endpoint.
endpoint_parts :
    (s : String) → split_on b'/' ("/v1/router/" ⧺ s) ≡ "" ∷ "v1" ∷ "router" ∷ split_on b'/' s
endpoint_parts s =
    ap (split_on b'/') (append_assoc "/" "v1/router/" s)
    ∙ split_on-prefix slash_char "" ("v1/router/" ⧺ s) tt
    ∙ ap (λ ps. "" ∷ ps)
        (ap (split_on b'/') (append_assoc "v1/" "router/" s)
          ∙ split_on-prefix slash_char "v1" ("router/" ⧺ s) (omega arith)
          ∙ ap (λ ps. "v1" ∷ ps) (split_on-prefix slash_char "router" s (omega arith)))

endpoint-router :
    (env : Env) (id rest : String)
    → Lacks b'/' id
    → router env ("/v1/router/" ⧺ id ⧺ String.◌∷◌ slash_char rest)
      ≡ "http://" ⧺ id ⧺ ":" ⧺ variable_text (env.var "AGENT_HTTP_PORT")
unfolding router get_url
endpoint-router env id rest h =
    rw (endpoint_parts (id ⧺ String.◌∷◌ slash_char rest))
      (rw (split_on-append slash_char id rest h) refl)

endpoint-path_rewrite :
    (c : Char) (id rest : String)
    → Lacks b'/' (String.◌∷◌ c id)
    → path_rewrite ("/v1/router/" ⧺ String.◌∷◌ c id ⧺ String.◌∷◌ slash_char rest) ≡ rest
unfolding path_rewrite
endpoint-path_rewrite c id rest h =
    let s = String.◌∷◌ c id ⧺ String.◌∷◌ slash_char rest in
    drop_match-first prefix ("/v1/router/" ⧺ s) rest (
      unfold prefix in
      first-literal "/v1/router/" (seq (some_of (other_than b'/')) (optional (one slash))) s rest
        (first-some_of slash_char c id rest h))

-- A request whose path stands behind the public endpoint of an agent, for an id that is not empty and
-- holds no slash, goes to the host of that id, at the HTTP port of the environment, with what follows
-- the endpoint and its slash as its path.
pub router-path_rewrite :
    (env : Env) (c : Char) (id rest : String)
    → Lacks b'/' (String.◌∷◌ c id)
    → let path = "/v1/router/" ⧺ String.◌∷◌ c id ⧺ String.◌∷◌ slash_char rest in
      (router env path
        ≡ "http://" ⧺ String.◌∷◌ c id ⧺ ":" ⧺ variable_text (env.var "AGENT_HTTP_PORT"))
      × (path_rewrite path ≡ rest)
router-path_rewrite env c id rest h =
    (endpoint-router env (String.◌∷◌ c id) rest h, endpoint-path_rewrite c id rest h)
