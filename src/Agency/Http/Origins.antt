-- ===== src/Agency/Http/Origins.antt =====
-- Which request over HTTP an effect of the agency comes from.
use mathlib.Core.Path.{subst}
use aries_guardianship_agenc.Base.{
  ℕ, String, true, Option, some, List, [], ◌∷◌, ◌≡◌, refl, ap, ◌⊎◌, inl, inr, Among, All,
}
use aries_guardianship_agenc.Js.Number.{Num}
use aries_guardianship_agenc.Js.Value.{Value, Fields, str, obj, lookup_field}
use aries_guardianship_agenc.Effects.{
  Env, Call, Trace, create_container, create_pod, cache_set, cache_del, stop_container, delete_pod,
  handle_webhook,
}
use aries_guardianship_agenc.Config.{AgentCreateDto, AgentConfig, build_config}
use aries_guardianship_agenc.Config.AgentId.{is_agent_id}
use aries_guardianship_agenc.Docker.{container_options}
use aries_guardianship_agenc.K8s.{pod_options}
use aries_guardianship_agenc.Manager
use aries_guardianship_agenc.Manager.{agent_entry, ttl_or_infinite}
use aries_guardianship_agenc.Multitenant
use aries_guardianship_agenc.Multitenant.{WalletCreateDto, stored_ttl, wallet_ttl}
use aries_guardianship_agenc.Multitenant.Grants.{entry_of}
use aries_guardianship_agenc.Multitenant.Sources.{Granted}
use aries_guardianship_agenc.Routes
use aries_guardianship_agenc.Routes.{Route, Endpoint, routes}
use aries_guardianship_agenc.Routes.Dispatch.{Express}
use aries_guardianship_agenc.Validation.{ValidationPipe, agent_create_rules, wallet_create_rules}
use aries_guardianship_agenc.Validation.Bodies.{AgentBody, WalletBody, agent_create_rules-AgentBody}
use aries_guardianship_agenc.Agency.{
  Operation, create_agent, stop_agent, create_wallet, webhook, basic_message, spin_down, Place,
  serve_all,
}
use aries_guardianship_agenc.Agency.Caused.{Caused, IsRequested}
use aries_guardianship_agenc.Agency.Requested.{serve_all-AllCaused}
use aries_guardianship_agenc.Agency.Http.{
  Incoming, param_of, body_rules, Handles, creates_agent, stops_agent, gets_controller,
  posts_controller, creates_wallet, Accepted,
}

module _ (params : String → Option String) (body : Fields) where
  creates_agent_inv :
      (e : Endpoint) (dto : AgentCreateDto)
      → Handles params body e (create_agent dto)
      → (e ≡ Routes.create_agent) × AgentBody body dto
  creates_agent_inv _ _ (creates_agent dto is) = (refl, is)

  creates_wallet_inv :
      (e : Endpoint) (dto : WalletCreateDto)
      → Handles params body e (create_wallet dto)
      → (e ≡ Routes.create_wallet) × WalletBody body dto
  creates_wallet_inv _ _ (creates_wallet dto is) = (refl, is)

  no_timer :
      (e : Endpoint) (op : Operation) (id : String)
      → op ≡ spin_down id
      → Handles params body e op
      → ⊥
  no_timer _ _ id e (creates_agent dto is) = cc e
  no_timer _ _ id e _ = cc e

  stops_agent_inv :
      (e : Endpoint) (b : Manager.StopAgentBody)
      → Handles params body e (stop_agent b)
      → (e ≡ Routes.stop_agent) × (lookup_field "agentId" body ≡ str b.agent_id)
  stops_agent_inv _ _ (stops_agent b named) = (refl, named)

  webhook_inv :
      (e : Endpoint) (id route subroute : String) (v : Value)
      → Handles params body e (webhook id route subroute v)
      → ((e ≡ Routes.get_controller) ⊎ (e ≡ Routes.post_controller))
        × (params "agentId" ≡ some id)
        × (params "route" ≡ some route)
        × (params "subroute" ≡ some subroute)
        × (v ≡ obj body)
  webhook_inv _ _ _ _ _ (gets_controller id route subroute e₁ e₂ e₃) = (inl refl, e₁, e₂, e₃, refl)
  webhook_inv _ _ _ _ _ (posts_controller id route subroute e₁ e₂ e₃) = (inr refl, e₁, e₂, e₃, refl)

module _ (env : Env) (express : Express) (pipe : ValidationPipe) (requests : List Incoming)
    (ops : List Operation) where
  -- A request that takes a route of this endpoint.
  abbrev pub Takes : Incoming → Endpoint → Type 0
  Takes request e =
      Among request requests
      × ((r : Route) × (express.dispatch routes request.verb request.parts ≡ some r)
          × (r.endpoint ≡ e))

  -- A request to `createAgent` with this body, which the validation has let through.
  abbrev pub IsPostedDto : AgentCreateDto → Type 0
  IsPostedDto dto =
      (request : Incoming) × Takes request Routes.create_agent
      × (pipe.accepts agent_create_rules request.body ≡ true)
      × AgentBody request.body dto
      × (is_agent_id dto.agent_id ≡ true)

  -- The configuration of an agent that such a request has asked for.
  abbrev pub IsPosted : AgentConfig → Type 0
  IsPosted c =
      (dto : AgentCreateDto) × (genesis : String) × IsPostedDto dto
      × (c ≡ build_config env (Manager.with_defaults dto) genesis)

  abbrev pub IsPostedWallet : String → Value → Num → Type 0
  IsPostedWallet key v ttl =
      (request : Incoming) × (dto : WalletCreateDto) × (id : Value) × (token : Value) × Takes
        request Routes.create_wallet
      × (pipe.accepts wallet_create_rules request.body ≡ true)
      × WalletBody request.body dto
      × Granted env (Multitenant.with_defaults dto) id token
      × (key ≡ dto.wallet_name)
      × (v ≡ entry_of env (Multitenant.with_defaults dto) id token)
      × (ttl ≡ stored_ttl env (wallet_ttl dto.ttl))

  -- A request to `stopAgent` with the id, or the timer of an agent of that id that a request to
  -- `createAgent` has asked for.
  abbrev pub IsEnded : String → Type 0
  IsEnded id =
      ((request : Incoming) × Takes request Routes.stop_agent
        × (lookup_field "agentId" request.body ≡ str id))
      ⊎ ((dto : AgentCreateDto) × IsPostedDto dto × (dto.agent_id ≡ id))

  abbrev pub FromHttp : Call → Type 0
  FromHttp (create_container v) = (c : AgentConfig) × IsPosted c × (v ≡ container_options env c)
  FromHttp (create_pod namespace v) = (c : AgentConfig) × IsPosted c × (v ≡ pod_options env c)
  FromHttp (cache_set key v ttl) =
      ((c : AgentConfig) × IsPosted c
        × (key ≡ c.agent_id)
        × (v ≡ agent_entry c)
        × (ttl ≡ ttl_or_infinite c))
      ⊎ IsPostedWallet key v ttl
  FromHttp (cache_del id) = IsEnded id
  FromHttp (stop_container id) = IsEnded id
  FromHttp (delete_pod id namespace) = IsEnded id
  FromHttp (handle_webhook m) =
      (request : Incoming) × (r : Route) × Among request requests
      × (express.dispatch routes request.verb request.parts ≡ some r)
      × ((r.endpoint ≡ Routes.get_controller) ⊎ (r.endpoint ≡ Routes.post_controller))
      × (param_of "agentId" r.path request.parts ≡ some m.agent_id)
      × (param_of "route" r.path request.parts ≡ some m.route)
      × (param_of "subroute" r.path request.parts ≡ some m.topic)
      × (m.body ≡ obj request.body)
  FromHttp _ = Unit

  -- What is not asked for by a request over HTTP to the endpoints: a timer, which `setSpinDownJob`
  -- sets for an agent that is created, and a message of aries-controller.
  abbrev pub IsInternal : Operation → Type 0
  IsInternal (spin_down id) =
      (dto : AgentCreateDto) × Among (create_agent dto) ops × (dto.agent_id ≡ id)
  IsInternal (basic_message id key message) = Unit
  IsInternal _ = ⊥

  abbrev pub HasOrigin : Operation → Type 0
  HasOrigin op =
      ((request : Incoming) × Among request requests × Accepted express pipe request op)
      ⊎ IsInternal op

  module _ (origins : (op : Operation) → Among op ops → HasOrigin op) where
    posted_dto : (dto : AgentCreateDto) → Among (create_agent dto) ops → IsPostedDto dto
    posted_dto dto among = elim (origins (create_agent dto) among) [
      | inl (request, listed, accepted) ↦
          let (e, is) = creates_agent_inv _ _ _ dto accepted.handled in
          let valid = accepted.valid _ (ap body_rules e) in
          let (dto', is', matched, ttl, port) =
            agent_create_rules-AgentBody pipe request.body valid in
          let same : dto'.agent_id ≡ dto.agent_id = cc (is.agent_id_lem, is'.agent_id_lem) in
          (
            request,
            (listed, (accepted.route, accepted.taken, e)),
            valid,
            is,
            subst (λ id. is_agent_id id ≡ true) same matched,
          )
      | inr none ↦ absurd none
    ]

    posted : (c : AgentConfig) → IsRequested env ops c → IsPosted c
    posted c (dto, genesis, among, configured) = (dto, genesis, posted_dto dto among, configured)

    ended :
        (id : String)
        → Among (stop_agent (record { agent_id = id })) ops ⊎ Among (spin_down id) ops
        → IsEnded id
    ended id (inr timer) = elim (origins _ timer) [
      | inl (request, listed, accepted) ↦ absurd (no_timer _ _ _ _ id refl accepted.handled)
      | inr (dto, among, same) ↦ inr (dto, posted_dto dto among, same)
    ]
    ended id (inl among) = elim (origins _ among) [
      | inl (request, listed, accepted) ↦
          let (e, named) = stops_agent_inv _ _ _ (record { agent_id = id }) accepted.handled in
          inl (request, (listed, (accepted.route, accepted.taken, e)), named)
      | inr none ↦ absurd none
    ]

    from_http : (c : Call) → Caused env ops c → FromHttp c
    from_http (create_container v) (c, requested, options) = (c, posted c requested, options)
    from_http (create_pod namespace v) (c, requested, options) = (c, posted c requested, options)
    from_http (cache_set key v ttl) (inl (c, requested, k, entry, lives)) =
        inl (c, posted c requested, k, entry, lives)
    from_http (cache_set key v ttl) (inr (dto, id, token, among, granted, k, entry, lives)) =
        elim (origins (create_wallet dto) among) [
          | inl (request, listed, accepted) ↦
              let (e, is) = creates_wallet_inv _ _ _ dto accepted.handled in
              inr (
                request,
                dto,
                id,
                token,
                (listed, (accepted.route, accepted.taken, e)),
                accepted.valid _ (ap body_rules e),
                is,
                granted,
                k,
                entry,
                lives,
              )
          | inr none ↦ absurd none
        ]
    from_http (cache_del id) asked = ended id asked
    from_http (stop_container id) asked = ended id asked
    from_http (delete_pod id namespace) asked = ended id asked
    from_http (handle_webhook m) among = elim (origins _ among) [
      | inl (request, listed, accepted) ↦
          let (e, id, route, topic, body) = webhook_inv _ _ _ _ _ _ _ accepted.handled in
          (request, accepted.route, listed, accepted.taken, e, id, route, topic, body)
      | inr none ↦ absurd none
    ]
    from_http _ caused = tt

    All-FromHttp : (t : Trace) → All (Caused env ops) t → All FromHttp t
    All-FromHttp [] all = tt
    All-FromHttp (c ∷ t) (p, all) = (from_http c p, All-FromHttp t all)

    -- Where each operation that the agency has served is one that a request over HTTP was accepted
    -- for, the timer of an agent that was created, or a message, whatever their order, and whatever is
    -- answered: containers and pods are created only with the options of an agent that a request to
    -- the endpoint `createAgent` has asked for, with a body that the validation has let through, its
    -- properties and an id of the validation's pattern; an agent is stopped, and its entry deleted,
    -- only for a request to `stopAgent` with its id, of which the body is not validated, or for the
    -- timer of such an agent; every entry is that of such an agent, or of a wallet of a request to
    -- `createWallet` with a body that the validation has let through, with an id and a token that were
    -- granted; and a handler gets the parameters of the path and the body, which is not validated, of
    -- a request to `getController` or `postController`.
    pub serve_all-FromHttp :
        (place : Place) (fuel : ℕ) → All FromHttp (serve_all env place fuel ops)
    serve_all-FromHttp place fuel = All-FromHttp _ (serve_all-AllCaused env place fuel ops)
