-- ===== src/Transactions/Service/Laws.antt =====
-- Messages by their type, and the registration of an agent at a TDC.
use aries_guardianship_agenc.Base.{
  String, inl, inr, false, Option, none, some, ◌∷◌, [], ◌≡◌, arith, ◌⧺◌,
}
use aries_guardianship_agenc.Js.Value.{
  Value, is_undefined, undefined, str, object, Fields, obj, lookup_field, to_text, variable_text,
}
use aries_guardianship_agenc.Effects.{
  Env, Call, Result, ok, err, protocol, invalid_backend_operation, no_details, Trace, HttpResponse,
  ◌>>=◌, prop, get_prop, request_with_retry, cache_get,
}
use aries_guardianship_agenc.Effects.Laws.{Result-cases}
use aries_guardianship_agenc.Config.{AgentConfig}
use aries_guardianship_agenc.Manager.{agent_entry}
use aries_guardianship_agenc.Transactions.Messaging.{MessageType, get_message_handler, respond}
use aries_guardianship_agenc.Transactions.Service.{
  RegisterTdcDto, basic_message_handler, respond_if_known, get_agent_admin_api_key,
  create_agent_connection, register_with_tdc,
}

module _ (env : Env) (agent_id : String) (t : Trace) where
  -- How a message ends whose handler has responded.
  abbrev pub after : {A : Type 0} → Result A × Trace → Result Value × Trace
  after (ok a, s) = (ok undefined, s)
  after (err e, s) = (err e, s)

  abbrev pub handled : Value → Value → Fields → Option MessageType → Result Value × Trace
  handled key connection_id message none = (ok undefined, t)
  handled key connection_id message (some type) =
      after (respond env agent_id key connection_id type (obj message) t)

  -- A basic message, its content the text of an object: the handler of the type that the content
  -- names responds, and its exceptions go on to the caller. A type that the factory does not know
  -- does nothing at all.
  basic_message_handler-respond :
      (key : Value) (body message : Fields)
      → env.json_parse (to_text (lookup_field "content" body)) ≡ some (obj message)
      → basic_message_handler env agent_id key (obj body) t
        ≡ handled key
            (lookup_field "connection_id" body)
            message
            (get_message_handler (lookup_field "messageTypeId" message))
  unfolding basic_message_handler respond_if_known get_prop ◌>>=◌
  basic_message_handler-respond key body message parsed = ground arith

module _ (env : Env) (id : String) (body : RegisterTdcDto) (t : Trace) where
  -- The registration at the TDC, by the invitation that the agent has made.
  abbrev pub registration : Value → Value → Call
  registration label invitation = request_with_retry (record {
    method = "POST";
    url = body.tdc_endpoint ⧺ "/v2/register";
    headers = [];
    body = object (
        ("alias", label)
        ∷ ("identityProfileId", str "citizen.identity")
        ∷ ("invitation", invitation)
        ∷ []);
  })

  -- The request to the agent for an invitation.
  abbrev asked : Value → Call
  asked key = request_with_retry (record {
    method = "POST";
    url =
        "http://"
        ⧺ id
        ⧺ ":"
        ⧺ variable_text (env.var "AGENT_ADMIN_PORT")
        ⧺ "/connections/create-invitation";
    headers = ("x-api-key", key) ∷ [];
    body = undefined;
  })

  abbrev pub invitation_call : AgentConfig → Call
  invitation_call c = asked (str c.admin_api_key)

  -- The answer of the TDC.
  abbrev pub registered : Result HttpResponse → Result Value
  registered (err e) = err e
  registered (ok res) = elim (get_prop "connectionData" res.body) [
    | err e ↦ err e
    | ok data_of ↦ ok (object (("connectionData", data_of) ∷ []))
  ]

  -- An agent that the manager has cached is asked for an invitation with the key that it was
  -- started with, and the TDC gets that very invitation under its label; an exception of the TDC's
  -- answer goes on to the caller.
  pub register_with_tdc-agent :
      (c : AgentConfig) (res : HttpResponse) (connection invitation : Fields)
      → env.reply t (cache_get id) ≡ ok (agent_entry c)
      → env.reply (cache_get id ∷ t) (invitation_call c) ≡ ok res
      → res.body ≡ obj connection
      → lookup_field "invitation" connection ≡ obj invitation
      → register_with_tdc env id body t ≡ (
          let s = invitation_call c ∷ cache_get id ∷ t in
          let call = registration (lookup_field "label" invitation) (obj invitation) in
          (registered (env.reply s call), call ∷ s))
  unfolding register_with_tdc create_agent_connection get_agent_admin_api_key lookup_field get_prop
      ◌>>=◌
  register_with_tdc-agent c res connection invitation cached invited is_object given_invitation =
      ground arith

  -- An agent that the cache does not have is not registered: no request is made.
  pub register_with_tdc-missing :
      env.reply t (cache_get id) ≡ ok undefined
      → register_with_tdc env id body t ≡ (
        err (protocol invalid_backend_operation "agent expected but not found" no_details),
        cache_get id ∷ t,
      )
  unfolding register_with_tdc create_agent_connection get_agent_admin_api_key ◌>>=◌
  register_with_tdc-missing missing = ground arith

  abbrev pub invitation_of : Value → Call
  invitation_of agent = asked (prop "adminApiKey" agent)

  abbrev pub registration_of : HttpResponse → Call
  registration_of res =
      registration (prop "label" (prop "invitation" res.body)) (prop "invitation" res.body)

  -- However the agent, the cache and the TDC answer, a registration that returns has come about in
  -- one way: the cache has the agent, the agent was asked for an invitation, by a POST at the admin
  -- port of the environment with the key of its entry, the last call is a POST of that invitation with
  -- its label to /v2/register of the body's endpoint, and the value is the connection data of the
  -- TDC's answer.
  pub register_with_tdc-returned :
      (v : Value) (t' : Trace)
      → register_with_tdc env id body t ≡ (ok v, t')
      → (agent : Value) × (res : HttpResponse) × (answer : HttpResponse) × (env.reply t
            (cache_get id)
          ≡ ok agent)
        × (is_undefined agent ≡ false)
        × (env.reply (cache_get id ∷ t) (invitation_of agent) ≡ ok res)
        × (env.reply (invitation_of agent ∷ cache_get id ∷ t) (registration_of res) ≡ ok answer)
        × (t' ≡ registration_of res ∷ invitation_of agent ∷ cache_get id ∷ t)
        × (v ≡ object (("connectionData", prop "connectionData" answer.body) ∷ []))
  unfolding register_with_tdc create_agent_connection get_agent_admin_api_key get_prop ◌>>=◌
  register_with_tdc-returned v t' returned = elim (Result-cases (env.reply t (cache_get id))) [
    | inr (e, failed) ↦ absurd (ground arith)
    | inl (agent, got) ↦ elim (Result-cases (env.reply (cache_get id ∷ t) (invitation_of agent))) [
      | inr (e, failed) ↦ absurd (ground arith)
      | inl (res, gave) ↦
          elim (Result-cases
            (env.reply (invitation_of agent ∷ cache_get id ∷ t) (registration_of res))) [
              | inr (e, failed) ↦ absurd (ground arith)
              | inl (answer, took) ↦
                  (agent, res, answer, got, ground arith, gave, took, ground arith, ground arith)
            ]
    ]
  ]
