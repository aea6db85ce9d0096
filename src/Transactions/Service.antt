-- ===== src/Transactions/Service.antt =====
-- The methods of TransactionService.
pub mod Laws
use aries_guardianship_agenc.Base.{
  String, Bool, true, false, Option, none, some, List, [], ◌∷◌, if◌then◌else◌, ◌⧺◌,
}
use aries_guardianship_agenc.Js.Value.{
  Value, undefined, str, object, is_undefined, variable_text, to_text,
}
use aries_guardianship_agenc.Effects.{
  Env, M, Result, ok, err, protocol, invalid_backend_operation, no_details, syntax_error, pure,
  throw, lift, perform, get_prop, ◌>>=◌, ◌>>◌, HttpRequest, request_with_retry, cache_get,
}
use aries_guardianship_agenc.Transactions.Messaging.{MessageType, get_message_handler, respond}

pub record RegisterTdcDto : Type 0 where
  pub tdc_prefix : String
  pub tdc_endpoint : String

pub record RegisterOneTimeKeyDto : Type 0 where
  pub connection_id : String
  pub tdc_endpoint : String
  pub one_time_key : String

module _ (env : Env) where
  -- `JSON.parse(v)`
  abbrev pub parse_json : Value → Result Value
  parse_json v = elim (env.json_parse (to_text v)) [ none ↦ err syntax_error | some w ↦ ok w ]

  unfoldable pub respond_if_known : Option MessageType → String → Value → Value → Value → M Unit
  respond_if_known none id key connection_id message = pure tt
  respond_if_known (some type) id key connection_id message = do
    respond env id key connection_id type message
    pure tt

  unfoldable pub basic_message_handler : String → Value → Value → M Value
  unfolding get_prop respond_if_known
  basic_message_handler agent_id admin_api_key body = do
    content ← lift (get_prop "content" body)
    message ← lift (parse_json content)
    connection_id ← lift (get_prop "connection_id" body)
    message_type_id ← lift (get_prop "messageTypeId" message)
    respond_if_known (get_message_handler message_type_id) agent_id admin_api_key connection_id
        message
    pure undefined

  unfoldable pub get_agent_admin_api_key : String → M Value
  unfolding get_prop
  get_agent_admin_api_key id = do
    agent ← perform env (cache_get id)
    if is_undefined agent
        then throw (protocol invalid_backend_operation "agent expected but not found" no_details)
        else lift (get_prop "adminApiKey" agent)

  abbrev pub invitation_request : String → Value → HttpRequest
  invitation_request id key = record {
    method = "POST";
    url =
        "http://"
        ⧺ id
        ⧺ ":"
        ⧺ variable_text (env.var "AGENT_ADMIN_PORT")
        ⧺ "/connections/create-invitation";
    headers = ("x-api-key", key) ∷ [];
    body = undefined;
  }

  unfoldable pub create_agent_connection : String → M Value
  create_agent_connection id = do
    key ← get_agent_admin_api_key id
    res ← perform env (request_with_retry (invitation_request id key))
    pure res.body

  abbrev pub tdc_request : String → String → String → Value → HttpRequest
  tdc_request method endpoint path body = record {
    method = method;
    url = endpoint ⧺ path;
    headers = [];
    body = body;
  }

  -- `connection.connection_id` is read for the log, before the properties of the invitation.
  unfoldable pub register_with_tdc : String → RegisterTdcDto → M Value
  unfolding get_prop
  register_with_tdc id body = do
    connection ← create_agent_connection id
    connection_id ← lift (get_prop "connection_id" connection)
    invitation ← lift (get_prop "invitation" connection)
    label ← lift (get_prop "label" invitation)
    result ← perform env (
        request_with_retry (
          tdc_request "POST" body.tdc_endpoint "/v2/register" (
            object (
              ("alias", label)
              ∷ ("identityProfileId", str "citizen.identity")
              ∷ ("invitation", invitation)
              ∷ []))))
    data_of ← lift (get_prop "connectionData" result.body)
    pure (object (("connectionData", data_of) ∷ []))

  unfoldable pub register_onetime_key : String → RegisterOneTimeKeyDto → M Value
  register_onetime_key id body = do
    result ← perform env (
        request_with_retry (
          tdc_request "POST" body.tdc_endpoint "/v2/register/onetimekey" (
            object (
              ("connectionId", str body.connection_id)
              ∷ ("oneTimeKey", str body.one_time_key)
              ∷ []))))
    pure result.body

  unfoldable pub get_one_time_key_ids : String → RegisterOneTimeKeyDto → M Value
  get_one_time_key_ids id body = do
    result ← perform env (
        request_with_retry (
          tdc_request "GET" body.tdc_endpoint ("/v2/transactions/ids/" ⧺ body.one_time_key ⧺ "/tro")
            undefined))
    pure result.body

  -- The endpoints of TransactionController.
  abbrev pub post_register : String → RegisterTdcDto → M Value
  post_register agent_id body = register_with_tdc agent_id body

  abbrev pub post_register_onetime_key : String → RegisterOneTimeKeyDto → M Value
  post_register_onetime_key agent_id body = register_onetime_key agent_id body

  abbrev pub post_ids : String → RegisterOneTimeKeyDto → M Value
  post_ids agent_id body = get_one_time_key_ids agent_id body
