-- ===== src/Transactions/Messaging.antt =====
-- src/transactions/messaging: one handler for each type of basic message, and the factory that
-- chooses it. `CreditTransaction` and `TransactionReportRequest` of aries-controller are outside
-- the program: the environment says what object each makes of its properties.
pub mod Chain
pub mod Interleaving
pub mod Pool
pub mod Sequence
pub mod Steps
pub mod Merkel
pub mod Report
use aries_guardianship_agenc.Base.{
  String, Bool, true, false, Option, none, some, List, [], ◌∷◌, map, if◌then◌else◌, ◌⧺◌,
}
use aries_guardianship_agenc.Js.Number.{Num}
use aries_guardianship_agenc.Js.Value.{
  Value, num, str, array, object, Optional, absent, variable_text, is_text, to_text,
}
use aries_guardianship_agenc.Js.Json.{stringify}
use aries_guardianship_agenc.Entity.{AgentTransaction}
use aries_guardianship_agenc.Effects.{
  Env, M, pure, lift, perform, get_prop, ◌>>=◌, ◌>>◌, HttpRequest, request_with_retry,
}
use aries_guardianship_agenc.Transactions.Persistence.{
  add_one_to, get_max_merkel_order, save_record, get_all_transactions,
}

-- TransactionMessageStatesEnum
pub data State : Type 0 where
  accepted completed started : State

abbrev pub state_text : State → String
state_text accepted = "accepted"
state_text completed = "completed"
state_text started = "started"

-- `message.state === s`
abbrev pub is_state : Value → State → Bool
is_state v s = is_text v (state_text s)

-- TransactionMessageTypesEnum
pub data MessageType : Type 0 where
  credit_transaction grant transaction_request : MessageType

abbrev pub type_text : MessageType → String
type_text credit_transaction = "credit_transaction"
type_text grant = "grant"
type_text transaction_request = "transaction_request"

-- The `switch` of the factory; `none` is its `default`.
unfoldable pub get_message_handler : Value → Option MessageType
get_message_handler v =
    if is_text v (type_text grant)
    then some grant
    else if is_text v (type_text credit_transaction)
    then some credit_transaction
    else if is_text v (type_text transaction_request)
    then some transaction_request
    else none

-- An entry of a report.
abbrev pub report_record : AgentTransaction → Value
report_record r = object (
    ("order", num r.merkel_order)
    ∷ ("transactionId", r.transaction_id)
    ∷ ("typeId", r.type_id)
    ∷ ("subjectId", r.subject_id)
    ∷ ("txDate", r.transaction_date)
    ∷ ("amount", r.amount)
    ∷ ("credentialId", r.credential_id)
    ∷ ("hash", r.issuer_hash)
    ∷ ("details", r.transaction_details)
    ∷ [])

module _ (env : Env) (agent_id : String) (admin_api_key connection_id : Value) where
  -- The request that both handlers send, with a message of aries-controller.
  abbrev pub message_request : Value → HttpRequest
  message_request msg = record {
    method = "POST";
    url =
        "http://"
        ⧺ agent_id
        ⧺ ":"
        ⧺ variable_text (env.var "AGENT_ADMIN_PORT")
        ⧺ "/connections/"
        ⧺ to_text connection_id
        ⧺ "/send-message";
    headers = ("x-api-key", admin_api_key) ∷ [];
    body = object (("content", str (stringify msg)) ∷ []);
  }

  abbrev pub credit_message : State → Value → Value → Value
  credit_message state id event =
      env.credit_transaction
        (object (("state", str (state_text state)) ∷ ("id", id) ∷ ("transaction", event) ∷ []))

  abbrev pub report_message : State → Value → Value → String → Value
  report_message state id tdc_fsp_id report = env.transaction_report_request (
      object (
        ("id", id)
        ∷ ("state", str (state_text state))
        ∷ ("tdcFspId", tdc_fsp_id)
        ∷ ("transactions", str report)
        ∷ []))

  unfoldable pub send_message : Value → M Value
  send_message msg = do res ← perform env (request_with_retry (message_request msg)); pure res.body

  -- GrantMessageHandler.respond: both branches only log.
  unfoldable pub respond_to_grant : Value → M Bool
  unfolding get_prop
  respond_to_grant message = do state ← lift (get_prop "state" message); pure false

  -- The record of a transaction, its properties read from the message in the order of the source.
  unfoldable pub new_record : Value → Optional Num → M AgentTransaction
  unfolding get_prop
  new_record message max = do
    id ← lift (get_prop "id" message)
    transaction ← lift (get_prop "transaction" message)
    event_date ← lift (get_prop "eventDate" transaction)
    fsp_hash ← lift (get_prop "fspHash" transaction)
    fsp_id ← lift (get_prop "fspId" transaction)
    merkel_hash ← lift (env.hash32 fsp_hash)
    credential_id ← lift (get_prop "credentialId" message)
    date ← lift (get_prop "date" transaction)
    type_id ← lift (get_prop "typeId" transaction)
    subject_id ← lift (get_prop "subjectId" transaction)
    amount ← lift (get_prop "amount" transaction)
    event_json ← lift (get_prop "eventJson" transaction)
    pure (record {
      id = absent;
      agent_id = agent_id;
      fsp_id = fsp_id;
      transaction_id = id;
      merkel_order = add_one_to max;
      merkel_hash = merkel_hash;
      event_date = event_date;
      transaction_date = date;
      issuer_hash = fsp_hash;
      credential_id = credential_id;
      type_id = type_id;
      subject_id = subject_id;
      amount = amount;
      transaction_details = event_json;
    })

  -- The branch of TransactionMessageHandler.respond for a transaction that has started.
  unfoldable pub start_transaction : Value → M Bool
  unfolding get_prop
  start_transaction message = do
    max ← get_max_merkel_order env
    new ← new_record message max
    save_record env new
    id ← lift (get_prop "id" message)
    transaction ← lift (get_prop "transaction" message)
    send_message (credit_message accepted id transaction)
    pure false

  unfoldable pub respond_to_transaction : Value → M Bool
  unfolding get_prop
  respond_to_transaction message = do
    state ← lift (get_prop "state" message)
    if is_state state started then start_transaction message else pure false

  -- ReportMessageHandler.respond, for a request that has started.
  unfoldable pub start_report : Value → M Bool
  unfolding get_prop
  start_report message = do
    id ← lift (get_prop "id" message)
    tdc_fsp_id ← lift (get_prop "tdcFspId" message)
    send_message (report_message accepted id tdc_fsp_id "")
    transactions ← get_all_transactions env agent_id
    send_message (
        report_message completed id tdc_fsp_id (stringify (array (map report_record transactions))))
    pure false

  unfoldable pub respond_to_report : Value → M Bool
  unfolding get_prop
  respond_to_report message = do
    state ← lift (get_prop "state" message)
    if is_state state started then start_report message else pure false

  -- The handler of a type responds.
  abbrev pub respond : MessageType → Value → M Bool
  respond grant = respond_to_grant
  respond credit_transaction = respond_to_transaction
  respond transaction_request = respond_to_report
