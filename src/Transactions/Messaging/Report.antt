-- ===== src/Transactions/Messaging/Report.antt =====
-- What a TDC is sent for a request of a report.
use aries_guardianship_agenc.Base.{String, Bool, true, false, List, [], ◌∷◌, ◌≡◌, map, arith, ◌⧺◌}
use aries_guardianship_agenc.Js.Value.{
  Value, Fields, num, str, obj, array, object, lookup_field, variable_text, to_text,
}
use aries_guardianship_agenc.Js.Json.{stringify}
use aries_guardianship_agenc.Entity.{AgentTransaction}
use aries_guardianship_agenc.Effects.{
  Env, Result, ok, err, Trace, HttpRequest, HttpResponse, ◌>>=◌, get_prop, request_with_retry,
  find_transactions,
}
use aries_guardianship_agenc.Transactions.Messaging.{
  State, accepted, completed, started, state_text, is_state, send_message, start_report,
  respond_to_report,
}

module _ (env : Env) (agent_id : String) (key connection_id : Value) (ms : Fields) (t : Trace) where
  -- The request that tells the state of the report: a message to the connection, by the agent, with
  -- the id and the TDC of the message that is answered.
  abbrev told : State → String → HttpRequest
  told state report = record {
    method = "POST";
    url =
        "http://"
        ⧺ agent_id
        ⧺ ":"
        ⧺ variable_text (env.var "AGENT_ADMIN_PORT")
        ⧺ "/connections/"
        ⧺ to_text connection_id
        ⧺ "/send-message";
    headers = ("x-api-key", key) ∷ [];
    body = object (
        (
          "content",
          str (
              stringify (
                env.transaction_report_request (
                  object (
                    ("id", lookup_field "id" ms)
                    ∷ ("state", str (state_text state))
                    ∷ ("tdcFspId", lookup_field "tdcFspId" ms)
                    ∷ ("transactions", str report)
                    ∷ [])))),
        )
        ∷ []);
  }

  abbrev pub tell : State → String → Trace → Trace
  tell state report s = request_with_retry (told state report) ∷ s

  -- A record as the TDC gets it.
  abbrev told_record : AgentTransaction → Value
  told_record r = object (
      ("order", num r.merkel_order)
      ∷ ("transactionId", r.transaction_id)
      ∷ ("typeId", r.type_id)
      ∷ ("subjectId", r.subject_id)
      ∷ ("txDate", r.transaction_date)
      ∷ ("amount", r.amount)
      ∷ ("credentialId", r.credential_id)
      ∷ ("hash", r.issuer_hash)
      ∷ ("details", r.transaction_details)
      ∷ [])

  -- The report with all the records that the database gives, in its order.
  abbrev pub full_report : List AgentTransaction → String
  full_report records = stringify (array (map told_record records))

  -- How the handler ends when the last message has been answered.
  abbrev pub told_all : Result HttpResponse → Result Bool
  told_all (ok res) = ok false
  told_all (err e) = err e

  -- What the handler does when the database has answered.
  abbrev pub reported : Result (List AgentTransaction) → Trace → Result Bool × Trace
  reported (err e) s = (err e, s)
  reported (ok records) s = (
    told_all (env.reply s (request_with_retry (told completed (full_report records)))),
    tell completed (full_report records) s,
  )

  -- The same for the first message.
  abbrev pub accepted_or : Result HttpResponse → Trace → Result Bool × Trace
  accepted_or (err e) s = (err e, s)
  accepted_or (ok res) s =
      reported (env.reply s (find_transactions agent_id)) (find_transactions agent_id ∷ s)

  -- A request for a report that has started, by a message that is an object: by messages that the
  -- agent sends on the connection, with its key and the id of the request, the TDC is told that
  -- the request is accepted, then the records of the agent are read, and all of them, in the order
  -- of the database, are sent with the completion. If the first message cannot be sent or the
  -- records cannot be read, the handler stops there with the exception, and no report is sent.
  pub respond_to_report-started :
      is_state (lookup_field "state" ms) started ≡ true
      → respond_to_report env agent_id key connection_id (obj ms) t
        ≡ accepted_or (env.reply t (request_with_retry (told accepted ""))) (tell accepted "" t)
  unfolding respond_to_report start_report send_message get_prop ◌>>=◌
  respond_to_report-started is_started = rw is_started (ground arith)
