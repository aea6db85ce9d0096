-- ===== src/Transactions/Messaging/Merkel.antt =====
-- The order that a transaction is recorded with, when the messages of an agent come one by one.
use aries_guardianship_agenc.Base.{String, Bool, true, false, List, ◌∷◌, ◌≡◌, arith}
use aries_guardianship_agenc.Js.Number.{Num}
use aries_guardianship_agenc.Js.Value.{Value, Fields, obj, Optional, absent, lookup_field}
use aries_guardianship_agenc.Entity.{AgentTransaction}
use aries_guardianship_agenc.Effects.{
  Env, Result, ok, err, Trace, HttpRequest, HttpResponse, ◌>>=◌, get_prop, request_with_retry,
  MaxRow, select_max_merkel_order, save_transaction,
}
use aries_guardianship_agenc.Transactions.Persistence.{get_max_merkel_order, add_one_to, read_max}
use aries_guardianship_agenc.Transactions.Messaging.{
  accepted, started, is_state, message_request, credit_message, start_transaction, send_message,
  new_record, respond_to_transaction,
}

module _ (env : Env) (agent_id : String) (key connection_id : Value) (ms event : Fields)
    (t : Trace) where
  -- The record of the message, its hash and order given.
  abbrev pub record_of : Value → Num → AgentTransaction
  record_of hash order = record {
    id = absent;
    agent_id = agent_id;
    fsp_id = lookup_field "fspId" event;
    transaction_id = lookup_field "id" ms;
    merkel_order = order;
    merkel_hash = hash;
    event_date = lookup_field "eventDate" event;
    transaction_date = lookup_field "date" event;
    issuer_hash = lookup_field "fspHash" event;
    credential_id = lookup_field "credentialId" ms;
    type_id = lookup_field "typeId" event;
    subject_id = lookup_field "subjectId" event;
    amount = lookup_field "amount" event;
    transaction_details = lookup_field "eventJson" event;
  }

  abbrev pub acceptance : HttpRequest
  acceptance =
      message_request env agent_id key connection_id
        (credit_message env agent_id key connection_id accepted (lookup_field "id" ms) (obj event))

  abbrev pub answered : Result HttpResponse → Result Bool
  answered (ok res) = ok false
  answered (err e) = err e

  -- What follows the attempt to save.
  abbrev pub saved : Result (Unit {0}) → Trace → Result Bool × Trace
  saved (err e) s = (err e, s)
  saved (ok done) s =
      (answered (env.reply s (request_with_retry acceptance)), request_with_retry acceptance ∷ s)

  -- A transaction that has started, by a message and an event that are objects with a hash: its
  -- record, with the properties that the message gives, is saved with the order behind the largest
  -- one of the table; the acceptance is sent if the record is saved, and nothing is sent if not.
  pub respond_to_transaction-started :
      (rows : List MaxRow) (max : Optional Num) (hash : Value)
      → is_state (lookup_field "state" ms) started ≡ true
      → lookup_field "transaction" ms ≡ obj event
      → env.hash32 (lookup_field "fspHash" event) ≡ ok hash
      → env.reply t select_max_merkel_order ≡ ok rows
      → read_max rows ≡ ok max
      → respond_to_transaction env agent_id key connection_id (obj ms) t
        ≡ saved
            (env.reply
              (select_max_merkel_order ∷ t)
              (save_transaction (record_of hash (add_one_to max))))
            (save_transaction (record_of hash (add_one_to max)) ∷ select_max_merkel_order ∷ t)
  unfolding respond_to_transaction start_transaction new_record get_max_merkel_order send_message
      get_prop ◌>>=◌
  respond_to_transaction-started rows max hash is_started given_event hashed selected read =
      rw is_started (rw selected (rw read (rw given_event (rw hashed (ground arith)))))
