-- ===== src/Transactions/Messaging/Steps.antt =====
-- TransactionMessageHandler.respond, call by call.
use aries_guardianship_agenc.Base.{String, Bool, false, [], ◌≡◌, ap, ◌∙◌, if◌then◌else◌}
use aries_guardianship_agenc.Js.Number.{Num}
use aries_guardianship_agenc.Js.Value.{Value, Optional}
use aries_guardianship_agenc.Entity.{AgentTransaction}
use aries_guardianship_agenc.Effects.{
  Env, Result, ok, get_prop, pure, lift, ◌>>◌, ◌>>=◌, request_with_retry, save_transaction,
  select_max_merkel_order,
}
use aries_guardianship_agenc.Effects.Laws.{CallFree, call_free_rules}
use aries_guardianship_agenc.Effects.Ensures.{
  Ensures, Anything, Ensures-then, Ensures-pure, Ensures-returned,
}
use aries_guardianship_agenc.Effects.Process.{
  Process, ends, asks, ◌then◌, Runs, Runs-then, Runs-after, Runs-assoc, Runs-asks, Runs-pure,
  Runs-if, Runs-CallFree,
}
use aries_guardianship_agenc.Transactions.Persistence.{add_one_to, read_max, get_max_merkel_order}
use aries_guardianship_agenc.Transactions.Messaging.{
  accepted, started, is_state, message_request, credit_message, new_record, send_message,
  start_transaction, respond_to_transaction,
}

module _ (env : Env) (agent_id : String) (key connection_id : Value) where
  -- The record makes no call.
  abbrev pub record_result : Value → Optional Num → Result AgentTransaction
  record_result message max = (new_record env agent_id key connection_id message max []).0

  abbrev pub accept_process : Value → Value → Value → Process Bool
  accept_process message id transaction =
      asks
        (request_with_retry (
          message_request env agent_id key connection_id
            (credit_message env agent_id key connection_id accepted id transaction)))
        (λ res. ends (ok false))

  abbrev pub accept_record : Value → Process Bool
  accept_record message = ends (get_prop "id" message) then λ id.
      ends (get_prop "transaction" message) then λ transaction.
      accept_process message id transaction

  unfoldable pub start_process : Value → Process Bool
  unfolding get_prop
  start_process message = asks select_max_merkel_order λ rows. ends (read_max rows) then λ max.
      ends (record_result message max) then λ new.
      asks (save_transaction new) λ done. accept_record message

  unfoldable pub respond_process : Value → Process Bool
  unfolding get_prop
  respond_process message = ends (get_prop "state" message) then λ state.
      if is_state state started then start_process message else ends (ok false)

  new_record-CallFree :
      (message : Value) (max : Optional Num)
      → CallFree (new_record env agent_id key connection_id message max)
  unfolding new_record
  new_record-CallFree message max = search call_free_rules depth 20

  new_record-Ensures :
      (message : Value) (max : Optional Num)
      → Ensures Anything
          (new_record env agent_id key connection_id message max)
          (λ new t. new.merkel_order ≡ add_one_to max)
  unfolding new_record
  new_record-Ensures message max = search (Ensures-then, Ensures-pure) depth 20

  -- The order of a record that is made.
  pub record_result-order :
      (message : Value) (max : Optional Num) (new : AgentTransaction)
      → record_result message max ≡ ok new
      → new.merkel_order ≡ add_one_to max
  record_result-order message max new e =
      Ensures-returned (new_record-Ensures message max) tt
        ((new_record-CallFree message max).at [] ∙ ap (λ r. (r, [])) e)

  accept_record-Runs :
      (message : Value)
      → Runs env (accept_record message) (do
        id ← lift (get_prop "id" message)
        transaction ← lift (get_prop "transaction" message)
        send_message env agent_id key connection_id
            (credit_message env agent_id key connection_id accepted id transaction)
        pure false)
  unfolding send_message
  accept_record-Runs message = Runs-then env _ _ _ λ id. Runs-then env _ _ _ λ transaction.
      Runs-assoc env _ _ _ _ (Runs-asks env _ _ _ λ res. Runs-after env _ _ _ (Runs-pure env false))

  -- The process of a handler of transactions, run alone, gives for every message, after any calls and
  -- whatever they are answered, the result and the calls of the method `respond`.
  pub respond_process-Runs :
      (message : Value)
      → Runs env
          (respond_process message)
          (respond_to_transaction env agent_id key connection_id message)
  unfolding respond_process start_process respond_to_transaction start_transaction
      get_max_merkel_order
  respond_process-Runs message = Runs-then env _ _ _ λ state.
      Runs-if env _ _ _ _ _
        (Runs-assoc env _ _ _ _ (
          Runs-asks env _ _ _ λ rows. Runs-then env _ _ _ λ max.
            Runs-CallFree env _ _ _ (new_record-CallFree message max)
              λ new. Runs-asks env _ _ _ λ done. accept_record-Runs message))
        (Runs-pure env false)
