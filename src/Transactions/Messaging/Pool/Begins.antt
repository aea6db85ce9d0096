-- ===== src/Transactions/Messaging/Pool/Begins.antt =====
-- Where a handler stands when its message arrives.
use aries_guardianship_agenc.Base.{
  String, Bool, true, false, List, [], ◌≡◌, refl, inl, inr, if◌then◌else◌,
}
use aries_guardianship_agenc.Js.Number.{Num}
use aries_guardianship_agenc.Js.Value.{Value, Optional}
use aries_guardianship_agenc.Entity.{AgentTransaction}
use aries_guardianship_agenc.Effects.{Env, Result, ok, err, MaxRow, get_prop, save_transaction}
use aries_guardianship_agenc.Effects.Process.{Process, ends, asks, ◌then◌}
use aries_guardianship_agenc.Transactions.Persistence.{read_max}
use aries_guardianship_agenc.Transactions.Messaging.{started, is_state}
use aries_guardianship_agenc.Transactions.Messaging.Steps.{
  record_result, accept_record, start_process, respond_process, record_result-order,
}
use aries_guardianship_agenc.Transactions.Messaging.Pool.{
  Quiet, ended, sends, saving, Answered, Stands, quiet, reading,
}

then-Quiet :
    {A : Type 0} (r : Result A) (f : A → Process Bool)
    → ((a : A) → Quiet (f a))
    → Quiet (ends r then f)
then-Quiet (ok a) f h = h a
then-Quiet (err e) f h = ended (err e)

module _ (env : Env) (agent_id : String) (key connection_id : Value) where
  accept_record-Quiet :
      (message : Value) → Quiet (accept_record env agent_id key connection_id message)
  accept_record-Quiet message = then-Quiet (get_prop "id" message) _ λ id.
      then-Quiet (get_prop "transaction" message) _
        λ transaction. sends _ _ (λ res. ended (ok false))

  record-Answered :
      (message : Value) (max : Optional Num) (rows : List MaxRow)
      → read_max rows ≡ ok max
      → (r : Result AgentTransaction) → record_result env agent_id key connection_id message max ≡ r
      → Answered rows (
          ends r then λ new.
          asks (save_transaction new) λ done. accept_record env agent_id key connection_id message)
  record-Answered message max rows read (ok new) e = inr (
    max,
    read,
    saving new _ (record_result-order env agent_id key connection_id message max new e)
        (λ done. accept_record-Quiet message),
  )
  record-Answered message max rows read (err x) e = inl (ended (err x))

  max-Answered :
      (message : Value) (rows : List MaxRow) (r : Result (Optional Num))
      → read_max rows ≡ r
      → Answered rows (
          ends r then λ max.
          ends (record_result env agent_id key connection_id message max) then λ new.
          asks (save_transaction new) λ done. accept_record env agent_id key connection_id message)
  max-Answered message rows (ok max) e =
      record-Answered message max rows e (record_result env agent_id key connection_id message max)
        refl
  max-Answered message rows (err x) e = inl (ended (err x))

  state-Stands :
      (message : Value) (r : Result Value)
      → Stands
          (ends r then λ state.
            if is_state state started
            then start_process env agent_id key connection_id message
            else ends (ok false))
          []
  unfolding start_process
  state-Stands message (ok state) = branch (is_state state started)
    where
      branch :
          (b : Bool)
          → Stands
              (if b then start_process env agent_id key connection_id message else ends (ok false))
              []
      branch true = reading _ (λ rows. max-Answered message rows (read_max rows) refl)
      branch false = quiet _ (ended (ok false))
  state-Stands message (err x) = quiet _ (ended (err x))

  -- A handler begins with no order.
  pub respond_process-Stands :
      (message : Value) → Stands (respond_process env agent_id key connection_id message) []
  unfolding respond_process
  respond_process-Stands message = state-Stands message (get_prop "state" message)
