-- ===== src/Transactions/Schema/Refused.antt =====
-- Transactions whose record the table does not take.
use aries_guardianship_agenc.Base.{String, true, false, ◌∷◌, ◌≡◌}
use aries_guardianship_agenc.Js.Value.{Value}
use aries_guardianship_agenc.Entity.{AgentTransaction}
use aries_guardianship_agenc.Effects.{
  Env, err, Thrown, Trace, HttpRequest, request_with_retry, save_transaction,
  select_max_merkel_order,
}
use aries_guardianship_agenc.Effects.Keeps.{Keeps}
use aries_guardianship_agenc.Effects.Ensures.{Ensures}
use aries_guardianship_agenc.Transactions.Schema.{table_columns, breaks}

-- A database that refuses a record which violates a column of the table.
pub record Checks (env : Env) : Type 0 where
  pub refuses :
      (t : Trace) (r : AgentTransaction)
      → breaks table_columns r ≡ true
      → (e : Thrown) × (env.reply t (save_transaction r) ≡ err e)

module _ (env : Env) (checks : Checks env) (agent_id : String) (key connection_id : Value)
    (t : Trace) where
  -- One record was saved, and it violates no column.
  abbrev IsSaved : Trace → Type 0
  IsSaved s =
      (r : AgentTransaction) × (s ≡ save_transaction r ∷ select_max_merkel_order ∷ t)
      × (breaks table_columns r ≡ false)

  abbrev pub IsAccepted : Trace → Type 0
  IsAccepted s =
      (r : AgentTransaction) × (q : HttpRequest) × (s
        ≡ request_with_retry q ∷ save_transaction r ∷ select_max_merkel_order ∷ t)
      × (breaks table_columns r ≡ false)
