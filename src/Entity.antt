-- ===== src/Entity.antt =====
-- The table of transactions (src/transactions/persistence/agent.transaction.ts). The handlers copy
-- most columns out of a message of any shape, so those are values.
use aries_guardianship_agenc.Base.{ℕ, String}
use aries_guardianship_agenc.Js.Number.{Num}
use aries_guardianship_agenc.Js.Value.{Value, Optional}

-- `id` is the database's: a record that is not saved has none.
pub record AgentTransaction : Type 0 where
  pub id : Optional ℕ
  pub agent_id : String
  pub fsp_id : Value
  pub transaction_id : Value
  pub merkel_order : Num
  pub merkel_hash : Value
  pub event_date : Value
  pub transaction_date : Value
  pub issuer_hash : Value
  pub credential_id : Value
  pub type_id : Value
  pub subject_id : Value
  pub amount : Value
  pub transaction_details : Value
