-- ===== src/Transactions/Messaging/Pool.antt =====
-- Any number of handlers of transactions at work, interleaved at their calls, against the steps of
-- Transactions/Messaging/Interleaving.
pub mod Begins
pub mod Collision
pub mod Reached
pub mod Refines
use mathlib.Core.Path.{subst}
use aries_guardianship_agenc.Base.{
  ℕ, String, Bool, true, false, List, [], ◌∷◌, ◌++◌, map, ◌≡◌, refl, ap, sym, ◌∙◌, ◌⊎◌, inl, inr,
  arith, if◌then◌else◌,
}
use aries_guardianship_agenc.Js.Number.{Num, nat}
use aries_guardianship_agenc.Js.Value.{Value, Optional}
use aries_guardianship_agenc.Entity.{AgentTransaction}
use aries_guardianship_agenc.Effects.{
  Env, Result, ok, err, Thrown, Call, Reply, Trace, HttpRequest, MaxRow, get_prop,
  request_with_retry, save_transaction, select_max_merkel_order,
}
use aries_guardianship_agenc.Effects.Laws.{Result-cases}
use aries_guardianship_agenc.Effects.Process.{Process, ends, asks, ◌then◌}
use aries_guardianship_agenc.Transactions.Persistence.{max_or_zero, add_one_to, read_max}
use aries_guardianship_agenc.Transactions.Messaging.{started, is_state}
use aries_guardianship_agenc.Transactions.Messaging.Chain.{Table, orders, largest}
use aries_guardianship_agenc.Transactions.Messaging.Steps.{
  record_result, accept_record, start_process, respond_process, record_result-order,
}
use aries_guardianship_agenc.Transactions.Messaging.Interleaving.{
  Db, Step, reads, saves, next_order,
}

-- The calls that all handlers have made, and what is left of each.
pub record Pool : Type 0 where
  pub trace : Trace
  pub handlers : List (Process Bool)

module _ (env : Env) where
  -- A message arrives for an agent, with the key of the agent and the connection that it came over, or the call that a handler has made is answered, or fails.
  pub data PoolStep : Pool → Pool → Type 0 where
    arrives :
        (t : Trace) (handlers : List (Process Bool)) (agent_id : String)
        (key connection_id message : Value)
        → PoolStep
            (record { trace = t; handlers = handlers })
            (record {
              trace = t;
              handlers = respond_process env agent_id key connection_id message ∷ handlers;
            })
    answers :
        (t : Trace) (before after : List (Process Bool)) (c : Call) (k : Reply c → Process Bool)
        (a : Reply c)
        → env.reply t c ≡ ok a
        → PoolStep
            (record { trace = t; handlers = before ++ asks c k ∷ after })
            (record { trace = c ∷ t; handlers = before ++ k a ∷ after })
    fails :
        (t : Trace) (before after : List (Process Bool)) (c : Call) (k : Reply c → Process Bool)
        (e : Thrown)
        → env.reply t c ≡ err e
        → PoolStep
            (record { trace = t; handlers = before ++ asks c k ∷ after })
            (record { trace = c ∷ t; handlers = before ++ ends (err e) ∷ after })

-- A handler that leaves the table alone.
pub data Quiet : Process Bool → Type 0 where
  ended : (r : Result Bool) → Quiet (ends r)
  sends :
      (q : HttpRequest) (k : Reply (request_with_retry q) → Process Bool)
      → ((a : Reply (request_with_retry q)) → Quiet (k a))
      → Quiet (asks (request_with_retry q) k)

-- One that is about to save a record of this order.
pub data Saving (n : Num) : Process Bool → Type 0 where
  saving :
      (r : AgentTransaction) (k : Reply (save_transaction r) → Process Bool)
      → r.merkel_order ≡ n
      → ((a : Reply (save_transaction r)) → Quiet (k a))
      → Saving n (asks (save_transaction r) k)

-- What follows the rows of the query.
abbrev pub Answered : List MaxRow → Process Bool → Type 0
Answered rows p =
    Quiet p ⊎ ((max : Optional Num) × (read_max rows ≡ ok max) × Saving (add_one_to max) p)

-- Where a handler stands, and the orders that it has read.
pub data Stands : Process Bool → List ℕ → Type 0 where
  quiet : (p : Process Bool) → Quiet p → Stands p []
  reading :
      (k : Reply select_max_merkel_order → Process Bool)
      → ((rows : List MaxRow) → Answered rows (k rows))
      → Stands (asks select_max_merkel_order k) []
  to_save : (p : Process Bool) (n : ℕ) → Saving (nat n) p → Stands p (n ∷ [])

pub data AllStand : List (Process Bool) → List ℕ → Type 0 where
  none : AllStand [] []
  more :
      (p : Process Bool) (ps : List (Process Bool)) (ms ns : List ℕ)
      → Stands p ms
      → AllStand ps ns
      → AllStand (p ∷ ps) (ms ++ ns)

-- The steps of a pool that matter: its orders in the table, and those its handlers have read.
pub record Shows (env : Env) (pool : Pool) (db : Db) : Type 0 where
  pub rows_lem : orders env pool.trace ≡ map nat db.rows
  pub pending_lem : AllStand pool.handlers db.pending
