-- ===== src/Transactions/Messaging/Pool/Collision.antt =====
-- Two handlers that come about the same order.
use mathlib.Core.Path.{subst}
use aries_guardianship_agenc.Base.{
  String, Bool, List, [], ◌∷◌, ◌++◌, ◌≡◌, refl, ap, ◌∙◌, arith, if◌then◌else◌,
}
use aries_guardianship_agenc.Js.Number.{Num}
use aries_guardianship_agenc.Js.Value.{Value, Fields, obj, Optional}
use aries_guardianship_agenc.Entity.{AgentTransaction}
use aries_guardianship_agenc.Effects.{
  Env, ok, Trace, get_prop, ◌>>=◌, MaxRow, save_transaction, select_max_merkel_order,
}
use aries_guardianship_agenc.Effects.Process.{Process, ends, asks, ◌then◌}
use aries_guardianship_agenc.Transactions.Persistence.{max_or_zero, add_one_to, read_max}
use aries_guardianship_agenc.Transactions.Messaging.{new_record}
use aries_guardianship_agenc.Transactions.Messaging.Chain.{
  Table, Works, selects-largest, orders, orders-save_transaction, largest, IsStarted,
}
use aries_guardianship_agenc.Transactions.Messaging.Merkel.{record_of}
use aries_guardianship_agenc.Transactions.Messaging.Steps.{
  record_result, accept_record, start_process, respond_process,
}
use aries_guardianship_agenc.Transactions.Messaging.Pool.{Pool, arrives, answers}
use aries_guardianship_agenc.Transactions.Messaging.Pool.Reached.{PoolReached, goes_on}

module _ (env : Env) (agent_id : String) (key connection_id : Value) (ms : Fields)
    (started : IsStarted env ms) where
  pub respond_process-started :
      respond_process env agent_id key connection_id (obj ms)
      ≡ start_process env agent_id key connection_id (obj ms)
  unfolding respond_process get_prop
  respond_process-started = rw started.state_lem refl

  -- The record of the message with the order behind the largest one.
  abbrev next_record : Optional Num → AgentTransaction
  next_record max =
      record_of env agent_id key connection_id ms started.event [] started.hash (add_one_to max)

  record_result-started :
      (max : Optional Num)
      → record_result env agent_id key connection_id (obj ms) max ≡ ok (next_record max)
  unfolding new_record get_prop ◌>>=◌
  record_result-started max = ground (arith, started.transaction_lem, started.hash_lem)

  abbrev to_accept : Process Bool
  to_accept = accept_record env agent_id key connection_id (obj ms)

  -- A handler once its query is answered.
  abbrev saves_next : Optional Num → Process Bool
  saves_next max = asks (save_transaction (next_record (max_or_zero max))) (λ done. to_accept)

  abbrev pub on_rows : List MaxRow → Process Bool
  on_rows rows = ends (read_max rows) then λ max.
      ends (record_result env agent_id key connection_id (obj ms) max) then λ new.
      asks (save_transaction new) λ done. to_accept

  on_rows-saves_next : (max : Optional Num) → on_rows (record { max = max } ∷ []) ≡ saves_next max
  unfolding read_max
  on_rows-saves_next max = rw (record_result-started (max_or_zero max)) refl

  pub start_process-on_rows :
      start_process env agent_id key connection_id (obj ms) ≡ asks select_max_merkel_order on_rows
  unfolding start_process
  start_process-on_rows = refl

  abbrev pub to_read : Process Bool
  to_read = asks select_max_merkel_order on_rows

  module _ (table : Table env) (works : Works env) where
    abbrev IsReached : Trace → List (Process Bool) → Type 0
    IsReached t handlers = PoolReached env (record { trace = t; handlers = handlers })

    arrived : (t : Trace) (hs : List (Process Bool)) → IsReached t hs → IsReached t (to_read ∷ hs)
    arrived t hs reached =
        subst (λ p. IsReached t (p ∷ hs)) (respond_process-started ∙ start_process-on_rows)
          (goes_on _ _ reached (arrives t hs agent_id key connection_id (obj ms)))

    has_read :
        (t : Trace) (before after : List (Process Bool))
        → IsReached t (before ++ to_read ∷ after)
        → IsReached
            (select_max_merkel_order ∷ t)
            (before ++ saves_next (largest (orders env t)) ∷ after)
    has_read t before after reached =
        subst (λ p. IsReached (select_max_merkel_order ∷ t) (before ++ p ∷ after))
          (on_rows-saves_next (largest (orders env t)))
          (goes_on _ _ reached (
            answers t before after select_max_merkel_order on_rows _
              (selects-largest env table works t)))

    has_saved :
        (t : Trace) (max : Optional Num) (before after : List (Process Bool))
        → IsReached t (before ++ saves_next max ∷ after)
        → IsReached
            (save_transaction (next_record (max_or_zero max)) ∷ t)
            (before ++ to_accept ∷ after)
    has_saved t max before after reached =
        goes_on _ _ reached (answers t before after _ (λ done. to_accept) tt (works.saves t _))

module _ (env : Env) (table : Table env) (works : Works env) (id id' : String)
    (key key' connection connection' : Value) (ms ms' : Fields) (started : IsStarted env ms)
    (started' : IsStarted env ms') where
  -- Whatever a pool has done so far, on a table where saves and queries work: two messages of transactions that have started may arrive, for
  -- one agent or for two, both queries be answered before either record is saved, and the two
  -- records then have the same order.
  pub PoolReached-twice :
      (a : Pool)
      → PoolReached env a
      → (n : Num) × (b : Pool) × PoolReached env b
        × (orders env b.trace ≡ n ∷ n ∷ orders env a.trace)
  PoolReached-twice a reached =
      let t = a.trace in
      let max = largest (orders env t) in
      let reads = to_read env id key connection ms started in
      let saves = saves_next env id key connection ms started max in
      let saves' = saves_next env id' key' connection' ms' started' max in
      let accepts' = to_accept env id' key' connection' ms' started' in
      let two =
        arrived env id' key' connection' ms' started' table works t (reads ∷ a.handlers)
          (arrived env id key connection ms started table works t a.handlers reached) in
      let one_read =
        has_read env id' key' connection' ms' started' table works t [] (reads ∷ a.handlers) two in
      let two_read =
        has_read env id key connection ms started table works (select_max_merkel_order ∷ t)
          (saves' ∷ []) a.handlers one_read in
      let one_saved =
        has_saved env id' key' connection' ms' started' table works _ max [] (saves ∷ a.handlers)
          two_read in
      let two_saved =
        has_saved env id key connection ms started table works _ max (accepts' ∷ []) a.handlers
          one_saved in
      (
        add_one_to (max_or_zero max),
        _,
        two_saved,
        orders-save_transaction env works _ _
            ∙ ap (λ l. add_one_to (max_or_zero max) ∷ l) (orders-save_transaction env works _ _),
      )
