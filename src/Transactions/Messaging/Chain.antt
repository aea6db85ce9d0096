-- ===== src/Transactions/Messaging/Chain.antt =====
-- The orders that a table gets from the messages of an agent, one behind the other.
use aries_guardianship_agenc.Base.{
  ℕ, ◌+◌, zero, suc, String, Bool, true, false, List, [], ◌∷◌, ◌≡◌, refl, ap, ◌∙◌, arith,
  if◌then◌else◌, length,
}
use aries_guardianship_agenc.Js.Number.{Num, nat}
use aries_guardianship_agenc.Js.Value.{
  Value, Fields, obj, Optional, absent, nothing, given, lookup_field,
}
use aries_guardianship_agenc.Entity.{AgentTransaction}
use aries_guardianship_agenc.Effects.{
  Env, Result, ok, err, Trace, MaxRow, select_max_merkel_order, save_transaction,
}
use aries_guardianship_agenc.Manager.{greater}
use aries_guardianship_agenc.Transactions.Persistence.{max_or_zero, add_one_to, read_max}
use aries_guardianship_agenc.Transactions.Messaging.{started, is_state, respond_to_transaction}
use aries_guardianship_agenc.Transactions.Messaging.Merkel.{
  record_of, saved, respond_to_transaction-started,
}

abbrev pub is_ok : {A : Type 0} → Result A → Bool
is_ok (ok a) = true
is_ok (err e) = false

-- The orders of the records whose save has worked, the last one first.
abbrev pub orders : Env → Trace → List Num
orders env [] = []
orders env (save_transaction r ∷ t) =
    let rest = orders env t in
    if is_ok (env.reply t (save_transaction r)) then r.merkel_order ∷ rest else rest
orders env (_ ∷ t) = orders env t

unfoldable pub above : Num → Optional Num → Num
above n absent = n
above n nothing = n
above n (given m) = if greater n m then n else m

-- SQL's MAX
unfoldable pub largest : List Num → Optional Num
unfolding above
largest [] = nothing
largest (n ∷ ns) = given (above n (largest ns))

-- A database that knows the records that were saved. A query or a save may fail, and a save that
-- has failed leaves the table as it is.
pub record Table (env : Env) : Type 0 where
  pub selects :
      (t : Trace) (rows : List MaxRow)
      → env.reply t select_max_merkel_order ≡ ok rows
      → rows ≡ record { max = largest (orders env t) } ∷ []

-- One whose saves and queries all work.
pub record Works (env : Env) : Type 0 where
  pub saves : (t : Trace) (r : AgentTransaction) → env.reply t (save_transaction r) ≡ ok tt
  pub answers_lem :
      (t : Trace) → (rows : List MaxRow) × (env.reply t select_max_merkel_order ≡ ok rows)

-- Such a database answers with the largest order.
pub selects-largest :
    (env : Env)
    → Table env
    → Works env
    → (t : Trace)
    → env.reply t select_max_merkel_order ≡ ok (record { max = largest (orders env t) } ∷ [])
selects-largest env table works t =
    let (rows, answered) = works.answers_lem t in answered ∙ ap ok (table.selects t rows answered)

pub orders-save_transaction :
    (env : Env)
    → Works env
    → (r : AgentTransaction) (t : Trace)
    → orders env (save_transaction r ∷ t) ≡ r.merkel_order ∷ orders env t
orders-save_transaction env works r t = rw (works.saves t r) refl

-- n, …, 2, 1
abbrev pub countdown : ℕ → List Num
countdown zero = []
countdown (suc n) = nat (suc n) ∷ countdown n

abbrev top : ℕ → Optional Num
top zero = nothing
top (suc n) = given (nat (suc n))

above_next : (n : ℕ) → above (nat (suc (suc n))) (given (nat (suc n))) ≡ nat (suc (suc n))
unfolding above greater
above_next n = ground arith

largest-countdown : (n : ℕ) → largest (countdown n) ≡ top n
unfolding largest
largest-countdown zero = refl
largest-countdown (suc zero) = unfold above in refl
largest-countdown (suc (suc n)) =
    ap given (ap (above (nat (suc (suc n)))) (largest-countdown (suc n)) ∙ above_next n)

next_order : (n : ℕ) → add_one_to (max_or_zero (top n)) ≡ nat (suc n)
next_order zero = refl
next_order (suc n) = ground arith

-- The order behind those of a table that has 1, …, n.
pub order-countdown : (n : ℕ) → add_one_to (max_or_zero (largest (countdown n))) ≡ nat (suc n)
order-countdown n = ap (λ o. add_one_to (max_or_zero o)) (largest-countdown n) ∙ next_order n

read_one : (max : Optional Num) → read_max (record { max = max } ∷ []) ≡ ok (max_or_zero max)
unfolding read_max
read_one max = refl

-- A message of a transaction that has started, with a hash.
pub record IsStarted (env : Env) (ms : Fields) : Type 0 where
  pub event : Fields
  pub hash : Value
  pub state_lem : is_state (lookup_field "state" ms) started ≡ true
  pub transaction_lem : lookup_field "transaction" ms ≡ obj event
  pub hash_lem : env.hash32 (lookup_field "fspHash" event) ≡ ok hash

abbrev pub AllStarted : Env → List Fields → Type 0
AllStarted env [] = Unit
AllStarted env (ms ∷ rest) = IsStarted env ms × AllStarted env rest

-- The handler on each message, one behind the other, whatever becomes of each.
module _ (env : Env) (agent_id : String) (key connection_id : Value) where
  unfoldable pub respond_all : List Fields → Trace → Trace
  respond_all [] t = t
  respond_all (ms ∷ rest) t =
      respond_all rest (respond_to_transaction env agent_id key connection_id (obj ms) t).1

  -- The order stays in the table, whether or not the acceptance is sent.
  orders-saved :
      (ms event : Fields) (n : Num) (hash : Value) (t : Trace)
      → Works env
      → let new = save_transaction (record_of env agent_id key connection_id ms event t hash n) in
        orders env
          (saved env agent_id key connection_id ms event t
            (env.reply (select_max_merkel_order ∷ t) new)
            (new ∷ select_max_merkel_order ∷ t)).1
        ≡ n ∷ orders env t
  orders-saved ms event n hash t works =
      let e =
        works.saves (select_max_merkel_order ∷ t)
          (record_of env agent_id key connection_id ms event t hash n) in
      rw e (rw e refl)

  module _ (table : Table env) (works : Works env) where
    orders-respond :
        (ms : Fields) (t : Trace) (n : ℕ)
        → IsStarted env ms
        → orders env t ≡ countdown n
        → orders env (respond_to_transaction env agent_id key connection_id (obj ms) t).1
          ≡ countdown (suc n)
    orders-respond ms t n is h =
        let handled =
          respond_to_transaction-started env agent_id key connection_id ms is.event t
            (record { max = largest (orders env t) } ∷ []) (max_or_zero (largest (orders env t)))
            is.hash is.state_lem is.transaction_lem is.hash_lem (selects-largest env table works t)
            (read_one (largest (orders env t))) in
        ap (λ o. orders env o.1) handled
        ∙ orders-saved ms is.event _ is.hash t works
        ∙ (rw h (ap (λ k. k ∷ countdown n) (order-countdown n)))

    orders-respond_from :
        (messages : List Fields) (t : Trace) (n : ℕ)
        → AllStarted env messages
        → orders env t ≡ countdown n
        → orders env (respond_all messages t) ≡ countdown (length messages + n)
    unfolding respond_all
    orders-respond_from [] t n all h = rw h (ap countdown (omega arith))
    orders-respond_from (ms ∷ rest) t n (is, all) h =
        orders-respond_from rest _ (suc n) all (orders-respond ms t n is h)
        ∙ ap countdown (omega arith)

    -- Transactions that have started and are handled one behind the other, on a table that is empty
    -- and saves every record, get the orders 1, 2, 3, … without a gap and without a repetition,
    -- whether or not their acceptances can be sent.
    pub orders-respond_all :
        (messages : List Fields)
        → AllStarted env messages
        → orders env (respond_all messages []) ≡ countdown (length messages)
    orders-respond_all messages all =
        orders-respond_from messages [] 0 all refl ∙ ap countdown (omega arith)
