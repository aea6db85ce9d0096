-- ===== src/Transactions/Messaging/Sequence.antt =====
-- Any messages of transactions, one behind the other, where queries, saves and requests may fail.
use mathlib.Core.Path.{subst}
use aries_guardianship_agenc.Base.{
  ℕ, suc, ◌≤◌, String, Bool, List, [], ◌∷◌, ◌≡◌, refl, ap, ◌∙◌, ◌⊎◌, inl, inr, arith, length,
}
use aries_guardianship_agenc.Js.Number.{nat}
use aries_guardianship_agenc.Js.Value.{Value}
use aries_guardianship_agenc.Effects.{
  Env, ok, err, Call, Reply, Trace, MaxRow, select_max_merkel_order, save_transaction,
}
use aries_guardianship_agenc.Effects.Laws.{Result-cases}
use aries_guardianship_agenc.Effects.Process.{Process, asks, run}
use aries_guardianship_agenc.Transactions.Persistence.{max_or_zero, add_one_to, read_max}
use aries_guardianship_agenc.Transactions.Messaging.{respond_to_transaction}
use aries_guardianship_agenc.Transactions.Messaging.Chain.{
  Table, orders, largest, countdown, order-countdown,
}
use aries_guardianship_agenc.Transactions.Messaging.Steps.{respond_process-Runs}
use aries_guardianship_agenc.Transactions.Messaging.Pool.{
  Quiet, ended, sends, Saving, saving, Answered, Stands, quiet, reading,
}
use aries_guardianship_agenc.Transactions.Messaging.Pool.Begins.{respond_process-Stands}

pub record Message : Type 0 where
  pub agent_id : String
  pub key : Value
  pub connection_id : Value
  pub content : Value

module _ (env : Env) where
  -- The handler on each message, the last one first, whatever becomes of each.
  unfoldable pub handle_all : List Message → Trace
  handle_all [] = []
  handle_all (m ∷ earlier) =
      (respond_to_transaction env m.agent_id m.key m.connection_id m.content (handle_all earlier)).1

  -- What is left of a run once a call is answered.
  run-asks :
      (c : Call) (k : Reply c → Process Bool) (t : Trace) (P : Trace → Type 0)
      → ((e : _) → env.reply t c ≡ err e → P (c ∷ t))
      → ((a : Reply c) → env.reply t c ≡ ok a → P (run env (k a) (c ∷ t)).1)
      → P (run env (asks c k) t).1
  unfolding run
  run-asks c k t P failed answered = elim (Result-cases (env.reply t c)) [
    | inl (a, e) ↦ rw e (answered a e)
    | inr (x, e) ↦ rw e (failed x e)
  ]

  run-Quiet : (p : Process Bool) → Quiet p → (t : Trace) → orders env (run env p t).1 ≡ orders env t
  unfolding run
  run-Quiet _ (ended r) t = refl
  run-Quiet _ (sends q k h) t =
      run-asks _ k t (λ s. orders env s ≡ orders env t) (λ x e. refl)
        (λ a e. run-Quiet (k a) (h a) _)

  -- The table is as it was, or has one order more.
  abbrev Counted : ℕ → Trace → Type 0
  Counted n t = (orders env t ≡ countdown n) ⊎ (orders env t ≡ countdown (suc n))

  run-Saving :
      (p : Process Bool) (n : ℕ) (t : Trace)
      → Saving (nat (suc n)) p
      → orders env t ≡ countdown n
      → Counted n (run env p t).1
  run-Saving _ n t (saving r k order h) counted =
      run-asks (save_transaction r) k t (Counted n) (λ x e. inl (rw e counted))
        (λ a e. inr (
          run-Quiet (k a) (h a) (save_transaction r ∷ t)
          ∙ rw e (ap (λ m. m ∷ orders env t) order ∙ ap (λ l. nat (suc n) ∷ l) counted)))

  module _ (table : Table env) where
    rows-Answered :
        (rows : List MaxRow) (p : Process Bool) (n : ℕ) (t : Trace)
        → env.reply t select_max_merkel_order ≡ ok rows
        → Answered rows p
        → orders env t ≡ countdown n
        → Counted n (run env p (select_max_merkel_order ∷ t)).1
    unfolding read_max
    rows-Answered rows p n t e (inl q) counted = inl (run-Quiet p q _ ∙ counted)
    rows-Answered rows p n t e (inr (max, read, s)) counted =
        let known : read_max rows ≡ ok (max_or_zero (largest (countdown n))) =
          ap read_max (table.selects t rows e) ∙ ap (λ l. ok (max_or_zero (largest l))) counted in
        let same : max ≡ max_or_zero (largest (countdown n)) = cc (read, known) in
        run-Saving p n (select_max_merkel_order ∷ t)
          (subst (λ m. Saving m p) (ap add_one_to same ∙ order-countdown n) s) counted

    run-Stands :
        (p : Process Bool) (n : ℕ) (t : Trace)
        → Stands p []
        → orders env t ≡ countdown n
        → Counted n (run env p t).1
    run-Stands p n t (quiet _ q) counted = inl (run-Quiet p q t ∙ counted)
    run-Stands _ n t (reading k h) counted =
        run-asks select_max_merkel_order k t (Counted n) (λ x e. inl counted)
          (λ rows e. rows-Answered rows (k rows) n t e (h rows) counted)

    -- Whatever messages arrive, for whatever agents, and are handled one behind the other, and
    -- whichever queries, saves and requests fail, on a table that is empty and knows the records
    -- that were saved: its orders are 1, 2, 3, … without a gap and without a repetition, and there
    -- are at most as many as messages.
    pub orders-handle_all :
        (messages : List Message)
        → (n : ℕ) × (n ≤ length messages) × (orders env (handle_all messages) ≡ countdown n)
    unfolding handle_all
    orders-handle_all [] = (0, omega arith, refl)
    orders-handle_all (m ∷ earlier) =
        let (n, few, counted) = orders-handle_all earlier in
        elim (subst (Counted n)
          (ap (λ o. o.1)
            ((respond_process-Runs env m.agent_id m.key m.connection_id m.content).at
              (handle_all earlier)))
          (run-Stands _ n (handle_all earlier)
            (respond_process-Stands env m.agent_id m.key m.connection_id m.content) counted)) [
              | inl same ↦ (n, omega arith, same)
              | inr more ↦ (suc n, omega arith, more)
            ]
