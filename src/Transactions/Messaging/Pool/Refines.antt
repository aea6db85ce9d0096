-- ===== src/Transactions/Messaging/Pool/Refines.antt =====
-- Each step of a pool of handlers is a step of the orders, or leaves them as they are.
use mathlib.Core.Path.{subst}
use mathlib.Core.List.{append_assoc}
use aries_guardianship_agenc.Base.{
  ℕ, Bool, List, [], ◌∷◌, ◌++◌, map, ◌≡◌, refl, ap, sym, ◌∙◌, ◌⊎◌, inl, inr,
}
use aries_guardianship_agenc.Js.Number.{nat}
use aries_guardianship_agenc.Effects.{
  Env, ok, err, Thrown, Call, Reply, Trace, MaxRow, select_max_merkel_order,
}
use aries_guardianship_agenc.Effects.Process.{Process, ends, asks}
use aries_guardianship_agenc.Transactions.Persistence.{max_or_zero, add_one_to, read_max}
use aries_guardianship_agenc.Transactions.Messaging.Chain.{Table, orders, largest}
use aries_guardianship_agenc.Transactions.Messaging.Interleaving.{
  Db, Step, reads, saves, drops, next_order,
}
use aries_guardianship_agenc.Transactions.Messaging.Pool.{
  Pool, PoolStep, arrives, answers, fails, ended, sends, Saving, saving, Answered, Stands, quiet,
  reading, to_save, AllStand, more, Shows,
}
use aries_guardianship_agenc.Transactions.Messaging.Pool.Begins.{respond_process-Stands}

AllStand-split :
    (before after : List (Process Bool)) (p : Process Bool) (ns : List ℕ)
    → AllStand (before ++ p ∷ after) ns
    → (ns₁ : List ℕ) × (ms : List ℕ) × (ns₂ : List ℕ) × (ns ≡ ns₁ ++ (ms ++ ns₂))
      × Stands p ms
      × ((q : Process Bool) (ks : List ℕ)
          → Stands q ks
          → AllStand (before ++ q ∷ after) (ns₁ ++ (ks ++ ns₂)))
AllStand-split [] after p _ (more _ _ ms ns stands rest) =
    ([], ms, ns, refl, stands, λ q ks s. more q after ks ns s rest)
AllStand-split (b ∷ before) after p _ (more _ _ ms ns stands rest) =
    let (ns₁, ks, ns₂, e, s, put) = AllStand-split before after p ns rest in
    (
      ms ++ ns₁,
      ks,
      ns₂,
      ap (λ l. ms ++ l) e ∙ sym (append_assoc ms ns₁ (ks ++ ns₂)),
      s,
      λ q ls s'.
          subst (AllStand (b ∷ (before ++ q ∷ after))) (sym (append_assoc ms ns₁ (ls ++ ns₂)))
            (more b (before ++ q ∷ after) ms (ns₁ ++ (ls ++ ns₂)) stands (put q ls s')),
    )

result_of : {A : Type 0} {a b : A} → ok a ≡ ok b → a ≡ b
result_of e = cc e

-- What a call that is answered, or fails, has done to the orders.
data Moved (env : Env) (t : Trace) (rows : List ℕ) (c : Call) (q : Process Bool)
    : List ℕ → Type 0 where
  stays : orders env (c ∷ t) ≡ orders env t → Stands q [] → Moved env t rows c q []
  has_read :
      (n : ℕ)
      → orders env (c ∷ t) ≡ orders env t
      → add_one_to (max_or_zero (largest (map nat rows))) ≡ nat n
      → Stands q (n ∷ [])
      → Moved env t rows c q []
  has_saved :
      (n : ℕ)
      → orders env (c ∷ t) ≡ nat n ∷ orders env t
      → Stands q []
      → Moved env t rows c q (n ∷ [])
  has_dropped :
      (n : ℕ) → orders env (c ∷ t) ≡ orders env t → Stands q [] → Moved env t rows c q (n ∷ [])

module _ (env : Env) (table : Table env) (t : Trace) (rows : List ℕ)
    (shows : orders env t ≡ map nat rows) where
  read-Moved :
      (a : List MaxRow) (p : Process Bool)
      → env.reply t select_max_merkel_order ≡ ok a
      → Answered a p
      → Moved env t rows select_max_merkel_order p []
  unfolding read_max
  read-Moved a p e (inl q) = stays refl (quiet p q)
  read-Moved a p e (inr (max, read, s)) =
      let (n, follows, next) = next_order rows in
      let same : read_max a ≡ ok (max_or_zero (largest (map nat rows))) =
        ap read_max (table.selects t a e) ∙ ap (λ l. ok (max_or_zero (largest l))) shows in
      has_read n refl next (
        to_save p n
          (subst (λ m. Saving m p) (ap add_one_to (result_of (sym read ∙ same)) ∙ next) s))

  answered-Moved :
      (c : Call) (k : Reply c → Process Bool) (a : Reply c) (ms : List ℕ)
      → env.reply t c ≡ ok a
      → Stands (asks c k) ms
      → Moved env t rows c (k a) ms
  answered-Moved c k a _ e (quiet _ (sends q k' h)) = stays refl (quiet (k' a) (h a))
  answered-Moved c k a _ e (reading k' h) = read-Moved a (k' a) e (h a)
  answered-Moved c k a _ e (to_save _ n (saving r k' order h)) =
      has_saved n (rw e (ap (λ m. m ∷ orders env t) order)) (quiet (k' a) (h a))

  failed-Moved :
      (c : Call) (k : Reply c → Process Bool) (x : Thrown) (ms : List ℕ)
      → env.reply t c ≡ err x
      → Stands (asks c k) ms
      → Moved env t rows c (ends (err x)) ms
  failed-Moved c k x _ e (quiet _ (sends q k' h)) = stays refl (quiet _ (ended (err x)))
  failed-Moved c k x _ e (reading k' h) = stays refl (quiet _ (ended (err x)))
  failed-Moved c k x _ e (to_save _ n (saving r k' order h)) =
      has_dropped n (rw e refl) (quiet _ (ended (err x)))

-- The orders of the next pool, and how they come from those before.
abbrev pub Next : Env → Db → Pool → Type 0
Next env x b = (y : Db) × Shows env b y × ((x ≡ y) ⊎ Step x y)

Moved-Next :
    (env : Env) (t : Trace) (rows : List ℕ) (c : Call) (q : Process Bool)
    (before after : List (Process Bool)) (ns₁ ms ns₂ : List ℕ)
    → orders env t ≡ map nat rows
    → ((ks : List ℕ) → Stands q ks → AllStand (before ++ q ∷ after) (ns₁ ++ (ks ++ ns₂)))
    → Moved env t rows c q ms
    → Next env
        (record { rows = rows; pending = ns₁ ++ (ms ++ ns₂) })
        (record { trace = c ∷ t; handlers = before ++ q ∷ after })
Moved-Next env t rows c q before after ns₁ _ ns₂ shows put (stays same s) =
    (_, record { rows_lem = same ∙ shows; pending_lem = put [] s }, inl refl)
Moved-Next env t rows c q before after ns₁ _ ns₂ shows put (has_read n same next s) = (
  _,
  record { rows_lem = same ∙ shows; pending_lem = put (n ∷ []) s },
  inr (reads rows ns₁ ns₂ n next),
)
Moved-Next env t rows c q before after ns₁ _ ns₂ shows put (has_saved n order s) = (
  _,
  record { rows_lem = order ∙ ap (λ l. nat n ∷ l) shows; pending_lem = put [] s },
  inr (saves rows ns₁ ns₂ n),
)
Moved-Next env t rows c q before after ns₁ _ ns₂ shows put (has_dropped n same s) =
    (_, record { rows_lem = same ∙ shows; pending_lem = put [] s }, inr (drops rows ns₁ ns₂ n))

module _ (env : Env) (table : Table env) where
  moved :
      (t : Trace) (before after : List (Process Bool)) (c : Call) (k : Reply c → Process Bool)
      (q : Process Bool) (x : Db)
      → Shows env (record { trace = t; handlers = before ++ asks c k ∷ after }) x
      → ((ms : List ℕ) → Stands (asks c k) ms → Moved env t x.rows c q ms)
      → Next env x (record { trace = c ∷ t; handlers = before ++ q ∷ after })
  moved t before after c k q x shows step =
      let (ns₁, ms, ns₂, e, stands, put) =
        AllStand-split before after (asks c k) x.pending shows.pending_lem in
      subst
        (λ ns.
          Next env (record { rows = x.rows; pending = ns })
            (record { trace = c ∷ t; handlers = before ++ q ∷ after }))
        (sym e)
        (Moved-Next env t x.rows c q before after ns₁ ms ns₂ shows.rows_lem (put q)
          (step ms stands))

  -- On a table that knows the records that were saved, where every query and every save may fail:
  -- whatever a pool of handlers does next, its orders, in the table and read by its handlers, stay as
  -- they are or make a step of the specification.
  pub PoolStep-Next : (a b : Pool) (x : Db) → PoolStep env a b → Shows env a x → Next env x b
  PoolStep-Next _ _ x (arrives t handlers agent_id key connection_id message) shows = (
    x,
    record {
      rows_lem = shows.rows_lem;
      pending_lem =
          more _ handlers [] x.pending
            (respond_process-Stands env agent_id key connection_id message) shows.pending_lem;
    },
    inl refl,
  )
  PoolStep-Next _ _ x (answers t before after c k a e) shows =
      moved t before after c k (k a) x shows
        (λ ms s. answered-Moved env table t x.rows shows.rows_lem c k a ms e s)
  PoolStep-Next _ _ x (fails t before after c k e h) shows =
      moved t before after c k (ends (err e)) x shows
        (λ ms s. failed-Moved env table t x.rows shows.rows_lem c k e ms h s)
