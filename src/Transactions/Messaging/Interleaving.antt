-- ===== src/Transactions/Messaging/Interleaving.antt =====
-- What handlers of transactions that run at the same time make of the orders in their table: only
-- the query of the largest order and the save are left of TransactionMessageHandler.respond, as
-- Transactions/Messaging/Pool shows.
use mathlib.Core.Path.{subst}
use aries_guardianship_agenc.Base.{
  ℕ, suc, List, [], ◌∷◌, ◌++◌, map, ◌≡◌, refl, ap, ◌∙◌, sym, ◌⊎◌, inl, inr, arith, ltb, Bool-cases,
  Among,
}
use aries_guardianship_agenc.Js.Number.{nat}
use aries_guardianship_agenc.Js.Value.{given}
use aries_guardianship_agenc.Manager.{greater}
use aries_guardianship_agenc.Transactions.Persistence.{max_or_zero, add_one_to}
use aries_guardianship_agenc.Transactions.Messaging.Chain.{above, largest}

-- The orders in the table, and those of the handlers that have read and not saved.
pub record Db : Type 0 where
  pub rows : List ℕ
  pub pending : List ℕ

-- A handler reads the table and has the order of its record, or one of those saves its record, or
-- cannot save it.
pub data Step : Db → Db → Type 0 where
  reads :
      (rows before after : List ℕ) (n : ℕ)
      → add_one_to (max_or_zero (largest (map nat rows))) ≡ nat n
      → Step
          (record { rows = rows; pending = before ++ after })
          (record { rows = rows; pending = before ++ n ∷ after })
  saves :
      (rows before after : List ℕ) (n : ℕ)
      → Step
          (record { rows = rows; pending = before ++ n ∷ after })
          (record { rows = n ∷ rows; pending = before ++ after })
  drops :
      (rows before after : List ℕ) (n : ℕ)
      → Step
          (record { rows = rows; pending = before ++ n ∷ after })
          (record { rows = rows; pending = before ++ after })

abbrev pub empty : Db
empty = record { rows = []; pending = [] }

-- What any number of handlers make of a table that is empty.
pub data Reached : Db → Type 0 where
  begins : Reached empty
  steps : (a b : Db) → Reached a → Step a b → Reached b

-- The order is 1, or stands behind one of the table.
abbrev pub Follows : List ℕ → ℕ → Type 0
Follows rows n = (n ≡ 1) ⊎ ((k : ℕ) × (n ≡ suc k) × Among k rows)

abbrev pub AllFollow : List ℕ → List ℕ → Type 0
AllFollow rows [] = Unit
AllFollow rows (n ∷ ns) = Follows rows n × AllFollow rows ns

Follows-more : (rows : List ℕ) (m n : ℕ) → Follows rows n → Follows (m ∷ rows) n
Follows-more rows m n (inl e) = inl e
Follows-more rows m n (inr (k, e, among)) = inr (k, e, inr among)

AllFollow-more : (rows : List ℕ) (m : ℕ) (ns : List ℕ) → AllFollow rows ns → AllFollow (m ∷ rows) ns
AllFollow-more rows m [] h = tt
AllFollow-more rows m (n ∷ ns) (f, h) = (Follows-more rows m n f, AllFollow-more rows m ns h)

-- A pending order may be taken out.
AllFollow-taken :
    (rows before after : List ℕ) (n : ℕ)
    → AllFollow rows (before ++ n ∷ after)
    → Follows rows n × AllFollow rows (before ++ after)
AllFollow-taken rows [] after n (f, h) = (f, h)
AllFollow-taken rows (m ∷ before) after n (f, h) =
    let (taken, rest) = AllFollow-taken rows before after n h in (taken, (f, rest))

-- One may be put in.
AllFollow-put :
    (rows before after : List ℕ) (n : ℕ)
    → Follows rows n
    → AllFollow rows (before ++ after)
    → AllFollow rows (before ++ n ∷ after)
AllFollow-put rows [] after n f h = (f, h)
AllFollow-put rows (m ∷ before) after n f (g, h) = (g, AllFollow-put rows before after n f h)

above-Among :
    (n k : ℕ) (rows : List ℕ)
    → Among k rows
    → (j : ℕ) × Among j (n ∷ rows) × (above (nat n) (given (nat k)) ≡ nat j)
unfolding above greater
above-Among n k rows among = elim (Bool-cases (ltb k n)) [
  | inl more ↦ (n, inl refl, rw more refl)
  | inr less ↦ (k, inr among, rw less refl)
]

-- The largest order is one of the table.
largest-Among :
    (n : ℕ) (rows : List ℕ)
    → (k : ℕ) × Among k (n ∷ rows) × (largest (map nat (n ∷ rows)) ≡ given (nat k))
unfolding largest
largest-Among n [] = (n, inl refl, unfold above in refl)
largest-Among n (m ∷ rows) =
    let (k, among, e) = largest-Among m rows in
    let (j, among', e') = above-Among n k (m ∷ rows) among in
    (j, among', ap (λ o. given (above (nat n) o)) e ∙ ap given e')

-- The order that a handler gets.
pub next_order :
    (rows : List ℕ)
    → (n : ℕ) × Follows rows n × (add_one_to (max_or_zero (largest (map nat rows))) ≡ nat n)
next_order [] = (1, inl refl, unfold largest in refl)
next_order (m ∷ rows) =
    let (k, among, e) = largest-Among m rows in
    (suc k, inr (k, refl, among), ap (λ o. add_one_to (max_or_zero o)) e ∙ ap nat (omega arith))

same_order : (m n : ℕ) → nat m ≡ nat n → m ≡ n
same_order m n e = ground arith

next-Follows :
    (rows : List ℕ) (n : ℕ)
    → add_one_to (max_or_zero (largest (map nat rows))) ≡ nat n
    → Follows rows n
next-Follows rows n e =
    let (m, follows, e') = next_order rows in
    subst (Follows rows) (same_order m n (sym e' ∙ e)) follows

Step-AllFollow :
    (a b : Db)
    → Step a b
    → AllFollow a.rows a.rows × AllFollow a.rows a.pending
    → AllFollow b.rows b.rows × AllFollow b.rows b.pending
Step-AllFollow _ _ (reads rows before after n e) (h, k) =
    (h, AllFollow-put rows before after n (next-Follows rows n e) k)
Step-AllFollow _ _ (saves rows before after n) (h, k) =
    let (f, rest) = AllFollow-taken rows before after n k in
    (
      (Follows-more rows n n f, AllFollow-more rows n rows h),
      AllFollow-more rows n (before ++ after) rest,
    )
Step-AllFollow _ _ (drops rows before after n) (h, k) =
    (h, (AllFollow-taken rows before after n k).1)

both_follow : (a : Db) → Reached a → AllFollow a.rows a.rows × AllFollow a.rows a.pending
both_follow _ begins = (tt, tt)
both_follow _ (steps a b before step) = Step-AllFollow a b step (both_follow a before)

-- However the handlers interleave, the orders of the table have no gap: each is 1 or stands behind
-- another order of the table.
pub Reached-AllFollow : (a : Db) → Reached a → AllFollow a.rows a.rows
Reached-AllFollow a reached = (both_follow a reached).0

-- From each table that is reached with no handler at work, two handlers that both read before
-- either saves record their transactions with the same order.
pub Reached-twice :
    (rows : List ℕ)
    → Reached (record { rows = rows; pending = [] })
    → (n : ℕ) × Reached (record { rows = n ∷ n ∷ rows; pending = [] })
Reached-twice rows reached =
    let (n, follows, e) = next_order rows in
    let one_read = steps _ _ reached (reads rows [] [] n e) in
    let two_read = steps _ _ one_read (reads rows [] (n ∷ []) n e) in
    let one_saved = steps _ _ two_read (saves rows [] (n ∷ []) n) in
    (n, steps _ _ one_saved (saves (n ∷ rows) [] [] n))
