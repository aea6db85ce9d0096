-- ===== src/Tests/Handlers.antt =====
-- Runs of handlers of transactions, alone and interleaved.
use mathlib.Core.Path.{subst}
use aries_guardianship_agenc.Base.{ℕ, ◌∙◌, Bool, List, map, [], ◌∷◌, ◌≡◌, refl}
use aries_guardianship_agenc.Js.Number.{Num, nat}
use aries_guardianship_agenc.Js.Value.{str, obj}
use aries_guardianship_agenc.Effects.{MaxRow, select_max_merkel_order}
use aries_guardianship_agenc.Transactions.Messaging.Chain.{orders, largest}
use aries_guardianship_agenc.Transactions.Messaging.Interleaving.{empty, AllFollow}
use aries_guardianship_agenc.Transactions.Messaging.Pool.{Pool, answers, none, more, Shows, Stands}
use aries_guardianship_agenc.Transactions.Messaging.Pool.Begins.{respond_process-Stands}
use aries_guardianship_agenc.Transactions.Messaging.Pool.Refines.{Next, PoolStep-Next}
use aries_guardianship_agenc.Transactions.Messaging.Pool.Reached.{
  no_handlers, PoolReached, starts, PoolReached-AllFollow,
}
use aries_guardianship_agenc.Transactions.Messaging.Pool.Collision.{
  PoolReached-twice, on_rows, to_read, respond_process-started, start_process-on_rows,
}
use aries_guardianship_agenc.Effects.Process.{Process}
use aries_guardianship_agenc.Tests.World.{is_up, is_empty, table_of, works_of, all_saved}
use aries_guardianship_agenc.Tests.Messages.{env, message, is_started}

-- A handler whose query of the empty table is answered.
abbrev handlers : List (Process Bool)
handlers = to_read env "a" (str "key") (str "c") message is_started ∷ []

reads-Shows : Shows env (record { trace = []; handlers = handlers }) empty
reads-Shows = record {
  rows_lem = refl;
  pending_lem =
      more _ [] [] []
        (subst (λ p. Stands p [])
          (respond_process-started env "a" (str "key") (str "c") message is_started
            ∙ start_process-on_rows env "a" (str "key") (str "c") message is_started)
          (respond_process-Stands env "a" (str "key") (str "c") (obj message)))
        none;
}

abbrev no_rows : List MaxRow
no_rows = (record { max = largest [] }) ∷ []

PoolStep-Next_example : Next env empty (record {
  trace = select_max_merkel_order ∷ [];
  handlers = on_rows env "a" (str "key") (str "c") message is_started no_rows ∷ [];
})
PoolStep-Next_example =
    PoolStep-Next env (table_of all_saved is_up is_empty) _ _ empty
      (answers [] [] [] select_max_merkel_order
        (on_rows env "a" (str "key") (str "c") message is_started) no_rows refl)
      reads-Shows

PoolReached-twice_example :
    (n : Num) × (b : Pool) × PoolReached env b × (orders env b.trace ≡ n ∷ n ∷ [])
PoolReached-twice_example =
    PoolReached-twice env (table_of all_saved is_up is_empty) (works_of is_up is_empty) "a" "b"
      (str "key") (str "key") (str "c") (str "d") message message is_started is_started no_handlers
      starts

-- Two handlers of two agents have saved the same order.
abbrev twice : (n : Num) × (b : Pool) × PoolReached env b × (orders env b.trace ≡ n ∷ n ∷ [])
twice =
    PoolReached-twice env (table_of all_saved is_up is_empty) (works_of is_up is_empty) "a" "b"
      (str "key") (str "key") (str "c") (str "d") message message is_started is_started no_handlers
      starts

PoolReached-AllFollow_example :
    (rows : List ℕ) × (orders env twice.1.trace ≡ map nat rows) × AllFollow rows rows
PoolReached-AllFollow_example =
    PoolReached-AllFollow env (table_of all_saved is_up is_empty) twice.1 twice.2
