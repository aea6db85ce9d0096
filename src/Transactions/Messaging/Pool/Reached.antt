-- ===== src/Transactions/Messaging/Pool/Reached.antt =====
-- The pools that come about on a table that is empty.
use aries_guardianship_agenc.Base.{ℕ, List, [], map, ◌≡◌, refl, inl, inr}
use aries_guardianship_agenc.Js.Number.{nat}
use aries_guardianship_agenc.Effects.{Env}
use aries_guardianship_agenc.Transactions.Messaging.Chain.{Table, orders}
use aries_guardianship_agenc.Transactions.Messaging.Interleaving.{
  Db, empty, Reached, begins, steps, AllFollow, Reached-AllFollow,
}
use aries_guardianship_agenc.Transactions.Messaging.Pool.{Pool, PoolStep, none, Shows}
use aries_guardianship_agenc.Transactions.Messaging.Pool.Refines.{PoolStep-Next}

abbrev pub no_handlers : Pool
no_handlers = record { trace = []; handlers = [] }

module _ (env : Env) where
  pub data PoolReached : Pool → Type 0 where
    starts : PoolReached no_handlers
    goes_on : (a b : Pool) → PoolReached a → PoolStep env a b → PoolReached b

  module _ (table : Table env) where
    PoolReached-Shows : (a : Pool) → PoolReached a → (x : Db) × Shows env a x × Reached x
    PoolReached-Shows _ starts = (empty, record { rows_lem = refl; pending_lem = none }, begins)
    PoolReached-Shows _ (goes_on a b before step) =
        let (x, shows, reached) = PoolReached-Shows a before in
        let (y, shows', how) = PoolStep-Next env table a b x step shows in
        (y, shows', elim how [ inl same ↦ rw (← same) reached | inr st ↦ steps x y reached st ])

    -- Whatever messages arrive, for whatever agents, and however their handlers interleave and fail, on a table that is
    -- empty and knows the records that were saved, where every query and every save may fail: the
    -- orders in the table are whole
    -- numbers without a gap, each is 1 or stands behind another order of the table.
    pub PoolReached-AllFollow :
        (a : Pool)
        → PoolReached a
        → (rows : List ℕ) × (orders env a.trace ≡ map nat rows) × AllFollow rows rows
    PoolReached-AllFollow a reached =
        let (x, shows, before) = PoolReached-Shows a reached in
        (x.rows, shows.rows_lem, Reached-AllFollow x before)
