-- ===== src/Transactions/Persistence.antt =====
-- src/transactions/persistence/data.service.ts: the table of transactions, through TypeORM.
use aries_guardianship_agenc.Base.{String, List, [], ◌∷◌}
use aries_guardianship_agenc.Js.Number.{Num, int, fraction, infinity, nan, nat, add_one}
use aries_guardianship_agenc.Js.Value.{Optional, absent, nothing, given}
use aries_guardianship_agenc.Entity.{AgentTransaction}
use aries_guardianship_agenc.Effects.{
  Env, M, Result, ok, err, type_error, perform, lift, ◌>>=◌, MaxRow, save_transaction,
  find_transactions, select_max_merkel_order,
}

-- The test on `result.max`: `isNaN` of `null` is false, so `null` is given back as it is.
abbrev pub max_or_zero : Optional Num → Optional Num
max_or_zero absent = given (nat 0)
max_or_zero nothing = nothing
max_or_zero (given nan) = given (nat 0)
max_or_zero (given infinity) = given infinity
max_or_zero (given (int z)) = given (int z)
max_or_zero (given (fraction z p d)) = given (fraction z p d)

-- `result.max` is read before the test, for the log, and throws where there is no row.
unfoldable pub read_max : List MaxRow → Result (Optional Num)
read_max [] = err type_error
read_max (row ∷ rows) = ok (max_or_zero row.max)

-- `maxMerkleOrder + 1`
abbrev pub add_one_to : Optional Num → Num
add_one_to absent = nan
add_one_to nothing = nat 1
add_one_to (given n) = add_one n

module _ (env : Env) where
  unfoldable pub get_max_merkel_order : M (Optional Num)
  unfolding read_max
  get_max_merkel_order = do value ← perform env select_max_merkel_order; lift (read_max value)

  abbrev pub save_record : AgentTransaction → M Unit
  save_record record_ = perform env (save_transaction record_)

  abbrev pub get_all_transactions : String → M (List AgentTransaction)
  get_all_transactions id = perform env (find_transactions id)
