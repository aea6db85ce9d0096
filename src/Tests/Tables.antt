-- ===== src/Tests/Tables.antt =====
-- Records that the table takes, and one that it does not.
use aries_guardianship_agenc.Base.{true, [], ◌∷◌, ◌≡◌, refl, if◌then◌else◌}
use aries_guardianship_agenc.Js.Number.{nat}
use aries_guardianship_agenc.Js.Value.{
  str, obj, Fields, fields, undefined, null, absent, lookup_field,
}
use aries_guardianship_agenc.Entity.{AgentTransaction}
use aries_guardianship_agenc.Effects.{
  Env, Result, ok, err, error, Call, Reply, Trace, save_transaction,
}
use aries_guardianship_agenc.Transactions.Messaging.{respond_to_transaction}
use aries_guardianship_agenc.Transactions.Schema.{
  table_columns, entity_columns, column_value, breaks,
}
use aries_guardianship_agenc.Transactions.Schema.Entity.{table_columns-entity_columns}
use aries_guardianship_agenc.Tests.World.{all_saved, world, answers, is_up, is_empty}

-- A record without a transaction id.
abbrev nameless : AgentTransaction
nameless = record {
  id = absent;
  agent_id = "a";
  fsp_id = str "f";
  transaction_id = undefined;
  merkel_order = nat 1;
  merkel_hash = str "h";
  event_date = undefined;
  transaction_date = undefined;
  issuer_hash = str "h";
  credential_id = null;
  type_id = undefined;
  subject_id = undefined;
  amount = str "5";
  transaction_details = undefined;
}

nameless_test : breaks table_columns nameless ≡ true
unfolding breaks column_value lookup_field
nameless_test = refl

table_columns-entity_columns_example : breaks entity_columns nameless ≡ true
table_columns-entity_columns_example = table_columns-entity_columns nameless nameless_test

-- The database looks at the columns.
abbrev checked : Trace → (c : Call) → Result (Reply c)
checked t (save_transaction r) = if breaks table_columns r then err (error "column") else ok tt
checked t c = answers all_saved is_up is_empty t c

abbrev env : Env
env = record (world is_up is_empty) { reply = checked }

abbrev event : Fields
event = fields (("fspHash", str "hash") ∷ ("fspId", str "f") ∷ [])

abbrev message : Fields
message = fields (("state", str "started") ∷ ("id", str "1") ∷ ("transaction", obj event) ∷ [])

abbrev done : Trace
done = (respond_to_transaction env "a" (str "key") (str "c") (obj message) []).1
