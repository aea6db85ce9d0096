-- ===== src/Transactions/Schema.antt =====
-- The columns of the table of transactions: those that src/migration/1620304611265-AgentTransactionsCreate.ts
-- creates, and those that the class of src/transactions/persistence/agent.transaction.ts declares. The
-- database and TypeORM are outside the program.
pub mod Entity
pub mod Refused
use aries_guardianship_agenc.Base.{
  ℕ, zero, suc, ◌+◌, String, Bool, true, false, not, ◌&&◌, ◌||◌, Option, none, some, List, [], ◌∷◌,
  ltb, str_eq, if◌then◌else◌,
}
use aries_guardianship_agenc.Js.Value.{
  Value, Fields, undefined, null, bool, num, str, arr, obj, fields, lookup_field,
}
use aries_guardianship_agenc.Entity.{AgentTransaction}

pub data ColumnType : Type 0 where
  serial int timestamp text : ColumnType
  -- with the most characters, where there is a limit
  varchar : Option ℕ → ColumnType

pub record Column : Type 0 where
  pub name : String
  pub type : ColumnType
  pub nullable : Bool
  pub has_default : Bool

pub data Statement : Type 0 where
  create_table_if_not_exists : String → List Column → Statement
  drop_table_if_exists : String → Statement

abbrev column : String → ColumnType → Bool → Bool → Column
column name type nullable has_default = record {
  name = name;
  type = type;
  nullable = nullable;
  has_default = has_default;
}

abbrev pub not_null : Bool
not_null = false

abbrev varchar_64 : ColumnType
varchar_64 = varchar (some 64)

abbrev pub table_columns : List Column
table_columns =
    column "id" serial not_null true
    ∷ column "agent_id" varchar_64 not_null false
    ∷ column "fsp_id" varchar_64 not_null false
    ∷ column "transaction_id" varchar_64 not_null false
    ∷ column "transaction_date" timestamp true true
    ∷ column "event_date" timestamp true true
    ∷ column "issuer_hash" varchar_64 not_null false
    ∷ column "merkel_order" int true false
    ∷ column "merkel_hash" varchar_64 not_null false
    ∷ column "credential_id" varchar_64 true false
    ∷ column "type_id" varchar_64 true false
    ∷ column "subject_id" varchar_64 true false
    ∷ column "amount" varchar_64 true false
    ∷ column "transaction_details" text true false
    ∷ []

abbrev pub up : Statement
up = create_table_if_not_exists "agent_transactions" table_columns

abbrev pub down : Statement
down = drop_table_if_exists "agent_transactions"

-- A column is not nullable where its options do not say.
abbrev pub entity_columns : List Column
entity_columns =
    column "id" serial not_null true
    ∷ column "agent_id" varchar_64 not_null false
    ∷ column "fsp_id" varchar_64 not_null false
    ∷ column "transaction_id" varchar_64 not_null false
    ∷ column "merkel_order" int not_null false
    ∷ column "merkel_hash" varchar_64 not_null false
    ∷ column "event_date" timestamp not_null false
    ∷ column "transaction_date" timestamp not_null false
    ∷ column "issuer_hash" varchar_64 not_null false
    ∷ column "credential_id" varchar_64 true false
    ∷ column "type_id" varchar_64 true false
    ∷ column "subject_id" varchar_64 true false
    ∷ column "amount" varchar_64 true false
    ∷ column "transaction_details" (varchar none) not_null false
    ∷ []

-- The properties of a record, by the names of their columns; a new one has no `id`.
abbrev pub row_of : AgentTransaction → Fields
row_of r = fields (
    ("agent_id", str r.agent_id)
    ∷ ("fsp_id", r.fsp_id)
    ∷ ("transaction_id", r.transaction_id)
    ∷ ("merkel_order", num r.merkel_order)
    ∷ ("merkel_hash", r.merkel_hash)
    ∷ ("event_date", r.event_date)
    ∷ ("transaction_date", r.transaction_date)
    ∷ ("issuer_hash", r.issuer_hash)
    ∷ ("credential_id", r.credential_id)
    ∷ ("type_id", r.type_id)
    ∷ ("subject_id", r.subject_id)
    ∷ ("amount", r.amount)
    ∷ ("transaction_details", r.transaction_details)
    ∷ [])

abbrev pub length : String → ℕ
length String.[] = 0
length (String.◌∷◌ c s) = suc (length s)

abbrev pub is_too_long : ColumnType → String → Bool
is_too_long (varchar (some n)) s = ltb n (length s)
is_too_long _ s = false

-- A value that the column's constraints rule out: it is missing, or longer than the column is. A
-- property that is `undefined` is left out, so that the default stands in for it.
abbrev pub violates : Column → Value → Bool
violates c undefined = not c.nullable && not c.has_default
violates c null = not c.nullable
violates c (str s) = is_too_long c.type s
violates c _ = false

unfoldable pub column_value : AgentTransaction → String → Value
column_value r name = lookup_field name (row_of r)

-- The record violates some column.
unfoldable pub breaks : List Column → AgentTransaction → Bool
breaks [] r = false
breaks (c ∷ cs) r = let rest = breaks cs r in violates c (column_value r c.name) || rest
