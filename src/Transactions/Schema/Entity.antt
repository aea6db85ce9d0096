-- ===== src/Transactions/Schema/Entity.antt =====
-- The columns of the class against those of the table.
use aries_guardianship_agenc.Base.{
  String, Bool, true, false, not, ◌&&◌, ◌||◌, some, List, [], ◌∷◌, ◌≡◌, refl, ap, ◌∙◌, inl, inr,
  leb, str_eq, eq_iff, arith, Bool-cases,
}
use aries_guardianship_agenc.Js.Value.{Value}
use aries_guardianship_agenc.Entity.{AgentTransaction}
use aries_guardianship_agenc.Transactions.Schema.{
  ColumnType, varchar, Column, table_columns, entity_columns, column_value, is_too_long, violates,
  breaks,
}

-- Every text that is too long for the second is too long for the first.
abbrev is_shorter : ColumnType → ColumnType → Bool
is_shorter (varchar (some m)) (varchar (some n)) = leb m n
is_shorter _ (varchar (some n)) = false
is_shorter _ _ = true

-- The first column allows nothing that the second rules out.
abbrev is_stricter : Column → Column → Bool
is_stricter d c =
    str_eq d.name c.name
    && ((not d.nullable || c.nullable)
        && ((not d.has_default || c.has_default) && is_shorter d.type c.type))

and_true : (a b : Bool) → (a && b) ≡ true → (a ≡ true) × (b ≡ true)
and_true true b h = (refl, h)
and_true false b h = absurd (cc h)

is_shorter-is_too_long :
    (a b : ColumnType) (s : String)
    → is_shorter a b ≡ true
    → is_too_long b s ≡ true
    → is_too_long a s ≡ true
is_shorter-is_too_long a b s h k = ground arith

is_stricter-violates :
    (d c : Column) (v : Value) → is_stricter d c ≡ true → violates c v ≡ true → violates d v ≡ true
is_stricter-violates d c v h k =
    let (same, nulls) = and_true (str_eq d.name c.name) _ h in
    let (nullable, defaults) = and_true (not d.nullable || c.nullable) _ nulls in
    let (default, shorter) = and_true (not d.has_default || c.has_default) _ defaults in
    ground (arith, is_shorter-is_too_long d.type c.type)

or_true : (a b : Bool) → b ≡ true → (a || b) ≡ true
or_true true b h = refl
or_true false b h = h

-- Some column of the list is stricter.
abbrev has_stricter : List Column → Column → Bool
has_stricter [] c = false
has_stricter (d ∷ ds) c = is_stricter d c || has_stricter ds c

abbrev covers : List Column → List Column → Bool
covers ds [] = true
covers ds (c ∷ cs) = has_stricter ds c && covers ds cs

module _ (r : AgentTransaction) where
  is_stricter-breaks :
      (d c : Column)
      → is_stricter d c ≡ true
      → violates c (column_value r c.name) ≡ true
      → violates d (column_value r d.name) ≡ true
  is_stricter-breaks d c h k =
      let same : d.name ≡ c.name =
        (eq_iff d.name c.name).0 (and_true (str_eq d.name c.name) _ h).0 in
      is_stricter-violates d c (column_value r d.name) h
        (ap (λ n. violates c (column_value r n)) same ∙ k)

  has_stricter-breaks :
      (ds : List Column) (c : Column)
      → has_stricter ds c ≡ true
      → violates c (column_value r c.name) ≡ true
      → breaks ds r ≡ true
  unfolding breaks
  has_stricter-breaks [] c h k = absurd (cc h)
  has_stricter-breaks (d ∷ ds) c h k = elim (Bool-cases (is_stricter d c)) [
    | inl strict ↦ rw (is_stricter-breaks d c strict k) refl
    | inr other ↦ or_true _ _ (has_stricter-breaks ds c (rw other at h) k)
  ]

  covers-breaks :
      (ds cs : List Column) → covers ds cs ≡ true → breaks cs r ≡ true → breaks ds r ≡ true
  unfolding breaks
  covers-breaks ds [] h k = absurd (cc k)
  covers-breaks ds (c ∷ cs) h k =
      let (here, there) = and_true (has_stricter ds c) _ h in
      elim (Bool-cases (violates c (column_value r c.name))) [
        | inl bad ↦ has_stricter-breaks ds c here bad
        | inr good ↦ covers-breaks ds cs there (rw good at k)
      ]

  -- The table rules out no record that the columns of the class allow: where a value is missing, or
  -- a text longer than its column, in a column that the migration creates, it is so in one that the
  -- class declares.
  pub table_columns-entity_columns : breaks table_columns r ≡ true → breaks entity_columns r ≡ true
  table_columns-entity_columns = covers-breaks entity_columns table_columns refl
