-- ===== src/Multitenant/Lookup.antt =====
-- The search for a wallet among all those of the multitenant agent.
use aries_guardianship_agenc.Base.{
  String, true, false, Bool-cases, eq_iff, eq_refl, ◌≡◌, ◌≢◌, refl, ap, ◌∙◌, ◌⊎◌, inl, inr,
}
use aries_guardianship_agenc.Js.Value.{
  Value, undefined, null, bool, num, str, arr, obj, is_text, Items, nil, item,
}
use aries_guardianship_agenc.Effects.{ok, err, Thrown, get_prop}
use aries_guardianship_agenc.Effects.Laws.{Result-cases}
use aries_guardianship_agenc.Multitenant.{has_name, find_wallet}

-- What stands at `wallet.name` in the settings of a wallet.
abbrev pub Names : Value → Value → Type 0
Names wallet v =
    (settings : Value) × (get_prop "settings" wallet ≡ ok settings)
    × (get_prop "wallet.name" settings ≡ ok v)

-- It is another value than the name.
abbrev pub IsOther : String → Value → Type 0
IsOther name wallet = (v : Value) × Names wallet v × (v ≢ str name)

-- No wallet of the list has the name.
abbrev pub Lacks : String → Items → Type 0
Lacks name nil = Unit
Lacks name (item wallet rest) = IsOther name wallet × Lacks name rest

-- The first wallet of the name has this id.
abbrev pub FirstOf : String → Value → Items → Type 0
FirstOf name id nil = ⊥
FirstOf name id (item wallet rest) =
    (Names wallet (str name) × (get_prop "wallet_id" wallet ≡ ok id))
    ⊎ (IsOther name wallet × FirstOf name id rest)

is_text-true : (v : Value) (name : String) → is_text v name ≡ true → v ≡ str name
is_text-true (str s) name h = ap str ((eq_iff s name).0 h)
is_text-true undefined name h = absurd (cc h)
is_text-true null name h = absurd (cc h)
is_text-true (bool b) name h = absurd (cc h)
is_text-true (num n) name h = absurd (cc h)
is_text-true (arr vs) name h = absurd (cc h)
is_text-true (obj fs) name h = absurd (cc h)

is_text-false : (v : Value) (name : String) → is_text v name ≡ false → v ≢ str name
is_text-false v name h same =
    let self : is_text (str name) name ≡ true = eq_refl name in
    absurd (cc (h, ap (λ w. is_text w name) same, self))

has_name-Names :
    (name : String) (wallet v : Value) → Names wallet v → has_name name wallet ≡ ok (is_text v name)
unfolding has_name
has_name-Names name wallet v (settings, read, found) = rw (read, has_name) (rw found refl)

-- The test of the loop reads the name and compares it.
has_name-cases :
    (name : String) (wallet : Value)
    → ((has_name name wallet ≡ ok true) × Names wallet (str name))
      ⊎ (((has_name name wallet ≡ ok false) × IsOther name wallet)
          ⊎ ((e : Thrown) × (has_name name wallet ≡ err e)))
unfolding has_name
has_name-cases name wallet = elim (Result-cases (get_prop "settings" wallet)) [
  | inr (e, failed) ↦ inr (inr (e, rw (failed, has_name) refl))
  | inl (settings, read) ↦ elim (Result-cases (get_prop "wallet.name" settings)) [
    | inr (e, failed) ↦ inr (inr (e, rw (read, has_name) (rw failed refl)))
    | inl (v, found) ↦
        let tested = has_name-Names name wallet v (settings, read, found) in
        elim (Bool-cases (is_text v name)) [
          | inl same ↦
              inl (tested ∙ ap ok same, (settings, read, found ∙ ap ok (is_text-true v name same)))
          | inr other ↦
              inr (
                inl
                  (tested ∙ ap ok other, (v, (settings, read, found), is_text-false v name other)))
        ]
  ]
]

-- A search that ends without an exception gives the id of the first wallet of which the settings
-- have the name, or `null`, and then the settings of each wallet have another one.
pub find_wallet-FirstOf :
    (name : String) (wallets : Items) (v : Value)
    → find_wallet name wallets ≡ ok v
    → FirstOf name v wallets ⊎ ((v ≡ null) × Lacks name wallets)
unfolding find_wallet
find_wallet-FirstOf name nil v e = inr (cc e, tt)
find_wallet-FirstOf name (item wallet rest) v e = elim (has_name-cases name wallet) [
  | inl (same, named) ↦ inl (inl (named, rw (same, find_wallet) at e))
  | inr (inr (thrown, failed)) ↦ absurd (cc (rw (failed, find_wallet) at e))
  | inr (inl (other, differs)) ↦
      elim (find_wallet-FirstOf name rest v (rw (other, find_wallet) at e)) [
        | inl first ↦ inl (inr (differs, first))
        | inr (missing, lacks) ↦ inr (missing, (differs, lacks))
      ]
]
