-- ===== src/K8s/Ready.antt =====
-- Whether a pod counts as ready.
use aries_guardianship_agenc.Base.{false, List, [], ◌∷◌, ◌≡◌, ◌≢◌, ◌≤◌, refl, arith}
use aries_guardianship_agenc.Js.Value.{Optional, absent, nothing, given}
use aries_guardianship_agenc.Effects.{Date, PodCondition}
use aries_guardianship_agenc.K8s.{
  later, latest, is_status, is_latest, filter_by, any_ready, ready_since,
}

-- A time that a condition gives is not later than the date, and is another object.
abbrev pub IsPast : Date → Optional Date → Type 0
IsPast now absent = Unit
IsPast now nothing = Unit
IsPast now (given t) = (t.time ≤ now.time) × (t.ref ≢ now.ref)

abbrev pub ArePast : Date → List PodCondition → Type 0
ArePast now [] = Unit
ArePast now (item ∷ rest) = IsPast now item.last_transition_time × ArePast now rest

later_past :
    (now : Date) (item : PodCondition) → IsPast now item.last_transition_time → later now item ≡ now
unfolding later
later_past now item h = ground arith

latest_past : (now : Date) (items : List PodCondition) → ArePast now items → latest now items ≡ now
unfolding latest
latest_past now [] h = refl
latest_past now (item ∷ rest) (p, h) = rw (later_past now item p) (latest_past now rest h)

is_latest_past :
    (now : Date) (item : PodCondition)
    → IsPast now item.last_transition_time
    → is_latest now item ≡ false
unfolding is_latest
is_latest_past now item h = ground arith

filter_past :
    (now : Date) (items : List PodCondition)
    → ArePast now items
    → filter_by (is_latest now) (filter_by is_status items) ≡ []
unfolding filter_by
filter_past now [] h = refl
filter_past now (item ∷ rest) (p, h) =
    ground (arith, is_latest_past now item p, filter_past now rest h)

-- No pod is ready whose conditions give no time later than the date of the look: the date itself
-- is then the latest one, and no condition holds that object.
pub ready_since-ArePast :
    (now : Date) (conditions : List PodCondition)
    → ArePast now conditions
    → ready_since now conditions ≡ false
unfolding ready_since any_ready
ready_since-ArePast now conditions h =
    rw (latest_past now conditions h) (rw (filter_past now conditions h) refl)
