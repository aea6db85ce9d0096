-- ===== src/Js/Number.antt =====
-- Numbers: JavaScript's numbers as the exact integers and fractions, `Infinity` and `NaN`. Their
-- rounding to 53 bits, -0 and -Infinity are left out.
pub mod Text
use aries_guardianship_agenc.Base.{
  ℕ, zero, suc, ◌+◌, ◌-◌, ◌*◌, ◌/◌, ◌%◌, ◌<◌, String, code, Bool, true, false, ◌&&◌, ◌||◌, ◌≡◌,
  refl, ◌≢◌, ◌==◌, leb, ltb, if◌then◌else◌, ◌⧺◌, arith, Bool-cases, inl, inr,
}
use aries_guardianship_agenc.Js.Text.{Lacks, Lacks-append}

-- `negsuc n` is -(n + 1).
pub data ℤ : Type 0 where
  pos : ℕ → ℤ
  negsuc : ℕ → ℤ

pub data Num : Type 0 where
  int : ℤ → Num
  -- `fraction z p d` is z + (p + 1) / (p + d + 2), which is no integer.
  fraction : ℤ → ℕ → ℕ → Num
  infinity nan : Num

abbrev pub nat : ℕ → Num
nat n = int (pos n)

-- `n + k`
abbrev pub plus_nat : ℤ → ℕ → ℤ
plus_nat (pos n) k = pos (n + k)
plus_nat (negsuc n) k = if ltb n k then pos (k - n - 1) else negsuc (n - k)

-- `a > b` for integers.
abbrev pub gtb_ℤ : ℤ → ℤ → Bool
gtb_ℤ (pos a) (pos b) = ltb b a
gtb_ℤ (pos a) (negsuc b) = true
gtb_ℤ (negsuc a) (pos b) = false
gtb_ℤ (negsuc a) (negsuc b) = ltb a b

abbrev pub eq_ℤ : ℤ → ℤ → Bool
eq_ℤ (pos a) (pos b) = a == b
eq_ℤ (negsuc a) (negsuc b) = a == b
eq_ℤ _ _ = false

-- `n > 0`
abbrev pub is_positive : Num → Bool
is_positive (int (pos n)) = ltb 0 n
is_positive (int (negsuc n)) = false
is_positive (fraction (pos n) p d) = true
is_positive (fraction (negsuc n) p d) = false
is_positive infinity = true
is_positive nan = false

-- `n < 0`
abbrev pub is_negative : Num → Bool
is_negative (int (negsuc n)) = true
is_negative (int (pos n)) = false
is_negative (fraction (negsuc n) p d) = true
is_negative (fraction (pos n) p d) = false
is_negative infinity = false
is_negative nan = false

-- `n === 0`
abbrev pub is_zero : Num → Bool
is_zero (int (pos n)) = n == 0
is_zero (int (negsuc n)) = false
is_zero (fraction z p d) = false
is_zero infinity = false
is_zero nan = false

-- `n === Infinity`
abbrev pub is_infinity : Num → Bool
is_infinity infinity = true
is_infinity (int z) = false
is_infinity (fraction z p d) = false
is_infinity nan = false

-- Neither `NaN` nor infinite.
abbrev pub IsFinite : Num → Type 0
IsFinite n = (n ≢ nan) × (n ≢ infinity)

-- Whether a number counts as true in a test.
abbrev pub is_truthy_num : Num → Bool
is_truthy_num nan = false
is_truthy_num (int (pos n)) = ltb 0 n
is_truthy_num (int (negsuc n)) = true
is_truthy_num (fraction z p d) = true
is_truthy_num infinity = true

-- `a === b`: `NaN` differs from itself.
abbrev pub num_eq : Num → Num → Bool
num_eq (int a) (int b) = eq_ℤ a b
num_eq (fraction a p d) (fraction b q e) =
    eq_ℤ a b && (p + 1) * (q + e + 2) == (q + 1) * (p + d + 2)
num_eq infinity infinity = true
num_eq _ _ = false

-- `n + 1`
abbrev pub add_one : Num → Num
add_one (int (pos n)) = int (pos (n + 1))
add_one (int (negsuc zero)) = int (pos 0)
add_one (int (negsuc (suc n))) = int (negsuc n)
add_one (fraction z p d) = fraction (plus_nat z 1) p d
add_one infinity = infinity
add_one nan = nan

-- z + a / b
abbrev sum_with : ℤ → ℕ → ℕ → Num
sum_with z a b =
    if a % b == 0
    then int (plus_nat z (a / b))
    else fraction (plus_nat z (a / b)) (a % b - 1) (b - a % b - 1)

abbrev thousand_times : ℤ → ℤ
thousand_times (pos n) = pos (n * 1000)
thousand_times (negsuc n) = negsuc ((n + 1) * 1000 - 1)

-- `n * 1000`
abbrev pub times_1000 : Num → Num
times_1000 (int z) = int (thousand_times z)
times_1000 (fraction z p d) = sum_with (thousand_times z) ((p + 1) * 1000) (p + d + 2)
times_1000 infinity = infinity
times_1000 nan = nan

-- `m > n` for a count `n`.
abbrev pub exceeds : Num → ℕ → Bool
exceeds (int (pos m)) n = ltb n m
exceeds (int (negsuc m)) n = false
exceeds (fraction (pos m) p d) n = leb n m
exceeds (fraction (negsuc m) p d) n = false
exceeds infinity n = true
exceeds nan n = false
