-- ===== src/Js/Number/Text.antt =====
-- Numbers as texts: `${n}` and `parseInt`.
use aries_guardianship_agenc.Base.{
  ℕ, zero, suc, ◌+◌, ◌-◌, ◌*◌, ◌/◌, ◌%◌, ◌<◌, String, code, Bool, ◌&&◌, ◌||◌, ◌≡◌, refl, ◌≢◌, ◌==◌,
  leb, ltb, if◌then◌else◌, ◌⧺◌, arith, Bool-cases, inl, inr,
}
use aries_guardianship_agenc.Js.Text.{Lacks, Lacks-append}
use aries_guardianship_agenc.Js.Number.{
  Num, int, pos, negsuc, fraction, infinity, nan, nat, times_1000,
}

abbrev pub digit : ℕ → String
digit zero = "0"
digit (suc zero) = "1"
digit (suc (suc zero)) = "2"
digit (suc (suc (suc zero))) = "3"
digit (suc (suc (suc (suc zero)))) = "4"
digit (suc (suc (suc (suc (suc zero))))) = "5"
digit (suc (suc (suc (suc (suc (suc zero)))))) = "6"
digit (suc (suc (suc (suc (suc (suc (suc zero))))))) = "7"
digit (suc (suc (suc (suc (suc (suc (suc (suc zero)))))))) = "8"
digit _ = "9"

-- Decimal digits, the last one first; `n + 1` rounds are enough, since each divides by ten.
print_from : ℕ → ℕ → String → String
print_from zero n acc = acc
print_from (suc f) n acc =
    let longer = digit (n % 10) ⧺ acc in
    let more = print_from f (n / 10) longer in if ltb n 10 then longer else more

unfoldable pub print_nat : ℕ → String
unfolding print_from
print_nat n = print_from (n + 1) n ""

-- The first digits of r / q behind the point, for r < q.
decimals : ℕ → ℕ → ℕ → String
decimals zero r q = ""
decimals (suc f) r q =
    let more = decimals f (r * 10 % q) q in
    digit (r * 10 / q) ⧺ (if r * 10 % q == 0 then "" else more)

-- `${n}`, a fraction with at most 16 digits behind the point and without an exponent.
unfoldable pub print_num : Num → String
unfolding print_nat decimals
print_num (int (pos n)) = print_nat n
print_num (int (negsuc n)) = "-" ⧺ print_nat (n + 1)
print_num (fraction (pos n) p d) = print_nat n ⧺ "." ⧺ decimals 16 (p + 1) (p + d + 2)
print_num (fraction (negsuc n) p d) = "-" ⧺ print_nat n ⧺ "." ⧺ decimals 16 (d + 1) (p + d + 2)
print_num infinity = "Infinity"
print_num nan = "NaN"

abbrev is_digit : ℕ → Bool
is_digit c = leb b'0' c && leb c b'9'

abbrev is_space : ℕ → Bool
is_space c = c == 32 || (leb 9 c && leb c 13)

-- The digits at the front, after `n`.
read_digits : ℕ → String → ℕ
read_digits n String.[] = n
read_digits n (String.◌∷◌ c s) =
    let more = read_digits (n * 10 + (code c - b'0')) s in if is_digit (code c) then more else n

read_natural : String → (ℕ → Num) → Num
read_natural String.[] found = nan
read_natural (String.◌∷◌ c s) found =
    if is_digit (code c) then found (read_digits (code c - b'0') s) else nan

abbrev negated : ℕ → Num
negated zero = nat 0
negated (suc n) = int (negsuc n)

-- `parseInt(s, 10)`
unfoldable pub parse_int : String → Num
unfolding read_digits read_natural
parse_int String.[] = nan
parse_int (String.◌∷◌ c s) =
    let rest = parse_int s in
    if is_space (code c)
    then rest
    else if code c == b'-'
    then read_natural s negated
    else if code c == b'+'
    then read_natural s nat
    else read_natural (String.◌∷◌ c s) nat

parse_int_tests :
    (parse_int " 5001x" ≡ nat 5001)
    × (parse_int "-7" ≡ int (negsuc 6))
    × (parse_int "x" ≡ nan)
    × (print_num (nat 5001) ≡ "5001")
    × (print_num (fraction (negsuc 1) 2 0) ≡ "-1.25")
    × (print_num (times_1000 (fraction (pos 0) 0 14)) ≡ "62.5")
unfolding parse_int print_num
parse_int_tests = (refl, refl, refl, refl, refl, refl)

Lacks-digit : (sep n : ℕ) → sep < b'0' → Lacks sep (digit n)
Lacks-digit sep zero h = omega arith
Lacks-digit sep (suc zero) h = omega arith
Lacks-digit sep (suc (suc zero)) h = omega arith
Lacks-digit sep (suc (suc (suc zero))) h = omega arith
Lacks-digit sep (suc (suc (suc (suc zero)))) h = omega arith
Lacks-digit sep (suc (suc (suc (suc (suc zero))))) h = omega arith
Lacks-digit sep (suc (suc (suc (suc (suc (suc zero)))))) h = omega arith
Lacks-digit sep (suc (suc (suc (suc (suc (suc (suc zero))))))) h = omega arith
Lacks-digit sep (suc (suc (suc (suc (suc (suc (suc (suc zero)))))))) h = omega arith
Lacks-digit sep _ h = omega arith

Lacks-print_from :
    (sep f n : ℕ) (acc : String) → sep < b'0' → Lacks sep acc → Lacks sep (print_from f n acc)
unfolding print_from
Lacks-print_from sep zero n acc h k = k
Lacks-print_from sep (suc f) n acc h k =
    let longer = Lacks-append sep (digit (n % 10)) acc (Lacks-digit sep (n % 10) h) k in
    elim (Bool-cases (ltb n 10)) [
      | inl last ↦ rw last longer
      | inr other ↦ rw other (Lacks-print_from sep f (n / 10) _ h longer)
    ]

Lacks-print_nat : (sep n : ℕ) → sep < b'0' → Lacks sep (print_nat n)
unfolding print_nat
Lacks-print_nat sep n h = Lacks-print_from sep (n + 1) n "" h tt

Lacks-decimals : (sep f r q : ℕ) → sep < b'0' → Lacks sep (decimals f r q)
unfolding decimals
Lacks-decimals sep zero r q h = tt
Lacks-decimals sep (suc f) r q h =
    Lacks-append sep (digit (r * 10 / q)) _ (Lacks-digit sep (r * 10 / q) h)
      (elim (Bool-cases (r * 10 % q == 0)) [
        | inl ends ↦ rw ends tt
        | inr goes_on ↦ rw goes_on (Lacks-decimals sep f (r * 10 % q) q h)
      ])

Lacks-mixed :
    (sep n r q : ℕ) → sep < b'0' → sep ≢ b'.' → Lacks sep (print_nat n ⧺ "." ⧺ decimals 16 r q)
Lacks-mixed sep n r q h k =
    Lacks-append sep (print_nat n) _ (Lacks-print_nat sep n h)
      (Lacks-append sep "." _ (omega arith) (Lacks-decimals sep 16 r q h))

-- A printed number holds no character below the digits but the minus sign and the point.
pub Lacks-print_num :
    (sep : ℕ) (n : Num) → sep < b'0' → sep ≢ b'-' → sep ≢ b'.' → Lacks sep (print_num n)
unfolding print_num
Lacks-print_num sep (int (pos n)) h k l = Lacks-print_nat sep n h
Lacks-print_num sep (int (negsuc n)) h k l =
    Lacks-append sep "-" (print_nat (n + 1)) (omega arith) (Lacks-print_nat sep (n + 1) h)
Lacks-print_num sep (fraction (pos n) p d) h k l = Lacks-mixed sep n (p + 1) (p + d + 2) h l
Lacks-print_num sep (fraction (negsuc n) p d) h k l =
    Lacks-append sep "-" _ (omega arith) (Lacks-mixed sep n (d + 1) (p + d + 2) h l)
Lacks-print_num sep infinity h k l = omega arith
Lacks-print_num sep nan h k l = omega arith
