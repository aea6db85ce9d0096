-- ===== src/Js/Regex/Matches.antt =====
-- The match that is tried first.
use text.Mathlib.TextLemmas.{cons-append, nil-append}
use aries_guardianship_agenc.Base.{
  String, Char, code, List, [], ◌∷◌, ◌++◌, some, ◌≡◌, refl, ◌==◌, ◌⧺◌, arith,
}
use aries_guardianship_agenc.Js.Text.{Lacks}
use aries_guardianship_agenc.Js.Regex.{
  Regex, one, seq, optional, literal, some_of, other_than, rests, rests_one, rests_many, rests_each,
  first, drop_match,
}

first-append : (xs ys : List String) (x : String) → first xs ≡ some x → first (xs ++ ys) ≡ some x
first-append [] ys x h = ground arith
first-append (y ∷ xs) ys x h = h

-- The first way through a sequence, if the first way through its first part goes on.
first-rests_each :
    (f : String → List String) (xs : List String) (x y : String)
    → first xs ≡ some x
    → first (f x) ≡ some y
    → first (rests_each f xs) ≡ some y
unfolding rests_each
first-rests_each f [] x y h k = ground arith
first-rests_each f (z ∷ xs) x y h k = first-append (f z) (rests_each f xs) y (cc (h, k))

-- `[^c]*` goes up to the first `c`.
first-rests_many :
    (c : Char) (s t : String)
    → Lacks (code c) s
    → first (rests_many (other_than (code c)) (s ⧺ String.◌∷◌ c t)) ≡ some (String.◌∷◌ c t)
unfolding rests_many
first-rests_many c String.[] t h = rw nil-append (ground arith)
first-rests_many c (String.◌∷◌ d s) t (p, h) = rw cons-append (
    ground (
      arith,
      first-append (rests_many (other_than (code c)) (s ⧺ String.◌∷◌ c t))
          (String.◌∷◌ d (s ⧺ String.◌∷◌ c t) ∷ []) (String.◌∷◌ c t) (first-rests_many c s t h),
    ))

-- A literal takes itself off.
pub first-literal :
    (p : String) (r : Regex) (s t : String)
    → first (rests r s) ≡ some t
    → first (rests (literal p r) (p ⧺ s)) ≡ some t
unfolding rests rests_one rests_each
first-literal String.[] r s t h = rw nil-append h
first-literal (String.◌∷◌ c p) r s t h =
    rw cons-append
      (ground (arith, first-append (rests (literal p r) (p ⧺ s)) [] t (first-literal p r s t h)))

-- `[^c]+c?` takes a text without `c` off, with the `c` behind it.
pub first-some_of :
    (c : Char) (d : Char) (s t : String)
    → Lacks (code c) (String.◌∷◌ d s)
    → first (
        rests
          (seq (some_of (other_than (code c))) (optional (one (λ e. e == code c))))
          (String.◌∷◌ d s ⧺ String.◌∷◌ c t))
      ≡ some t
unfolding rests rests_one
first-some_of c d s t (p, h) =
    let class = other_than (code c) in
    let taken : first (rests_one class (String.◌∷◌ d (s ⧺ String.◌∷◌ c t)))
        ≡ some (s ⧺ String.◌∷◌ c t) =
      ground arith in
    let closed : first (rests (optional (one (λ e. e == code c))) (String.◌∷◌ c t)) ≡ some t =
      ground arith in
    rw cons-append (
      first-rests_each (rests (optional (one (λ e. e == code c))))
        (rests (some_of class) (String.◌∷◌ d (s ⧺ String.◌∷◌ c t))) (String.◌∷◌ c t) t
        (first-rests_each (rests_many class) (rests_one class (String.◌∷◌ d (s ⧺ String.◌∷◌ c t)))
          (s ⧺ String.◌∷◌ c t) (String.◌∷◌ c t) taken (first-rests_many c s t h))
        closed)

pub drop_match-first : (r : Regex) (s t : String) → first (rests r s) ≡ some t → drop_match r s ≡ t
unfolding drop_match
drop_match-first r s t h = rw (h, drop_match) refl
