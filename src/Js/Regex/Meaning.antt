-- ===== src/Js/Regex/Meaning.antt =====
-- What a regular expression matches, without the order in which the matcher tries.
use text.Mathlib.TextLemmas.{cons-append, nil-append, nil≢cons, append-eq-nil_iff}
use text.Mathlib.TextEquality.{Char-path}
use aries_guardianship_agenc.Base.{
  ℕ, String, Char, code, Bool, true, false, List, [], ◌∷◌, ◌≡◌, ◌≢◌, refl, sym, ap, ◌∙◌, ◌↔◌, ◌⊎◌,
  inl, inr, ◌||◌, ◌==◌, ◌⧺◌, Bool-cases, arith, Among, Among-append,
}
use aries_guardianship_agenc.Js.Regex.{
  Regex, one, many, seq, optional, rests, rests_one, rests_many, rests_each, found_in, is_found,
  literal, some_of,
}

-- Every character is of the class.
abbrev pub AllOf : (ℕ → Bool) → String → Type 0
AllOf p String.[] = Unit
AllOf p (String.◌∷◌ c s) = (p (code c) ≡ true) × AllOf p s

-- A match at the start of `s` leaves `t`.
abbrev pub Matches : Regex → String → String → Type 0
Matches (one p) s t = (c : Char) × (s ≡ String.◌∷◌ c t) × (p (code c) ≡ true)
Matches (many p) s t = (u : String) × (s ≡ u ⧺ t) × AllOf p u
Matches (seq r q) s t = (u : String) × Matches r s u × Matches q u t
Matches (optional r) s t = Matches r s t ⊎ (s ≡ t)

Among-rests_each :
    (f : String → List String) (t : String) (xs : List String)
    → Among t (rests_each f xs) ↔ ((u : String) × Among u xs × Among t (f u))
unfolding rests_each
Among-rests_each f t [] = (λ h. absurd h, λ h. absurd h.1)
Among-rests_each f t (x ∷ xs) =
    let (to, from) = Among-rests_each f t xs in
    let (split, join) = Among-append t (f x) (rests_each f xs) in
    (
      λ h. elim (split h) [
        | inl a ↦ (x, inl refl, a)
        | inr b ↦ let (u, among, k) = to b in (u, inr among, k)
      ],
      λ (u, among, k). elim among [
        | inl e ↦ join (inl (rw (← e) k))
        | inr b ↦ join (inr (from (u, b, k)))
      ],
    )

Among-rests_one : (p : ℕ → Bool) (s t : String) → Among t (rests_one p s) ↔ Matches (one p) s t
unfolding rests_one
Among-rests_one p String.[] t = (λ h. absurd h, λ (c, e, h). absurd (nil≢cons e))
Among-rests_one p (String.◌∷◌ c s) t = elim (Bool-cases (p (code c))) [
  | inl good ↦ rw good (
    λ h. elim h [ inl e ↦ (c, ap (λ u. String.◌∷◌ c u) (sym e), good) | inr f ↦ absurd f ],
    λ (d, e, k). inl (cc e),
  )
  | inr bad ↦ rw bad (λ h. absurd h, λ (d, e, k). absurd (cc (bad, e, k)))
]

Among-rests_many : (p : ℕ → Bool) (s t : String) → Among t (rests_many p s) ↔ Matches (many p) s t
unfolding rests_many
Among-rests_many p String.[] t = (
  λ h. elim h [ inl e ↦ ("", rw nil-append (sym e), tt) | inr f ↦ absurd f ],
  λ (u, e, h). inl ((append-eq-nil_iff.0 (sym e)).1),
)
Among-rests_many p (String.◌∷◌ c s) t =
    let (to, from) = Among-rests_many p s t in
    elim (Bool-cases (p (code c))) [
      | inl good ↦
          let (split, join) = Among-append t (rests_many p s) (String.◌∷◌ c s ∷ []) in
          rw good (
            λ h. elim (split h) [
              | inl k ↦
                  let (u, e, all) = to k in
                  (String.◌∷◌ c u, rw cons-append (ap (λ v. String.◌∷◌ c v) e), (good, all))
              | inr k ↦ elim k [ inl e ↦ ("", rw nil-append (sym e), tt) | inr f ↦ absurd f ]
            ],
            λ (u, e, all). join (longer u e all from),
          )
      | inr bad ↦ rw bad (
        λ h. elim h [ inl e ↦ ("", rw nil-append (sym e), tt) | inr f ↦ absurd f ],
        λ (u, e, all). inl (whole bad u e all),
      )
    ]
  where
    longer :
        (u : String)
        → String.◌∷◌ c s ≡ u ⧺ t
        → AllOf p u
        → (Matches (many p) s t → Among t (rests_many p s))
        → Among t (rests_many p s) ⊎ Among t (String.◌∷◌ c s ∷ [])
    longer String.[] e all from = inr (inl (sym (e ∙ nil-append t)))
    longer (String.◌∷◌ d u) e (h, all) from = inl (from (u, cc (e, cons-append d u t), all))

    whole :
        p (code c) ≡ false → (u : String) → String.◌∷◌ c s ≡ u ⧺ t → AllOf p u → t ≡ String.◌∷◌ c s
    whole bad String.[] e all = sym (e ∙ nil-append t)
    whole bad (String.◌∷◌ d u) e (h, all) = absurd (cc (bad, h, e, cons-append d u t))

-- The matcher tries exactly the matches.
pub rests_iff : (r : Regex) (s t : String) → Among t (rests r s) ↔ Matches r s t
unfolding rests
rests_iff (one p) s t = Among-rests_one p s t
rests_iff (many p) s t = Among-rests_many p s t
rests_iff (seq r q) s t =
    let (to, from) = Among-rests_each (rests q) t (rests r s) in
    (
      λ h. let (u, a, b) = to h in (u, (rests_iff r s u).0 a, (rests_iff q u t).0 b),
      λ (u, a, b). from (u, (rests_iff r s u).1 a, (rests_iff q u t).1 b),
    )
rests_iff (optional r) s t =
    let (split, join) = Among-append t (rests r s) (s ∷ []) in
    (
      λ h. elim (split h) [
        | inl a ↦ inl ((rests_iff r s t).0 a)
        | inr b ↦ elim b [ inl e ↦ inr (sym e) | inr f ↦ absurd f ]
      ],
      λ h. elim h [ inl a ↦ join (inl ((rests_iff r s t).1 a)) | inr e ↦ join (inr (inl (sym e))) ],
    )

-- A match somewhere in the text.
abbrev pub Occurs : Regex → String → Type 0
Occurs r s =
    (before : String) × (rest : String) × (after : String) × (s ≡ before ⧺ rest)
    × Matches r rest after

is_found_iff : (ss : List String) → (is_found ss ≡ true) ↔ ((t : String) × Among t ss)
is_found_iff [] = (λ h. absurd (cc h), λ h. absurd h.1)
is_found_iff (s ∷ ss) = (λ h. (s, inl refl), λ h. refl)

here_iff : (r : Regex) (s : String) → (is_found (rests r s) ≡ true) ↔ ((t : String) × Matches r s t)
here_iff r s =
    let (to, from) = is_found_iff (rests r s) in
    (
      λ h. let (t, a) = to h in (t, (rests_iff r s t).0 a),
      λ (t, m). from (t, (rests_iff r s t).1 m),
    )

or_true : (a b : Bool) → (a || b) ≡ true ↔ ((a ≡ true) ⊎ (b ≡ true))
or_true true b = (λ h. inl refl, λ h. refl)
or_true false b = (λ h. inr h, λ h. elim h [ inl e ↦ absurd (cc e) | inr e ↦ e ])

-- The test of a regular expression without `^` is true exactly if a match stands somewhere.
pub found_in_iff : (r : Regex) (s : String) → (found_in r s ≡ true) ↔ Occurs r s
unfolding found_in
found_in_iff r String.[] =
    let (to, from) = here_iff r String.[] in
    (
      λ h. let (t, m) = to h in ("", "", t, sym (nil-append ""), m),
      λ (b, u, t, e, m). from (t, rw (← (append-eq-nil_iff.0 (sym e)).1) m),
    )
found_in_iff r (String.◌∷◌ c s) =
    let (to, from) = here_iff r (String.◌∷◌ c s) in
    let (later, earlier) = found_in_iff r s in
    let (split, join) = or_true (is_found (rests r (String.◌∷◌ c s))) (found_in r s) in
    (
      λ h. elim (split h) [
        | inl k ↦ let (t, m) = to k in ("", String.◌∷◌ c s, t, sym (nil-append (String.◌∷◌ c s)), m)
        | inr k ↦
            let (b, u, t, e, m) = later k in
            (String.◌∷◌ c b, u, t, ap (λ v. String.◌∷◌ c v) e ∙ sym (cons-append c b u), m)
      ],
      λ (b, u, t, e, m). join (somewhere b u t e m from earlier),
    )
  where
    somewhere :
        (b u t : String)
        → String.◌∷◌ c s ≡ b ⧺ u
        → Matches r u t
        → (((t : String) × Matches r (String.◌∷◌ c s) t)
            → is_found (rests r (String.◌∷◌ c s)) ≡ true)
        → (Occurs r s → found_in r s ≡ true)
        → (is_found (rests r (String.◌∷◌ c s)) ≡ true) ⊎ (found_in r s ≡ true)
    somewhere String.[] u t e m from earlier = inl (from (t, rw (e ∙ nil-append u) m))
    somewhere (String.◌∷◌ d b) u t e m from earlier =
        inr (earlier (b, u, t, cc (e, cons-append d b u), m))

equal_of : (m n : ℕ) → (m == n) ≡ true → m ≡ n
equal_of m n h = ground arith

equal_to : (n : ℕ) → (n == n) ≡ true
equal_to n = ground arith

-- A literal in front.
pub Matches-literal :
    (p : String) (r : Regex) (s t : String)
    → Matches (literal p r) s t ↔ ((u : String) × (s ≡ p ⧺ u) × Matches r u t)
Matches-literal String.[] r s t =
    (λ m. (s, sym (nil-append s), m), λ (u, e, m). rw (e ∙ nil-append u) m)
Matches-literal (String.◌∷◌ c p) r s t = (
  λ (v, (d, e, same), m).
      let (u, e', m') = (Matches-literal p r v t).0 m in
      (
        u,
        e
            ∙ ap (λ x. String.◌∷◌ x v) (Char-path d c (equal_of (code d) (code c) same))
            ∙ ap (λ w. String.◌∷◌ c w) e'
            ∙ sym (cons-append c p u),
        m',
      ),
  λ (u, e, m). (
    p ⧺ u,
    (c, e ∙ cons-append c p u, equal_to (code c)),
    (Matches-literal p r (p ⧺ u) t).1 (u, refl, m),
  ),
)

-- `[…]+` takes a text that is not empty.
pub Matches-some_of :
    (p : ℕ → Bool) (s t : String)
    → Matches (some_of p) s t ↔ ((u : String) × (s ≡ u ⧺ t) × (u ≢ "") × AllOf p u)
Matches-some_of p s t = (
  λ (v, (c, e, h), (u, e', all)). (
    String.◌∷◌ c u,
    e ∙ ap (λ w. String.◌∷◌ c w) e' ∙ sym (cons-append c u t),
    λ f. nil≢cons (sym f),
    (h, all),
  ),
  λ (u, e, filled, all). split u e filled all,
)
  where
    split : (u : String) → s ≡ u ⧺ t → u ≢ "" → AllOf p u → Matches (some_of p) s t
    split String.[] e filled all = absurd (filled refl)
    split (String.◌∷◌ c u) e filled (h, all) =
        (u ⧺ t, (c, e ∙ cons-append c u t, h), (u, refl, all))
