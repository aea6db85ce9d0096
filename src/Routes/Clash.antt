-- ===== src/Routes/Clash.antt =====
-- When two routes can answer the same request.
use aries_guardianship_agenc.Base.{
  ℕ, String, code, Bool, true, false, ◌&&◌, and_true, ◌+◌, ◌==◌, leb, if◌then◌else◌, List, [], ◌∷◌,
  ◌++◌, ◌≡◌, refl, sym, ◌∙◌, arith,
}
use aries_guardianship_agenc.Routes.{
  Verb, get, post, delete, same_verb, Segment, literal, param, Route, covers, answers,
}

-- The lower case of an ASCII letter.
abbrev pub lower_code : ℕ → ℕ
lower_code c = if leb b'A' c && leb c b'Z' then c + 32 else c

abbrev pub lower_codes : String → List ℕ
lower_codes String.[] = []
lower_codes (String.◌∷◌ c s) = lower_code (code c) ∷ lower_codes s

abbrev pub same_codes : List ℕ → List ℕ → Bool
same_codes [] [] = true
same_codes (a ∷ cs) (b ∷ bs) = a == b && same_codes cs bs
same_codes _ _ = false

-- A literal segment matches, at most, the texts that differ from it in the case of letters.
pub record IgnoresCase (same : String → String → Bool) : Type 0 where
  pub matched : (a s : String) → same a s ≡ true → lower_codes a ≡ lower_codes s

-- Two paths that some request may have both.
abbrev pub clash : List Segment → List Segment → Bool
clash [] [] = true
clash (literal a ∷ p) (literal b ∷ q) = same_codes (lower_codes a) (lower_codes b) && clash p q
clash (_ ∷ p) (_ ∷ q) = clash p q
clash _ _ = false

same_codes_refl : (cs : List ℕ) → same_codes cs cs ≡ true
same_codes_refl [] = refl
same_codes_refl (a ∷ cs) = ground (arith, same_codes_refl cs)

same_verb-eq : (v w : Verb) → same_verb v w ≡ true → v ≡ w
same_verb-eq get get h = refl
same_verb-eq post post h = refl
same_verb-eq delete delete h = refl
same_verb-eq get post h = cc
same_verb-eq get delete h = cc
same_verb-eq post get h = cc
same_verb-eq post delete h = cc
same_verb-eq delete get h = cc
same_verb-eq delete post h = cc

-- Whether a path can begin with these segments of a request.
abbrev pub begins : List String → List Segment → Bool
begins [] path = true
begins (s ∷ parts) [] = false
begins (s ∷ parts) (literal a ∷ path) =
    same_codes (lower_codes a) (lower_codes s) && begins parts path
begins (s ∷ parts) (param name ∷ path) = begins parts path

-- Two routes that some request may take both.
abbrev pub meet : Route → Route → Bool
meet r q = same_verb r.verb q.verb && clash r.path q.path

same_verb_refl : (v : Verb) → same_verb v v ≡ true
same_verb_refl get = refl
same_verb_refl post = refl
same_verb_refl delete = refl

module _ (same : String → String → Bool) (ignores : IgnoresCase same) where
  no_parts : (c : Segment) (p : List Segment) → covers same (c ∷ p) [] ≡ true → ⊥
  no_parts (literal a) p h = cc h
  no_parts (param x) p h = cc h

  covers-clash :
      (p q : List Segment) (parts : List String)
      → covers same p parts ≡ true
      → covers same q parts ≡ true
      → clash p q ≡ true
  covers-clash [] [] parts h k = refl
  covers-clash [] (d ∷ q) [] h k = absurd (no_parts d q k)
  covers-clash [] (d ∷ q) (s ∷ parts) h k = absurd (cc h)
  covers-clash (c ∷ p) [] [] h k = absurd (no_parts c p h)
  covers-clash (c ∷ p) [] (s ∷ parts) h k = absurd (cc k)
  covers-clash (c ∷ p) (d ∷ q) [] h k = absurd (no_parts c p h)
  covers-clash (literal a ∷ p) (literal b ∷ q) (s ∷ parts) h k =
      let (m, h') = and_true (same a s) _ h in
      let (n, k') = and_true (same b s) _ k in
      rw (ignores.matched a s m ∙ sym (ignores.matched b s n))
        (rw (same_codes_refl (lower_codes b)) (covers-clash p q parts h' k'))
  covers-clash (literal a ∷ p) (param y ∷ q) (s ∷ parts) h k =
      covers-clash p q parts (and_true (same a s) _ h).1 k
  covers-clash (param x ∷ p) (literal b ∷ q) (s ∷ parts) h k =
      covers-clash p q parts h (and_true (same b s) _ k).1
  covers-clash (param x ∷ p) (param y ∷ q) (s ∷ parts) h k = covers-clash p q parts h k

  pub answers-meet :
      (r q : Route) (verb : Verb) (parts : List String)
      → answers same r verb parts ≡ true
      → answers same q verb parts ≡ true
      → meet r q ≡ true
  answers-meet r q verb parts h k =
      let (u, p) = and_true (same_verb r.verb verb) _ h in
      let (v, q') = and_true (same_verb q.verb verb) _ k in
      rw (same_verb-eq r.verb verb u, same_verb-eq q.verb verb v)
        (rw (same_verb_refl verb) (covers-clash r.path q.path parts p q'))

  pub covers-begins :
      (parts rest : List String) (path : List Segment)
      → covers same path (parts ++ rest) ≡ true
      → begins parts path ≡ true
  covers-begins [] rest path h = refl
  covers-begins (s ∷ parts) rest [] h = absurd (cc h)
  covers-begins (s ∷ parts) rest (literal a ∷ path) h =
      let (m, more) = and_true (same a s) _ h in
      rw (ignores.matched a s m)
        (rw (same_codes_refl (lower_codes s)) (covers-begins parts rest path more))
  covers-begins (s ∷ parts) rest (param name ∷ path) h = covers-begins parts rest path h
