-- ===== src/Routes/Dispatch.antt =====
-- Which route a request takes.
use mathlib.Core.Path.{subst}
use aries_guardianship_agenc.Base.{
  String, Bool, true, not, ◌&&◌, and_true, Option, none, some, List, [], ◌∷◌, ◌≡◌, ◌≢◌, refl, sym,
  ap, ◌∙◌, ◌⊎◌, inl, inr, ◌↔◌, Among,
}
use aries_guardianship_agenc.Routes.{
  Verb, same_verb, Route, answers, routes, app_routes, manager_routes, controller_routes,
  multitenant_routes, transaction_routes,
}
use aries_guardianship_agenc.Routes.Clash.{IgnoresCase, begins, covers-begins, meet, answers-meet}

Option-cases : {A : Type 0} (o : Option A) → (o ≡ none) ⊎ ((a : A) × (o ≡ some a))
Option-cases none = inl refl
Option-cases (some a) = inr (a, refl)

-- No route of the list clashes with the route, and no two of the list with each other.
abbrev apart : Route → List Route → Bool
apart r [] = true
apart r (q ∷ qs) = not (meet r q) && apart r qs

abbrev separate : List Route → Bool
separate [] = true
separate (r ∷ rs) = apart r rs && separate rs

separate-routes : separate routes ≡ true
unfolding routes app_routes manager_routes controller_routes multitenant_routes transaction_routes
separate-routes = refl

apart-Among : (r q : Route) (qs : List Route) → apart r qs ≡ true → Among q qs → meet r q ≡ true → ⊥
apart-Among r q [] h among m = elim among [ ]
apart-Among r q (p ∷ qs) h (inl e) m =
    let (a, rest) = and_true (not (meet r p)) _ h in cc (a, ap (meet r) e, m)
apart-Among r q (p ∷ qs) h (inr among) m =
    apart-Among r q qs (and_true (not (meet r p)) _ h).1 among m

module _ (same : String → String → Bool) (ignores : IgnoresCase same) (verb : Verb)
    (parts : List String) where
  separate_unique :
      (rs : List Route) (r q : Route)
      → separate rs ≡ true
      → Among r rs
      → Among q rs
      → answers same r verb parts ≡ true
      → answers same q verb parts ≡ true
      → r ≡ q
  separate_unique [] r q h j k a b = elim j [ ]
  separate_unique (p ∷ rs) r q h (inl e) (inl f) a b = e ∙ sym f
  separate_unique (p ∷ rs) r q h (inl e) (inr k) a b = absurd (
      apart-Among p q rs (and_true (apart p rs) _ h).0 k
        (subst (λ x. meet x q ≡ true) e (answers-meet same ignores r q verb parts a b)))
  separate_unique (p ∷ rs) r q h (inr k) (inl e) a b = absurd (
      apart-Among p r rs (and_true (apart p rs) _ h).0 k
        (subst (λ x. meet x r ≡ true) e (answers-meet same ignores q r verb parts b a)))
  separate_unique (p ∷ rs) r q h (inr j) (inr k) a b =
      separate_unique rs r q (and_true (apart p rs) _ h).1 j k a b

-- No route of the list begins as the public endpoints of agents do.
abbrev none_begin : List Route → Bool
none_begin [] = true
none_begin (r ∷ rs) = not (begins ("v1" ∷ "router" ∷ []) r.path) && none_begin rs

none_begin-routes : none_begin routes ≡ true
unfolding routes app_routes manager_routes controller_routes multitenant_routes transaction_routes
none_begin-routes = refl

none_begin-Among :
    (rs : List Route) (r : Route)
    → none_begin rs ≡ true
    → Among r rs
    → begins ("v1" ∷ "router" ∷ []) r.path ≡ true
    → ⊥
none_begin-Among [] r h among b = elim among [ ]
none_begin-Among (q ∷ rs) r h (inl e) b =
    let (n, rest) = and_true (not (begins ("v1" ∷ "router" ∷ []) q.path)) _ h in
    cc (n, ap (λ x. begins ("v1" ∷ "router" ∷ []) x.path) e, b)
none_begin-Among (q ∷ rs) r h (inr later) b =
    none_begin-Among rs r (and_true (not (begins ("v1" ∷ "router" ∷ []) q.path)) _ h).1 later b

-- What express does with the routes that Nest registers: a request takes a route that answers it, if
-- there is one. Of several, it may take any.
pub record Express : Type 0 where
  pub same : String → String → Bool
  pub ignores : IgnoresCase same
  pub dispatch : List Route → Verb → List String → Option Route
  pub takes :
      (rs : List Route) (verb : Verb) (parts : List String) (r : Route)
      → dispatch rs verb parts ≡ some r
      → Among r rs × (answers same r verb parts ≡ true)
  pub finds :
      (rs : List Route) (verb : Verb) (parts : List String) (r : Route)
      → Among r rs
      → answers same r verb parts ≡ true
      → dispatch rs verb parts ≢ none

module _ (express : Express) (rs : List Route) (members : (q : Route) → Among q rs ↔ Among q routes)
    (verb : Verb) (parts : List String) where
  -- The only route that answers is taken.
  taken :
      (r : Route)
      → Among r routes
      → answers express.same r verb parts ≡ true
      → express.dispatch rs verb parts ≡ some r
  taken r among a = elim (Option-cases (express.dispatch rs verb parts)) [
    | inl missing ↦ absurd (express.finds rs verb parts r ((members r).1 among) a missing)
    | inr (q, found) ↦
        let (listed, b) = express.takes rs verb parts q found in
        found
        ∙ ap some (
            separate_unique express.same express.ignores verb parts routes q r separate-routes
              ((members q).0 listed) among b a)
  ]

  -- A request below the public endpoint of an agent takes no route.
  none_below : express.dispatch rs verb ("v1" ∷ "router" ∷ parts) ≡ none
  none_below = elim (Option-cases (express.dispatch rs verb ("v1" ∷ "router" ∷ parts))) [
    | inl missing ↦ missing
    | inr (r, found) ↦
        let (listed, a) = express.takes rs verb ("v1" ∷ "router" ∷ parts) r found in
        absurd (
          none_begin-Among routes r none_begin-routes ((members r).0 listed) (
            covers-begins express.same express.ignores ("v1" ∷ "router" ∷ []) parts r.path
              (and_true (same_verb r.verb verb) _ a).1))
  ]

  -- Of the endpoints, a request takes the one whose verb and path are those of the request, in
  -- whatever order the routes are registered and whichever of several the server would prefer. A
  -- request below the public endpoint of an agent takes none of them. Literal segments match, at
  -- most, texts that differ from them in the case of letters.
  pub dispatch_iff :
      ((r : Route)
        → (express.dispatch rs verb parts ≡ some r)
          ↔ (Among r routes × (answers express.same r verb parts ≡ true)))
      × (express.dispatch rs verb ("v1" ∷ "router" ∷ parts) ≡ none)
  dispatch_iff = (
    λ r. (
      λ h. let (listed, a) = express.takes rs verb parts r h in ((members r).0 listed, a),
      λ h. taken r h.0 h.1,
    ),
    none_below,
  )
