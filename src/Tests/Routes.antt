-- ===== src/Tests/Routes.antt =====
-- Requests to the endpoints, with the routes registered in another order.
use mathlib.Core.Path.{subst}
use aries_guardianship_agenc.Base.{
  String, Bool-cases, if◌then◌else◌, ◌≢◌, sym, Option, none, some, List, [], ◌∷◌, ◌++◌, ◌≡◌, refl,
  ap, true, inl, inr, ◌↔◌, str_eq, eq_iff, Among, Among-append,
}
use aries_guardianship_agenc.Routes.{
  Verb, post, literal, param, Route, route, register_onetime_key, app_routes, manager_routes,
  controller_routes, multitenant_routes, transaction_routes, routes, answers,
}
use aries_guardianship_agenc.Routes.Clash.{IgnoresCase, lower_codes}
use aries_guardianship_agenc.Routes.Dispatch.{Express, dispatch_iff}

pub exactly : IgnoresCase str_eq
exactly = record { matched = λ a s h. ap lower_codes ((eq_iff a s).0 h) }

-- The first route that answers.
abbrev pub dispatch : List Route → Verb → List String → Option Route
dispatch [] verb parts = none
dispatch (r ∷ rs) verb parts =
    let rest = dispatch rs verb parts in if answers str_eq r verb parts then some r else rest

pub dispatch-some :
    (rs : List Route) (verb : Verb) (parts : List String) (r : Route)
    → dispatch rs verb parts ≡ some r
    → Among r rs × (answers str_eq r verb parts ≡ true)
dispatch-some [] verb parts r h = absurd (cc h)
dispatch-some (q ∷ rs) verb parts r h = elim (Bool-cases (answers str_eq q verb parts)) [
  | inl taken ↦
      let e : r ≡ q = cc (rw taken at h) in
      (inl e, subst (λ x. answers str_eq x verb parts ≡ true) (sym e) taken)
  | inr other ↦ let rest = dispatch-some rs verb parts r (rw other at h) in (inr rest.0, rest.1)
]

pub dispatch-finds :
    (rs : List Route) (verb : Verb) (parts : List String) (r : Route)
    → Among r rs
    → answers str_eq r verb parts ≡ true
    → dispatch rs verb parts ≢ none
dispatch-finds [] verb parts r among a h = elim among [ ]
dispatch-finds (p ∷ rs) verb parts r among a h = elim (Bool-cases (answers str_eq p verb parts)) [
  | inl taken ↦ cc (rw taken at h)
  | inr other ↦ elim among [
    | inl e ↦ cc (a, ap (λ x. answers str_eq x verb parts) e, other)
    | inr later ↦ dispatch-finds rs verb parts r later a (rw other at h)
  ]
]

abbrev pub first_match : Express
first_match = record {
  same = str_eq;
  ignores = exactly;
  dispatch = dispatch;
  takes = dispatch-some;
  finds = dispatch-finds;
}

abbrev later : List Route
later = manager_routes ++ (controller_routes ++ (multitenant_routes ++ transaction_routes))

members : (q : Route) → Among q (later ++ app_routes) ↔ Among q routes
unfolding routes
members q =
    let (to, from) = Among-append q later app_routes in
    let (to', from') = Among-append q app_routes later in
    (
      λ h. from' (elim (to h) [ inl a ↦ inr a | inr b ↦ inl b ]),
      λ h. from (elim (to' h) [ inl a ↦ inr a | inr b ↦ inl b ]),
    )

abbrev path : List String
path = "v2" ∷ "transaction" ∷ "a" ∷ "registerOnetimeKey" ∷ []

dispatch_test :
    dispatch (later ++ app_routes) post path
    ≡ some (
        route post
          (literal "v2"
            ∷ literal "transaction"
            ∷ param "agentId"
            ∷ literal "registerOnetimeKey"
            ∷ [])
          register_onetime_key)
unfolding routes app_routes manager_routes controller_routes multitenant_routes transaction_routes
dispatch_test = refl

dispatch_iff_example :
    ((r : Route)
      → (dispatch (later ++ app_routes) post path ≡ some r)
        ↔ (Among r routes × (answers str_eq r post path ≡ true)))
    × (dispatch (later ++ app_routes) post ("v1" ∷ "router" ∷ path) ≡ none)
dispatch_iff_example = dispatch_iff first_match (later ++ app_routes) members post path
