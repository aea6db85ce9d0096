-- ===== src/Tests/Stopped.antt =====
-- An agent that is stopped, with a cache that forgets what is deleted.
use mathlib.Core.Path.{subst}
use aries_guardianship_agenc.Base.{
  String, List, [], ◌∷◌, ◌≡◌, refl, eq_iff, Bool-cases, ◌⊎◌, inl, inr, str_eq, if◌then◌else◌, Among,
}
use aries_guardianship_agenc.Js.Value.{Value, undefined, null, str}
use aries_guardianship_agenc.Effects.{
  Env, Result, ok, err, Thrown, Call, Trace, cache_get, cache_set, cache_del,
}
use aries_guardianship_agenc.Controller.{handle_request}
use aries_guardianship_agenc.Agency.{
  Operation, create_agent, connect_agent, stop_agent, webhook, docker, serve_from, serve_all,
}
use aries_guardianship_agenc.Agency.Stopped.{Creates, Live, GivesLive, handle_request-Ends}
use aries_guardianship_agenc.Tests.World.{world, is_up, dto}

abbrev forgetting : Trace → String → Result Value
forgetting [] key = ok undefined
forgetting (cache_set k u n ∷ t) key = if str_eq k key then ok u else forgetting t key
forgetting (cache_del k ∷ t) key = if str_eq k key then ok undefined else forgetting t key
forgetting (_ ∷ t) key = forgetting t key

abbrev env : Env
env = world is_up forgetting

abbrev Given : Trace → String → Value → Type 0
Given t key v = ((v ≡ undefined) ⊎ (v ≡ null)) ⊎ Live env key v t

more :
    (c : Call) (t : Trace) (key : String) (v : Value)
    → (c ≡ cache_del key → ¬ (env.reply t (cache_del key) ≡ ok tt))
    → Given t key v
    → Given (c ∷ t) key v
more c t key v kept (inl missing) = inl missing
more c t key v kept (inr live) = inr (inr (kept, live))

forgetting-live : (t : Trace) (key : String) (v : Value) → forgetting t key ≡ ok v → Given t key v
forgetting-live [] key v h = inl (inl (cc h))
forgetting-live (cache_set k u n ∷ t) key v h = elim (Bool-cases (str_eq k key)) [
  | inl same ↦
      let e : u ≡ v = cc (rw same at h) in inr (inl (n, rw (← (eq_iff k key).0 same, e) refl))
  | inr other ↦
      more (cache_set k u n) t key v (λ e. absurd (cc e)) (forgetting-live t key v (rw other at h))
]
forgetting-live (cache_del k ∷ t) key v h = elim (Bool-cases (str_eq k key)) [
  | inl same ↦ inl (inl (cc (rw same at h)))
  | inr other ↦
      more (cache_del k) t key v (λ e _. cc ((eq_iff k key).1 (cc e), other))
        (forgetting-live t key v (rw other at h))
]
forgetting-live (c ∷ t) key v h = more c t key v (λ e. absurd (cc e)) (forgetting-live t key v h)

gives_live : GivesLive env
gives_live = record { gives = forgetting-live }

-- The agent has been created, and a webhook of it handled.
abbrev running : Trace
running =
    serve_all env docker 4 (webhook "a" "topic" "connections" undefined ∷ create_agent dto ∷ [])

abbrev later : List Operation
later =
    connect_agent (record { agent_id = "a"; admin_api_key = str "key" })
    ∷ webhook "a" "topic" "connections" undefined
    ∷ []

never : (next : Operation) → Among next later → ¬ Creates "a" next
never next (inl e) creates = subst (Creates "a") e creates
never next (inr (inl e)) creates = subst (Creates "a") e creates
never next (inr (inr h)) creates = elim h [ ]

abbrev after : Trace
after =
    serve_from env docker 4
      (serve_from env docker 4 running (stop_agent (record { agent_id = "a" }) ∷ [])) later

handle_request-Ends_example :
    (e : Thrown) × (handle_request env "a" "topic" "connections" undefined after
      ≡ (err e, cache_get "a" ∷ after))
handle_request-Ends_example =
    handle_request-Ends env "a" docker 4 (stop_agent (record { agent_id = "a" })) later running
      "topic" "connections" undefined gives_live (inl refl) refl never
