-- ===== src/Agency/Stopped.antt =====
-- What becomes of an agent that has been stopped.
use mathlib.Core.Path.{subst}
use aries_guardianship_agenc.Base.{
  ℕ, String, List, [], ◌∷◌, ◌++◌, ◌≡◌, refl, sym, ap, ◌∙◌, ◌⊎◌, inl, inr, Among, All,
}
use aries_guardianship_agenc.Js.Number.{Num}
use aries_guardianship_agenc.Js.Value.{Value, undefined, null}
use aries_guardianship_agenc.Effects.{
  Env, ok, err, Thrown, Call, Trace, cache_get, cache_set, cache_del,
}
use aries_guardianship_agenc.Effects.Laws.{Result-cases}
use aries_guardianship_agenc.Config.{build_config}
use aries_guardianship_agenc.Controller.{handle_request}
use aries_guardianship_agenc.Controller.Laws.{handled, handle_request-missing, handle_request_total}
use aries_guardianship_agenc.Manager
use aries_guardianship_agenc.Manager.{spin_down_agent}
use aries_guardianship_agenc.Manager.Endpoints.{spun_down, spin_down_agent_total}
use aries_guardianship_agenc.Agency.{
  Operation, create_agent, stop_agent, create_wallet, spin_down, Place, manager_of, serve,
  serve_from,
}
use aries_guardianship_agenc.Agency.Caused.{Since-start, Caused, AllCaused}
use aries_guardianship_agenc.Agency.Agents.{stop_agent-AllCaused}
use aries_guardianship_agenc.Agency.Requested.{serve_from-AllCaused}

module _ (id : String) where
  -- The requests that make an entry of that name.
  abbrev pub Creates : Operation → Type 0
  Creates (create_agent body) = body.agent_id ≡ id
  Creates (create_wallet body) = body.wallet_name ≡ id
  Creates _ = ⊥

  -- A request, or a timer, that ends the agent.
  abbrev pub Ends : Operation → Type 0
  Ends op = (op ≡ stop_agent (record { agent_id = id })) ⊎ (op ≡ spin_down id)

-- A value that was stored under the key, where no deletion of the key has worked since.
abbrev pub Live : Env → String → Value → Trace → Type 0
Live env key v [] = ⊥
Live env key v (c ∷ t) =
    ((ttl : Num) × (c ≡ cache_set key v ttl))
    ⊎ ((c ≡ cache_del key → ¬ (env.reply t (cache_del key) ≡ ok tt)) × Live env key v t)

-- A cache gives nothing that has been deleted: only `undefined`, `null` or a live value.
pub record GivesLive (env : Env) : Type 0 where
  pub gives :
      (t : Trace) (key : String) (v : Value)
      → env.reply t (cache_get key) ≡ ok v
      → ((v ≡ undefined) ⊎ (v ≡ null)) ⊎ Live env key v t

module _ (env : Env) (id : String) where
  -- Nothing is live behind a deletion that has worked, until something is stored again.
  not-Live :
      (P : Call → Type 0)
      → ((v : Value) (ttl : Num) → ¬ P (cache_set id v ttl))
      → (t : Trace) (v : Value) (newer : List Call) → env.reply t (cache_del id) ≡ ok tt
      → All P newer
      → ¬ Live env id v (newer ++ cache_del id ∷ t)
  not-Live P stores t v [] deleted all (inl (ttl, e)) = cc e
  not-Live P stores t v [] deleted all (inr (kept, live)) = kept refl deleted
  not-Live P stores t v (c ∷ newer) deleted (p, all) (inl (ttl, e)) = stores v ttl (subst P e p)
  not-Live P stores t v (c ∷ newer) deleted (p, all) (inr (kept, live)) =
      not-Live P stores t v newer deleted all live

  -- Without a request that creates it, no entry of the name is stored.
  not_stored :
      (ops : List Operation)
      → ((op : Operation) → Among op ops → ¬ Creates id op)
      → (v : Value) (ttl : Num) → ¬ Caused env ops (cache_set id v ttl)
  unfolding build_config Manager.with_defaults
  not_stored ops never v ttl (inl (c, (dto, genesis, among, configured), key, entry, lives)) =
      never (create_agent dto) among (ap (λ x. x.agent_id) (sym configured) ∙ sym key)
  not_stored ops never v ttl (inr (body, wallet_id, token, among, granted, key, entry, lives)) =
      never (create_wallet body) among (sym key)

  -- What ends an agent makes no other calls behind the deletion than those of stopping it.
  module _ (place : Place) (fuel : ℕ) (ops : List Operation) (t : Trace)
      (deleted : env.reply t (cache_del id) ≡ ok tt) where
    spun_down-AllCaused :
        Among (stop_agent (record { agent_id = id })) ops ⊎ Among (spin_down id) ops
        → AllCaused env ops (cache_del id ∷ t) (spin_down_agent env (manager_of env place) id t).1
    spun_down-AllCaused asked =
        subst (AllCaused env ops (cache_del id ∷ t))
          (sym (
            ap (λ o. o.1) (spin_down_agent_total env (manager_of env place) id t)
            ∙ ap (spun_down (manager_of env place) id (cache_del id ∷ t)) deleted))
          ((stop_agent-AllCaused env ops (cache_del id ∷ t) id asked place).at (cache_del id ∷ t)
            (Since-start (Caused env ops) (cache_del id ∷ t)))

    ended-AllCaused :
        (op : Operation)
        → Among op ops
        → Ends id op
        → AllCaused env ops (cache_del id ∷ t) (serve env place fuel op t)
    ended-AllCaused op among (inl e) =
        subst (λ o. AllCaused env ops (cache_del id ∷ t) (serve env place fuel o t)) (sym e)
          (spun_down-AllCaused (inl (subst (λ o. Among o ops) e among)))
    ended-AllCaused op among (inr e) =
        subst (λ o. AllCaused env ops (cache_del id ∷ t) (serve env place fuel o t)) (sym e)
          (spun_down-AllCaused (inr (subst (λ o. Among o ops) e among)))

  -- What ends an agent creates nothing either.
  never_then :
      (op : Operation)
      → Ends id op
      → (later : List Operation) → ((next : Operation) → Among next later → ¬ Creates id next)
      → (next : Operation) → Among next (op ∷ later)
      → ¬ Creates id next
  never_then op (inl e) later never next (inl same) creates = subst (Creates id) (same ∙ e) creates
  never_then op (inr e) later never next (inl same) creates = subst (Creates id) (same ∙ e) creates
  never_then op ends later never next (inr among) creates = never next among creates

  -- Nothing of the name is live after what ended it and what was served then.
  gone :
      (place : Place) (fuel : ℕ) (op : Operation) (later : List Operation) (t : Trace) (v : Value)
      → Ends id op
      → env.reply t (cache_del id) ≡ ok tt
      → ((next : Operation) → Among next later → ¬ Creates id next)
      → ¬ Live env id v (serve_from env place fuel (serve env place fuel op t) later)
  gone place fuel op later t v ends deleted never live =
      let since =
        serve_from-AllCaused env place fuel (op ∷ later) (cache_del id ∷ t)
          (serve env place fuel op t) later (λ o a. inr a)
          (ended-AllCaused place fuel (op ∷ later) t deleted op (inl refl) ends) in
      not-Live (Caused env (op ∷ later)) (not_stored (op ∷ later) (never_then op ends later never))
        t v since.newer deleted since.all (subst (Live env id v) since.goes_on live)

  -- An agent that has been stopped, by a request or by its timer, where its entry could be deleted,
  -- gets no more webhooks: whatever is served from then on, and whatever is answered, as long as no
  -- request creates an agent or a wallet of the name, a webhook for it throws and no handler is
  -- called, with a cache that gives nothing that has been deleted.
  pub handle_request-Ends :
      (place : Place) (fuel : ℕ) (op : Operation) (later : List Operation) (t : Trace)
      (route topic : String) (content : Value)
      → GivesLive env
      → Ends id op
      → env.reply t (cache_del id) ≡ ok tt
      → ((next : Operation) → Among next later → ¬ Creates id next)
      → (e : Thrown) × (handle_request env id route topic content
            (serve_from env place fuel (serve env place fuel op t) later)
          ≡ (err e, cache_get id ∷ serve_from env place fuel (serve env place fuel op t) later))
  handle_request-Ends place fuel op later t route topic content cache ends deleted never =
      let after = serve_from env place fuel (serve env place fuel op t) later in
      elim (Result-cases (env.reply after (cache_get id))) [
        | inr (e, failed) ↦ (
          e,
          (handle_request_total env id route topic content after).0
              ∙ ap (handled env id route topic content after) failed,
        )
        | inl (agent, read) ↦ elim (cache.gives after id agent read) [
          | inl missing ↦
              (_, handle_request-missing env id route topic content after agent missing read)
          | inr live ↦ absurd (gone place fuel op later t agent ends deleted never live)
        ]
      ]
