-- ===== src/Multitenant/Sources.antt =====
-- Where the id and the token of a wallet come from.
use aries_guardianship_agenc.Base.{
  ◌++◌, List, [], ap, true, ◌∷◌, inl, inr, ◌≡◌, refl, if◌then◌else◌,
}
use aries_guardianship_agenc.Js.Value.{Value, Items, is_text, is_truthy}
use aries_guardianship_agenc.Effects.{
  Env, ok, Call, Trace, HttpResponse, ◌>>=◌, pure, lift, throw, prop, get_prop, cache_get,
  request_with_retry,
}
use aries_guardianship_agenc.Effects.Ensures.{
  Ensures, Anything, Ensures-pure, Ensures-throw, Ensures-test, Ensures-lift, Ensures-catch,
  Ensures-bind, Ensures-perform, Ensures-if, Ensures-any, Ensures-weaken,
}
use aries_guardianship_agenc.Multitenant.{
  WalletCreateDto, create_request, token_request, call_create_wallet, call_get_token,
  handle_cache_miss, get_token_and_wallet_id, register_wallet, find_wallet, create_failed,
  wallets_request, call_get_all_wallets, iterate,
}
use aries_guardianship_agenc.Multitenant.Lookup.{FirstOf, find_wallet-FirstOf}

module _ (env : Env) (body : WalletCreateDto) where
  -- The calls go on from these.
  abbrev Within : Trace → Trace → Type 0
  Within s t = (newer : List Call) × (t ≡ newer ++ s)

  Within-more : (s : Trace) (c : Call) (t : Trace) → Within s t → Within s (c ∷ t)
  Within-more s c t (newer, e) = (c ∷ newer, ap (λ u. c ∷ u) e)

  -- By the calls of a history: the multitenant agent has answered with the id and the token to a registration with the body's
  -- name and key, or the cache holds them with that key, or the agent has answered a request for all
  -- wallets with a list in which the id is that of the first wallet of the name, and the request behind
  -- it, for a token of that id with that key, with the token.
  pub data GrantedIn (history : Trace) (id token : Value) : Type 0 where
    registered :
        (t : Trace) (res : HttpResponse)
        → Within (request_with_retry (create_request env body) ∷ t) history
        → env.reply t (request_with_retry (create_request env body)) ≡ ok res
        → get_prop "wallet_id" res.body ≡ ok id
        → get_prop "token" res.body ≡ ok token
        → GrantedIn history id token
    held :
        (t : Trace) (agent : Value)
        → Within (cache_get body.wallet_name ∷ t) history
        → env.reply t (cache_get body.wallet_name) ≡ ok agent
        → is_text (prop "walletKey" agent) body.wallet_key ≡ true
        → id ≡ prop "walletId" agent
        → token ≡ prop "token" agent
        → GrantedIn history id token
    issued :
        (t : Trace) (list res : HttpResponse) (all : Value) (wallets : Items)
        → Within
            (request_with_retry (token_request env id body.wallet_key)
              ∷ request_with_retry (wallets_request env)
              ∷ t)
            history
        → env.reply t (request_with_retry (wallets_request env)) ≡ ok list
        → get_prop "results" list.body ≡ ok all
        → iterate all ≡ ok wallets
        → FirstOf body.wallet_name id wallets
        → env.reply
            (request_with_retry (wallets_request env) ∷ t)
            (request_with_retry (token_request env id body.wallet_key))
          ≡ ok res
        → get_prop "token" res.body ≡ ok token
        → GrantedIn history id token

  pub GrantedIn-more :
      (id token : Value) (c : Call) (t : Trace) → GrantedIn t id token → GrantedIn (c ∷ t) id token
  GrantedIn-more id token c t (registered s res w e₁ e₂ e₃) =
      registered s res (Within-more _ c t w) e₁ e₂ e₃
  GrantedIn-more id token c t (held s agent w e₁ e₂ e₃ e₄) =
      held s agent (Within-more _ c t w) e₁ e₂ e₃ e₄
  GrantedIn-more id token c t (issued s list res all wallets w e₁ e₂ e₃ e₄ e₅ e₆) =
      issued s list res all wallets (Within-more _ c t w) e₁ e₂ e₃ e₄ e₅ e₆

  -- By the calls of some history.
  abbrev pub Granted : Value → Value → Type 0
  Granted id token = (history : Trace) × GrantedIn history id token

  abbrev pub IsGranted : Value × Value → Trace → Type 0
  IsGranted (id, token) t = GrantedIn t id token

  -- The answer to a registration, which has been made.
  abbrev Created : Value → Trace → Type 0
  Created v s =
      (t : Trace) × (res : HttpResponse) × Within (request_with_retry (create_request env body) ∷ t)
        s
      × (env.reply t (request_with_retry (create_request env body)) ≡ ok res)
      × (v ≡ res.body)

  call_create_wallet-Ensures : Ensures Anything (call_create_wallet env body) Created
  unfolding call_create_wallet
  call_create_wallet-Ensures =
      Ensures-bind _ _ (λ res s. Created res.body s) _
        (Ensures-perform env (request_with_retry (create_request env body)) _
          (λ t res p e. (t, res, ([], refl), e, refl)))
        λ res. Ensures-pure _ _ (λ s p. p)

  registered_here :
      (v id token : Value) (s : Trace)
      → Created v s
      → get_prop "wallet_id" v ≡ ok id
      → get_prop "token" v ≡ ok token
      → GrantedIn s id token
  registered_here v id token s (t, res, within, e, same) hid htoken =
      registered t res within e (rw same at hid) (rw same at htoken)

  register-Ensures :
      Ensures Anything
        (do
          result ← call_create_wallet env body
          wallet_id ← lift (get_prop "wallet_id" result)
          token ← lift (get_prop "token" result)
          pure (wallet_id, token))
        IsGranted
  register-Ensures = Ensures-bind _ _ Created _ call_create_wallet-Ensures λ v.
      Ensures-bind _ _ (λ id s. (get_prop "wallet_id" v ≡ ok id) × Created v s) _
        (Ensures-lift _ _ (λ id s e p. (e, p)))
        λ id.
          Ensures-bind _ _
            (λ token s.
              (get_prop "token" v ≡ ok token) × (get_prop "wallet_id" v ≡ ok id) × Created v s)
            _ (Ensures-lift _ _ (λ token s e p. (e, p.0, p.1)))
            λ token. Ensures-pure _ _ (λ s p. registered_here v id token s p.2 p.1 p.0)

  -- The answer to the request for all wallets, and that it was the last call.
  abbrev Listed : Value → Trace → Type 0
  Listed all s =
      (t : Trace) × (list : HttpResponse) × (s ≡ request_with_retry (wallets_request env) ∷ t)
      × (env.reply t (request_with_retry (wallets_request env)) ≡ ok list)
      × (get_prop "results" list.body ≡ ok all)

  list-Ensures : Ensures Anything (call_get_all_wallets env) Listed
  unfolding call_get_all_wallets
  list-Ensures =
      Ensures-bind _ _
        (λ res s.
          (t : Trace) × (s ≡ request_with_retry (wallets_request env) ∷ t)
          × (env.reply t (request_with_retry (wallets_request env)) ≡ ok res))
        _
        (Ensures-perform env (request_with_retry (wallets_request env)) _
          (λ t res p e. (t, refl, e)))
        λ res. Ensures-lift _ _ (λ all s e p. (p.0, res, p.1, p.2, e))

  issued_here :
      (all : Value) (wallets : Items) (id token : Value) (s : Trace) (res : HttpResponse)
      → iterate all ≡ ok wallets
      → FirstOf body.wallet_name id wallets
      → Listed all s
      → env.reply s (request_with_retry (token_request env id body.wallet_key)) ≡ ok res
      → get_prop "token" res.body ≡ ok token
      → GrantedIn (request_with_retry (token_request env id body.wallet_key) ∷ s) id token
  issued_here all wallets id token s res iterated first (t, list, last, told, results) given_ has =
      issued t list res all wallets
        ([], ap (λ u. request_with_retry (token_request env id body.wallet_key) ∷ u) last) told
        results iterated first (rw last at given_) has

  token-Ensures :
      (all : Value) (wallets : Items) (id : Value)
      → iterate all ≡ ok wallets
      → FirstOf body.wallet_name id wallets
      → Ensures
          (Listed all)
          (call_get_token env id body.wallet_key)
          (λ token t. GrantedIn t id token)
  unfolding call_get_token
  token-Ensures all wallets id iterated first =
      Ensures-bind _ _
        (λ res s. (token : Value) → get_prop "token" res.body ≡ ok token → GrantedIn s id token) _
        (Ensures-perform env (request_with_retry (token_request env id body.wallet_key)) _
          (λ t res p e token has. issued_here all wallets id token t res iterated first p e has))
        λ res. Ensures-lift _ _ (λ token s e p. p token e)

  -- A wallet that was found is one of the name, since its id counts as true.
  found-FirstOf :
      (wallets : Items) (id : Value)
      → find_wallet body.wallet_name wallets ≡ ok id
      → is_truthy id ≡ true
      → FirstOf body.wallet_name id wallets
  found-FirstOf wallets id found truthy =
      elim (find_wallet-FirstOf body.wallet_name wallets id found) [
        | inl first ↦ first
        | inr (missing, lacks) ↦ absurd (cc (missing, truthy))
      ]

  miss-Ensures : Ensures Anything (handle_cache_miss env body.wallet_name body.wallet_key) IsGranted
  unfolding handle_cache_miss
  miss-Ensures = Ensures-bind _ _ Listed _ list-Ensures λ all.
      Ensures-bind _ _ (λ wallets s. (iterate all ≡ ok wallets) × Listed all s) _
        (Ensures-lift _ _ (λ wallets s e p. (e, p)))
        λ wallets.
          Ensures-bind _ _
            (λ id s.
              (find_wallet body.wallet_name wallets ≡ ok id)
              × (iterate all ≡ ok wallets)
              × Listed all s)
            _ (Ensures-lift _ _ (λ id s e p. (e, p.0, p.1)))
            λ id.
              Ensures-test _ _ _ _
                (λ truthy. record {
                  at = λ s p.
                      (Ensures-bind _ _ (λ token t. GrantedIn t id token) IsGranted
                          (token-Ensures all wallets id p.1 (found-FirstOf wallets id p.0 truthy))
                          (λ token. Ensures-pure _ _ (λ t q. q))).at
                        s p.2;
                })
                (λ falsy. Ensures-throw _ _)

  held-Ensures :
      (agent : Value)
      → Ensures
          (λ s.
            (t : Trace) × Within (cache_get body.wallet_name ∷ t) s
            × (env.reply t (cache_get body.wallet_name) ≡ ok agent))
          (if is_text (prop "walletKey" agent) body.wallet_key
            then pure (prop "walletId" agent, prop "token" agent)
            else throw create_failed)
          IsGranted
  held-Ensures agent =
      Ensures-test _ _ _ _ (λ same. Ensures-pure _ _ (λ s p. held p.0 agent p.1 p.2 same refl refl))
        (λ other. Ensures-throw _ _)

  existing-Ensures :
      Ensures Anything (get_token_and_wallet_id env body.wallet_name body.wallet_key) IsGranted
  unfolding get_token_and_wallet_id
  existing-Ensures =
      Ensures-bind _ _
        (λ agent s.
          (t : Trace) × Within (cache_get body.wallet_name ∷ t) s
          × (env.reply t (cache_get body.wallet_name) ≡ ok agent))
        _ (Ensures-perform env (cache_get body.wallet_name) _ (λ t agent p e. (t, ([], refl), e)))
        λ agent. Ensures-if _ _ _ _ (held-Ensures agent) (Ensures-any _ _ miss-Ensures)

  pub register_wallet-IsGranted : Ensures Anything (register_wallet env body) IsGranted
  unfolding register_wallet
  register_wallet-IsGranted =
      Ensures-catch _ _ _ register-Ensures
        λ e. Ensures-if _ _ _ _ existing-Ensures (Ensures-throw _ _)

  pub register_wallet-Ensures : Ensures Anything (register_wallet env body) (λ r t. Granted r.0 r.1)
  register_wallet-Ensures = Ensures-weaken _ register_wallet-IsGranted (λ r t p. (t, p))
