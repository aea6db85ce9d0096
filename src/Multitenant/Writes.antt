-- ===== src/Multitenant/Writes.antt =====
-- What `createWallet` writes to the cache, also when it fails.
use mathlib.Core.Path.{subst}
use aries_guardianship_agenc.Base.{
  ℕ, suc, String, [], ◌∷◌, ◌≡◌, refl, ap, ◌∙◌, sym, ◌⊎◌, inl, inr, if◌then◌else◌,
}
use aries_guardianship_agenc.Js.Value.{Value, null}
use aries_guardianship_agenc.Effects.{
  Env, M, Result, ok, err, Trace, HttpRequest, pure, perform, ◌>>=◌, ◌>>◌, cache_set, cache_del,
  cache_get, request_with_retry,
}
use aries_guardianship_agenc.Effects.Keeps.{
  Keeps, Keeps-perform, Keeps-behind, Keeps-pure, Keeps-bind, Keeps-if,
}
use aries_guardianship_agenc.Effects.Laws.{Result-cases, bind-returned, bind-failed}
use aries_guardianship_agenc.Effects.Ensures.{Ensures-returned}
use aries_guardianship_agenc.Config.{is_true}
use aries_guardianship_agenc.Manager.Writes.{LastWrite}
use aries_guardianship_agenc.Multitenant.{
  WalletCreateDto, WalletCreated, stored_ttl, wallet_ttl, call_create_connection,
  add_wallet_to_cache, register_wallet, create_wallet,
}
use aries_guardianship_agenc.Multitenant.Keeps.{register_wallet-Keeps}
use aries_guardianship_agenc.Multitenant.Grants.{entry_of, connection-Keeps, IsStored}
use aries_guardianship_agenc.Multitenant.Sources.{Granted, register_wallet-Ensures}

-- How often the cache has been written.
abbrev pub writes : Trace → ℕ
writes [] = 0
writes (cache_set k v ttl ∷ t) = suc (writes t)
writes (cache_del k ∷ t) = suc (writes t)
writes (_ ∷ t) = writes t

module _ (env : Env) (n : ℕ) where
  abbrev Wrote : Trace → Type 0
  Wrote t = writes t ≡ n

  asks_kept : (r : HttpRequest) → Keeps Wrote (perform env (request_with_retry r))
  asks_kept r = Keeps-perform env (request_with_retry r) (λ t p. p)

  reads_kept : (k : String) → Keeps Wrote (perform env (cache_get k))
  reads_kept k = Keeps-perform env (cache_get k) (λ t p. p)

module _ (env : Env) (body : WalletCreateDto) where
  -- What follows the registration of a wallet.
  rest-IsStored :
      (id token : Value) (s : Trace) (f : Value → M WalletCreated)
      → ((v : Value) → Keeps (IsStored env body id token) (f v))
      → IsStored env body id token
          ((add_wallet_to_cache env body.wallet_name body.wallet_key id token (wallet_ttl body.ttl)
              >> ((if is_true body.auto_connect
                    then call_create_connection env token
                    else pure null)
                  >>= f))
            s).1
  unfolding add_wallet_to_cache
  rest-IsStored id token s f kept =
      let connected = Keeps-if _ _ _ (connection-Keeps env body id token) (Keeps-pure null) in
      Keeps-behind {P = IsStored env body id token} env
        (cache_set body.wallet_name (entry_of env body id token)
          (stored_ttl env (wallet_ttl body.ttl)))
        _ s (refl, refl, refl) (λ done. Keeps-bind _ _ connected kept)

  -- However a call of `createWallet` ends, it has written nothing to the cache, or its last write is
  -- the entry of an id and a token that the agent or the cache has granted for the body's key.
  create_wallet-writes :
      (t : Trace) (r : Result WalletCreated) (t' : Trace)
      → create_wallet env body t ≡ (r, t')
      → (writes t' ≡ writes t)
        ⊎ ((id : Value) × (token : Value) × Granted env body id token
            × LastWrite body.wallet_name
                (entry_of env body id token)
                (stored_ttl env (wallet_ttl body.ttl))
                t')
  unfolding create_wallet
  create_wallet-writes t r t' e = elim (Result-cases (register_wallet env body t).0) [
    | inl (granted, returned) ↦
        let (id, token) = granted in
        let registered : register_wallet env body t
            ≡ (ok (id, token), (register_wallet env body t).1) =
          cc returned in
        let source = Ensures-returned (register_wallet-Ensures env body) tt registered in
        let moved = sym (bind-returned (register_wallet env body) _ registered) ∙ e in
        inr (
          id,
          token,
          source,
          subst (IsStored env body id token) (ap (λ o. o.1) moved)
              (rest-IsStored id token (register_wallet env body t).1 _ (λ v. Keeps-pure _)),
        )
    | inr (x, failed) ↦
        let refused : register_wallet env body t ≡ (err x, (register_wallet env body t).1) =
          cc failed in
        let ended = sym (bind-failed (register_wallet env body) _ refused) ∙ e in
        inl (
          sym (ap (λ o. writes o.1) ended)
          ∙ (register_wallet-Keeps env (asks_kept env (writes t)) (reads_kept env (writes t))
                body).at
              t refl)
  ]
