-- ===== src/Multitenant/Grants.antt =====
-- What a created wallet leaves in the cache, with the id and the token that it was granted.
use aries_guardianship_agenc.Base.{◌∷◌, ◌≡◌, refl, if◌then◌else◌}
use aries_guardianship_agenc.Js.Value.{Value, null}
use aries_guardianship_agenc.Effects.{Env, ok, Trace, cache_set, request_with_retry}
use aries_guardianship_agenc.Effects.Keeps.{
  Keeps, Keeps-perform, Keeps-if, Keeps-pure, Keeps-bind, Keeps-lift,
}
use aries_guardianship_agenc.Effects.Ensures.{
  Ensures, Anything, Ensures-pure, Ensures-kept, Ensures-returned, Ensures-bind, Ensures-perform,
}
use aries_guardianship_agenc.Config.{is_true}
use aries_guardianship_agenc.Manager.Writes.{LastWrite}
use aries_guardianship_agenc.Multitenant.{
  WalletCreateDto, WalletCreated, connection_request, wallet_ttl, wallet_entry, stored_ttl,
  call_create_connection, add_wallet_to_cache, create_wallet,
}
use aries_guardianship_agenc.Multitenant.Sources.{
  GrantedIn, GrantedIn-more, IsGranted, register_wallet-IsGranted,
}

module _ (env : Env) (body : WalletCreateDto) where
  -- What is cached for the wallet.
  abbrev pub entry_of : Value → Value → Value
  entry_of id token =
      wallet_entry env body.wallet_key id token (stored_ttl env (wallet_ttl body.ttl))

  abbrev pub IsStored : Value → Value → Trace → Type 0
  IsStored id token =
      LastWrite body.wallet_name (entry_of id token) (stored_ttl env (wallet_ttl body.ttl))

  abbrev IsCreated : WalletCreated → Trace → Type 0
  IsCreated w t =
      (id : Value) × (token : Value) × GrantedIn env body t id token
      × IsStored id token t
      × (w.token ≡ (if is_true body.return_token then token else null))

  -- Granted, and cached.
  abbrev IsKept : Value → Value → Trace → Type 0
  IsKept id token t = GrantedIn env body t id token × IsStored id token t

  add_wallet_to_cache-Ensures :
      (id token : Value)
      → Ensures
          (λ t. GrantedIn env body t id token)
          (add_wallet_to_cache env body.wallet_name body.wallet_key id token (wallet_ttl body.ttl))
          (λ done. IsKept id token)
  unfolding add_wallet_to_cache
  add_wallet_to_cache-Ensures id token =
      Ensures-perform env
        (cache_set body.wallet_name (entry_of id token) (stored_ttl env (wallet_ttl body.ttl))) _
        (λ t a p e. (GrantedIn-more env body id token _ t p, (refl, refl, refl)))

  -- The request for an invitation keeps what goes on behind it.
  call_create_connection-Keeps :
      (P : Trace → Type 0) (token : Value)
      → ((t : Trace) → P t → P (request_with_retry (connection_request env token) ∷ t))
      → Keeps P (call_create_connection env token)
  unfolding call_create_connection
  call_create_connection-Keeps P token kept =
      Keeps-bind _ _ (Keeps-perform env (request_with_retry (connection_request env token)) kept)
        (λ res. Keeps-lift _)

  pub connection-Keeps :
      (id token : Value) → Keeps (IsStored id token) (call_create_connection env token)
  connection-Keeps id token = call_create_connection-Keeps (IsStored id token) token (λ t p. p)

  IsKept-Keeps : (id token : Value) → Keeps (IsKept id token) (call_create_connection env token)
  IsKept-Keeps id token =
      call_create_connection-Keeps (IsKept id token) token
        (λ t p. (GrantedIn-more env body id token _ t p.0, p.1))

  create_wallet-Ensures : Ensures Anything (create_wallet env body) IsCreated
  unfolding create_wallet
  create_wallet-Ensures =
      Ensures-bind _ _ (IsGranted env body) _ (register_wallet-IsGranted env body) λ granted.
        let (id, token) = granted in
        Ensures-bind _ _ (λ done. IsKept id token) _ (add_wallet_to_cache-Ensures id token)
          λ done.
            Ensures-bind _ _ (λ v. IsKept id token) _
              (Ensures-kept _ (Keeps-if _ _ _ (IsKept-Keeps id token) (Keeps-pure null)))
              λ v. Ensures-pure _ _ (λ t p. (id, token, p.0, p.1, refl))

  -- Whatever the agent and the cache answer, and by the answers to calls that have been made: a call of `createWallet` that returns has an id and a
  -- token that come from the agent's answer to the registration, from a cached entry whose key is
  -- that of the body, or from the list of all wallets, by the first one of the body's name, and a
  -- token issued for its id and the body's key right behind the list. They are the
  -- last write to the cache, under the wallet's name and with the ttl of the body, and the token is
  -- in the answer exactly if the body asks for it.
  pub create_wallet-Granted :
      (t : Trace) (w : WalletCreated) (t' : Trace)
      → create_wallet env body t ≡ (ok w, t')
      → (id : Value) × (token : Value) × GrantedIn env body t' id token
        × LastWrite body.wallet_name (entry_of id token) (stored_ttl env (wallet_ttl body.ttl)) t'
        × (w.token ≡ (if is_true body.return_token then token else null))
  create_wallet-Granted t w t' e = Ensures-returned create_wallet-Ensures tt e
