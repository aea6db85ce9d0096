-- ===== src/Multitenant/Errors.antt =====
-- A wallet that is refused, and the removal of one.
use aries_guardianship_agenc.Base.{String, true, false, ◌∷◌, ◌≡◌, arith}
use aries_guardianship_agenc.Js.Value.{Value, is_truthy, is_text}
use aries_guardianship_agenc.Effects.{
  Env, ok, err, Trace, Thrown, ◌>>=◌, prop, cache_get, request_with_retry,
}
use aries_guardianship_agenc.Multitenant.{
  WalletCreateDto, create_request, remove_request, call_create_wallet, call_remove_wallet,
  get_token_and_wallet_id, register_wallet, create_wallet, remove_wallet, create_failed,
  is_already_registered,
}

module _ (env : Env) (body : WalletCreateDto) (t : Trace) (e : Thrown)
    (refused : env.reply t (request_with_retry (create_request env body)) ≡ err e) where
  -- A name that is taken, of a wallet that is in the cache with another key: the call fails, nothing
  -- is written to the cache, and no token or connection is asked for.
  pub create_wallet-wrong_key :
      (agent : Value)
      → is_already_registered e ≡ true
      → env.reply (request_with_retry (create_request env body) ∷ t) (cache_get body.wallet_name)
        ≡ ok agent
      → is_truthy agent ≡ true
      → is_text (prop "walletKey" agent) body.wallet_key ≡ false
      → create_wallet env body t ≡ (
        err create_failed,
        cache_get body.wallet_name ∷ request_with_retry (create_request env body) ∷ t,
      )
  unfolding create_wallet register_wallet call_create_wallet get_token_and_wallet_id ◌>>=◌
  create_wallet-wrong_key agent taken cached there other =
      rw refused (rw taken (rw cached (rw there (rw other))))

-- A removal that returns has found the wallet in the cache and has made exactly two calls: it has
-- read the entry, and has asked the agent to remove the wallet of the cached id with the key that
-- was given. The entry itself is not deleted.
remove_wallet-trace :
    (env : Env) (name key : String) (t : Trace) (agent v : Value) (t' : Trace)
    → env.reply t (cache_get name) ≡ ok agent
    → remove_wallet env name key t ≡ (ok v, t')
    → (is_truthy agent ≡ true)
      × (t'
          ≡ request_with_retry (remove_request env (prop "walletId" agent) key)
            ∷ cache_get name
            ∷ t)
unfolding remove_wallet call_remove_wallet ◌>>=◌
remove_wallet-trace env name key t agent v t' cached returned = ground (arith, cached)
