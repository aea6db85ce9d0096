-- ===== src/Agency/Wallets.antt =====
-- What the requests of wallets do.
use aries_guardianship_agenc.Base.{String, List, refl, inr, Among}
use aries_guardianship_agenc.Js.Value.{Value, null}
use aries_guardianship_agenc.Effects.{Env, Trace, cache_set}
use aries_guardianship_agenc.Effects.Keeps.{Keeps, Keeps-perform, Keeps-bind, Keeps-if, Keeps-pure}
use aries_guardianship_agenc.Effects.Ensures.{Keeps-known}
use aries_guardianship_agenc.Multitenant
use aries_guardianship_agenc.Multitenant.{
  WalletCreateDto, create_wallet, post_wallet, remove_wallet, add_wallet_to_cache, stored_ttl,
  wallet_ttl,
}
use aries_guardianship_agenc.Multitenant.Grants.{entry_of}
use aries_guardianship_agenc.Multitenant.Sources.{Granted, register_wallet-Ensures}
use aries_guardianship_agenc.Multitenant.Keeps.{
  register_wallet-Keeps, remove_wallet-Keeps, call_create_connection-Keeps,
}
use aries_guardianship_agenc.Agency
use aries_guardianship_agenc.Agency.{Operation}
use aries_guardianship_agenc.Agency.Caused.{also, AllCaused, asks_kept, reads_kept}

module _ (env : Env) (ops : List Operation) (start : Trace) where
  stored :
      (body : WalletCreateDto) (id token : Value)
      → Among (Agency.create_wallet body) ops
      → Granted env (Multitenant.with_defaults body) id token
      → Keeps
          (AllCaused env ops start)
          (add_wallet_to_cache env body.wallet_name body.wallet_key id token (wallet_ttl body.ttl))
  unfolding add_wallet_to_cache Multitenant.with_defaults
  stored body id token among granted =
      Keeps-perform env
        (cache_set body.wallet_name (entry_of env (Multitenant.with_defaults body) id token)
          (stored_ttl env (wallet_ttl body.ttl)))
        (λ t p. also (inr (body, id, token, among, granted, refl, refl, refl)) p)

  pub post_wallet-AllCaused :
      (body : WalletCreateDto)
      → Among (Agency.create_wallet body) ops
      → Keeps (AllCaused env ops start) (post_wallet env body)
  unfolding post_wallet create_wallet
  post_wallet-AllCaused body among =
      let given = Multitenant.with_defaults body in
      Keeps-known _ _ (λ r. Granted env given r.0 r.1) (register_wallet-Ensures env given)
        (register_wallet-Keeps env (asks_kept env ops start) (reads_kept env ops start) given)
        λ r granted. Keeps-bind _ _ (stored body r.0 r.1 among granted) λ done.
          Keeps-bind _ _
            (Keeps-if _ _ _ (call_create_connection-Keeps env (asks_kept env ops start) r.1)
              (Keeps-pure null))
            λ v. Keeps-pure _

  pub remove_wallet-AllCaused :
      (name key : String) → Keeps (AllCaused env ops start) (remove_wallet env name key)
  remove_wallet-AllCaused =
      remove_wallet-Keeps env (asks_kept env ops start) (reads_kept env ops start)
