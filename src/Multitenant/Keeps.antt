-- ===== src/Multitenant/Keeps.antt =====
-- What the methods of wallets keep true of the calls, if requests and reads of the cache do.
use aries_guardianship_agenc.Base.{String}
use aries_guardianship_agenc.Js.Value.{Value}
use aries_guardianship_agenc.Effects.{
  Env, Trace, HttpRequest, perform, cache_get, request_with_retry,
}
use aries_guardianship_agenc.Effects.Keeps.{Keeps, keeps_rules}
use aries_guardianship_agenc.Multitenant.{
  WalletCreateDto, call_get_all_wallets, call_get_token, call_create_wallet, call_create_connection,
  call_remove_wallet, handle_cache_miss, get_token_and_wallet_id, register_wallet, remove_wallet,
}

module _ (env : Env) {P : Trace → Type 0}
    (asks_kept : (r : HttpRequest) → Keeps P (perform env (request_with_retry r))) where
  call_get_all_wallets-Keeps : Keeps P (call_get_all_wallets env)
  unfolding call_get_all_wallets
  call_get_all_wallets-Keeps = search (keeps_rules, asks_kept)

  call_get_token-Keeps : (id : Value) (key : String) → Keeps P (call_get_token env id key)
  unfolding call_get_token
  call_get_token-Keeps id key = search (keeps_rules, asks_kept)

  pub call_create_connection-Keeps : (token : Value) → Keeps P (call_create_connection env token)
  unfolding call_create_connection
  call_create_connection-Keeps token = search (keeps_rules, asks_kept)

  handle_cache_miss-Keeps : (name key : String) → Keeps P (handle_cache_miss env name key)
  unfolding handle_cache_miss
  handle_cache_miss-Keeps name key =
      search (keeps_rules, call_get_all_wallets-Keeps, call_get_token-Keeps) depth 10

  module _ (reads_kept : (k : String) → Keeps P (perform env (cache_get k))) where
    get_token_and_wallet_id-Keeps :
        (name key : String) → Keeps P (get_token_and_wallet_id env name key)
    unfolding get_token_and_wallet_id
    get_token_and_wallet_id-Keeps name key =
        search (keeps_rules, reads_kept, handle_cache_miss-Keeps)

    pub register_wallet-Keeps : (body : WalletCreateDto) → Keeps P (register_wallet env body)
    unfolding register_wallet call_create_wallet
    register_wallet-Keeps body = search (keeps_rules, asks_kept, get_token_and_wallet_id-Keeps)

    pub remove_wallet-Keeps : (name key : String) → Keeps P (remove_wallet env name key)
    unfolding remove_wallet call_remove_wallet
    remove_wallet-Keeps name key = search (keeps_rules, asks_kept, reads_kept)
