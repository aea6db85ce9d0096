-- ===== src/Multitenant/Calls.antt =====
-- The calls of the multitenant agent: the `call…` methods of src/multitenant/mulittenant.service.ts
-- with their requests, and the body of src/multitenant/dtos/wallet.create.dto.ts.
use aries_guardianship_agenc.Base.{String, Bool, [], ◌∷◌, ◌⧺◌}
use aries_guardianship_agenc.Js.Number.{Num}
use aries_guardianship_agenc.Js.Value.{
  Value, undefined, str, array, object, Optional, variable, variable_text, to_text,
}
use aries_guardianship_agenc.Effects.{
  Env, M, pure, lift, perform, get_prop, ◌>>=◌, HttpRequest, request_with_retry,
}
use aries_guardianship_agenc.Config.{text_or}

pub record WalletCreateDto : Type 0 where
  pub wallet_name : String
  pub wallet_key : String
  pub label : Optional String
  pub ttl : Optional Num
  pub controller_url : Optional String
  pub auto_connect : Optional Bool
  pub return_token : Optional Bool

module _ (env : Env) where
  abbrev pub multitenant_url : String → String
  multitenant_url path = variable_text (env.var "MULTITENANT_URL") ⧺ path

  abbrev pub admin_header : String × Value
  admin_header = ("x-api-key", variable (env.var "ACAPY_ADMIN_API_KEY"))

  abbrev pub wallets_request : HttpRequest
  wallets_request = record {
    method = "GET";
    url = multitenant_url "/multitenancy/wallets";
    headers = admin_header ∷ [];
    body = undefined;
  }

  abbrev pub token_request : Value → String → HttpRequest
  token_request wallet_id wallet_key = record {
    method = "POST";
    url = multitenant_url ("/multitenancy/wallet/" ⧺ to_text wallet_id ⧺ "/token");
    headers = admin_header ∷ [];
    body = object (("wallet_key", str wallet_key) ∷ []);
  }

  abbrev pub create_request : WalletCreateDto → HttpRequest
  create_request body = record {
    method = "POST";
    url = multitenant_url "/multitenancy/wallet";
    headers = admin_header ∷ [];
    body = object (
        ("key_management_mode", str "managed")
        ∷ ("wallet_dispatch_type", str "default")
        ∷ ("wallet_type", str "indy")
        ∷ ("label", str (text_or body.label "multitenant"))
        ∷ ("wallet_name", str body.wallet_name)
        ∷ ("wallet_key", str body.wallet_key)
        ∷ (
          "wallet_webhook_urls",
          array (
              str (
                text_or body.controller_url
                  (variable_text (env.var "INTERNAL_URL") ⧺ "/v1/controller/" ⧺ body.wallet_name))
              ∷ []),
        )
        ∷ []);
  }

  abbrev pub remove_request : Value → String → HttpRequest
  remove_request wallet_id wallet_key = record {
    method = "POST";
    url = multitenant_url ("/multitenancy/wallet/" ⧺ to_text wallet_id ⧺ "/remove");
    headers = admin_header ∷ [];
    body = object (("wallet_key", str wallet_key) ∷ []);
  }

  abbrev pub connection_request : Value → HttpRequest
  connection_request token = record {
    method = "POST";
    url = multitenant_url "/connections/create-invitation";
    headers = admin_header ∷ ("Authorization", str ("Bearer " ⧺ to_text token)) ∷ [];
    body = undefined;
  }

  unfoldable pub call_get_all_wallets : M Value
  unfolding get_prop
  call_get_all_wallets = do
    res ← perform env (request_with_retry wallets_request)
    lift (get_prop "results" res.body)

  unfoldable pub call_get_token : Value → String → M Value
  unfolding get_prop
  call_get_token wallet_id wallet_key = do
    res ← perform env (request_with_retry (token_request wallet_id wallet_key))
    lift (get_prop "token" res.body)

  unfoldable pub call_create_wallet : WalletCreateDto → M Value
  call_create_wallet body = do
    res ← perform env (request_with_retry (create_request body))
    pure res.body

  unfoldable pub call_remove_wallet : Value → String → M Value
  call_remove_wallet wallet_id wallet_key = do
    res ← perform env (request_with_retry (remove_request wallet_id wallet_key))
    pure res.body

  unfoldable pub call_create_connection : Value → M Value
  unfolding get_prop
  call_create_connection token = do
    res ← perform env (request_with_retry (connection_request token))
    lift (get_prop "invitation" res.body)
