-- ===== src/Multitenant.antt =====
-- src/multitenant/mulittenant.service.ts, with the endpoints of src/multitenant/multitenant.controller.ts:
-- wallets of the multitenant agent. Multitenant/Calls has the requests.
pub mod Calls
pub mod Grants
pub mod Errors
pub mod Keeps
pub mod Lookup
pub mod Sources
pub mod Taken
pub mod Writes
use aries_guardianship_agenc.Base.{
  ℕ, String, Bool, true, false, Option, none, some, List, [], ◌∷◌, not, ◌==◌, ◌||◌, str_eq,
  if◌then◌else◌, ◌⧺◌,
}
use aries_guardianship_agenc.Js.Number.{Num, infinity, nat, is_zero}
use aries_guardianship_agenc.Js.Value.{
  Value, undefined, null, bool, num, str, arr, obj, Items, nil, item, Fields, array, object,
  Optional, absent, nothing, given, variable, variable_text, is_truthy, is_text, to_text, items,
}
use aries_guardianship_agenc.Js.Regex.{Regex, seq, literal, some_of, found_in}
use aries_guardianship_agenc.Effects.{
  Env, M, Result, ok, err, Thrown, Details, protocol, error, type_error, syntax_error, out_of_fuel,
  no_details, text_details, thrown_details, value_details, internal_server_error, pure, throw, lift,
  catch, perform, prop, get_prop, ◌>>=◌, ◌>>◌, HttpRequest, request_with_retry, cache_get,
  cache_set,
}
use aries_guardianship_agenc.Config.{text_or, is_true, or_default}
pub use aries_guardianship_agenc.Multitenant.Calls.{
  WalletCreateDto, multitenant_url, admin_header, wallets_request, token_request, create_request,
  remove_request, connection_request,
}
unfoldable pub use aries_guardianship_agenc.Multitenant.Calls.{
  call_get_all_wallets, call_get_token, call_create_wallet, call_remove_wallet,
  call_create_connection,
}

pub record WalletCreated : Type 0 where
  pub success : Bool
  pub invitation : Value
  pub token : Value

abbrev pub default_ttl_seconds : Num
default_ttl_seconds = nat 3600

-- A character that `.` matches: no line terminator.
pub is_not_newline : ℕ → Bool
is_not_newline c = not (c == 10 || c == 13 || c == 0x2028 || c == 0x2029)

abbrev pub nothing_more : Regex
nothing_more = Regex.many (λ c. false)

-- /Wallet with .+ already exists/g
unfoldable pub already_exists : Regex
unfolding is_not_newline
already_exists =
    literal "Wallet with " (seq (some_of is_not_newline) (literal " already exists" nothing_more))

-- `e.details && (typeof e.details === 'string') && e.details.match(…)`
unfoldable pub is_already_registered : Thrown → Bool
is_already_registered (protocol code message (text_details s)) = found_in already_exists s
is_already_registered (protocol code message no_details) = false
is_already_registered (protocol code message (thrown_details e)) = false
is_already_registered (protocol code message (value_details v)) = false
is_already_registered (error message) = false
is_already_registered type_error = false
is_already_registered syntax_error = false
is_already_registered out_of_fuel = false

abbrev pub create_failed : Thrown
create_failed = protocol internal_server_error "Error creating wallet on multitenant" no_details

abbrev pub create_failed_by : Thrown → Thrown
create_failed_by e =
    protocol internal_server_error "Error creating wallet on multitenant" (thrown_details e)

abbrev pub remove_failed : Thrown
remove_failed = protocol internal_server_error "Error removing wallet on multitenant" no_details

-- `(body.ttl === null || body.ttl === undefined) ? DEFAULT : body.ttl`
abbrev pub wallet_ttl : Optional Num → Num
wallet_ttl absent = default_ttl_seconds
wallet_ttl nothing = default_ttl_seconds
wallet_ttl (given n) = n

letters : String → Items
letters String.[] = nil
letters (String.◌∷◌ c s) = item (str (String.◌∷◌ c String.[])) (letters s)

-- The values of a `for … of`; of a text they are its characters.
unfoldable pub iterate : Value → Result Items
unfolding letters
iterate (arr vs) = ok vs
iterate (str s) = ok (letters s)
iterate undefined = err type_error
iterate null = err type_error
iterate (bool b) = err type_error
iterate (num n) = err type_error
iterate (obj fs) = err type_error

-- `wallet.settings['wallet.name'] === walletName`
unfoldable pub has_name : String → Value → Result Bool
unfolding get_prop
has_name name wallet = elim (get_prop "settings" wallet) [
  | err e ↦ err e
  | ok settings ↦ elim (get_prop "wallet.name" settings) [
    | err e ↦ err e
    | ok v ↦ ok (is_text v name)
  ]
]

-- The loop of `handleCacheMiss`, which stops at the first wallet of the name.
unfoldable pub find_wallet : String → Items → Result Value
unfolding get_prop
find_wallet name nil = ok null
find_wallet name (item wallet rest) =
    let later = find_wallet name rest in
    elim (has_name name wallet) [
      | err e ↦ err e
      | ok true ↦ get_prop "wallet_id" wallet
      | ok false ↦ later
    ]

module _ (env : Env) where
  unfoldable pub handle_cache_miss : String → String → M (Value × Value)
  unfolding iterate find_wallet
  handle_cache_miss wallet_name wallet_key = do
    all_wallets ← call_get_all_wallets env
    wallets ← lift (iterate all_wallets)
    wallet_id ← lift (find_wallet wallet_name wallets)
    if is_truthy wallet_id
        then (do token ← call_get_token env wallet_id wallet_key; pure (wallet_id, token))
        else throw create_failed

  unfoldable pub get_token_and_wallet_id : String → String → M (Value × Value)
  get_token_and_wallet_id wallet_name wallet_key = do
    agent ← perform env (cache_get wallet_name)
    if is_truthy agent
        then (if is_text (prop "walletKey" agent) wallet_key
            then pure (prop "walletId" agent, prop "token" agent)
            else throw create_failed)
        else handle_cache_miss wallet_name wallet_key

  -- A ttl of 0 is kept for ever.
  abbrev pub stored_ttl : Num → Num
  stored_ttl ttl = if is_zero ttl then infinity else ttl

  abbrev pub wallet_entry : String → Value → Value → Num → Value
  wallet_entry wallet_key wallet_id token ttl = object (
      ("adminApiKey", variable (env.var "ACAPY_ADMIN_API_KEY"))
      ∷ ("token", token)
      ∷ ("walletId", wallet_id)
      ∷ ("walletKey", str wallet_key)
      ∷ ("ttl", num ttl)
      ∷ ("multitenant", bool true)
      ∷ [])

  unfoldable pub add_wallet_to_cache : String → String → Value → Value → Num → M Unit
  add_wallet_to_cache wallet_name wallet_key wallet_id token ttl = perform env (
      cache_set wallet_name (wallet_entry wallet_key wallet_id token (stored_ttl ttl))
        (stored_ttl ttl))

  -- The `try` of `createWallet`: the id and the token.
  unfoldable pub register_wallet : WalletCreateDto → M (Value × Value)
  unfolding get_prop is_already_registered
  register_wallet body =
      catch
        (do
          result ← call_create_wallet env body
          wallet_id ← lift (get_prop "wallet_id" result)
          token ← lift (get_prop "token" result)
          pure (wallet_id, token))
        (λ e.
          if is_already_registered e
          then get_token_and_wallet_id body.wallet_name body.wallet_key
          else throw (create_failed_by e))

  unfoldable pub create_wallet : WalletCreateDto → M WalletCreated
  create_wallet body = do
    (wallet_id, token) ← register_wallet body
    add_wallet_to_cache body.wallet_name body.wallet_key wallet_id token (wallet_ttl body.ttl)
    invitation ← if is_true body.auto_connect then call_create_connection env token else pure null
    pure (record {
      success = true;
      invitation = invitation;
      token = if is_true body.return_token then token else null;
    })

  unfoldable pub remove_wallet : String → String → M Value
  remove_wallet wallet_name wallet_key = do
    agent ← perform env (cache_get wallet_name)
    if is_truthy agent
        then call_remove_wallet env (prop "walletId" agent) wallet_key
        else throw remove_failed

-- The initialisers of the body's class.
unfoldable pub with_defaults : WalletCreateDto → WalletCreateDto
with_defaults body = record body {
  auto_connect = or_default body.auto_connect true;
  return_token = or_default body.return_token false;
}

-- POST v2/multitenant
unfoldable pub post_wallet : Env → WalletCreateDto → M WalletCreated
unfolding with_defaults
post_wallet env body = create_wallet env (with_defaults body)

pub record WalletRemoveDto : Type 0 where
  pub wallet_name : String
  pub wallet_key : String

-- DELETE v2/multitenant
abbrev pub delete_wallet : Env → WalletRemoveDto → M Value
delete_wallet env body = remove_wallet env body.wallet_name body.wallet_key
