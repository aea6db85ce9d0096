-- ===== src/Tests/Wallets.antt =====
-- Runs of the multitenant service: a wallet whose name is taken, found in the list of the agent.
use aries_guardianship_agenc.Base.{
  String, ◌↔◌, true, false, List, [], ◌∷◌, ◌≡◌, refl, ◌⊎◌, str_eq, if◌then◌else◌,
}
use aries_guardianship_agenc.Js.Number.{nat}
use aries_guardianship_agenc.Js.Value.{
  Value, null, str, object, array, absent, given, items, is_truthy, lookup_field, to_text,
}
use aries_guardianship_agenc.Effects.{
  Env, ok, err, protocol, internal_server_error, text_details, ErrorCode, Thrown, Trace, cache_get,
  request_with_retry, ◌>>=◌, get_prop, prop,
}
use aries_guardianship_agenc.Manager.Writes.{LastWrite}
use aries_guardianship_agenc.Multitenant.{
  WalletCreateDto, WalletCreated, create_wallet, remove_wallet, register_wallet, call_create_wallet,
  get_token_and_wallet_id, handle_cache_miss, call_get_all_wallets, call_get_token, find_wallet,
  has_name, iterate, add_wallet_to_cache, call_remove_wallet, remove_request, already_exists,
  is_already_registered, stored_ttl, wallet_entry,
}
use aries_guardianship_agenc.Multitenant.Grants.{entry_of, create_wallet-Granted}
use aries_guardianship_agenc.Multitenant.Sources.{GrantedIn}
use aries_guardianship_agenc.Multitenant.Taken.{SaysTaken, is_already_registered_iff}
use aries_guardianship_agenc.Multitenant.Lookup.{FirstOf, Lacks, find_wallet-FirstOf}
use aries_guardianship_agenc.Js.Regex.{found_in}
use aries_guardianship_agenc.Tests.World.{Http, world, is_empty}

abbrev taken : Thrown
taken = protocol internal_server_error "failed" (text_details "Wallet with name w already exists")

abbrev named_wallet : String → String → Value
named_wallet name id =
    object (("settings", object (("wallet.name", str name) ∷ [])) ∷ ("wallet_id", str id) ∷ [])

abbrev wallets : List Value
wallets = named_wallet "v" "1" ∷ named_wallet "w" "2" ∷ []

abbrev name_taken : Http
name_taken t r =
    if str_eq r.url "http://mt/multitenancy/wallet"
    then err taken
    else if str_eq r.url "http://mt/multitenancy/wallets"
    then ok (record { status = nat 200; body = object (("results", array wallets) ∷ []) })
    else ok (record { status = nat 200; body = object (("token", str "token") ∷ []) })

abbrev env : Env
env = world name_taken is_empty

abbrev body : WalletCreateDto
body = record {
  wallet_name = "w";
  wallet_key = "k";
  label = absent;
  ttl = given (nat 60);
  controller_url = absent;
  auto_connect = given false;
  return_token = given true;
}

find_wallet_test : find_wallet "w" (items wallets) ≡ ok (str "2")
unfolding find_wallet has_name get_prop lookup_field
find_wallet_test = refl

find_wallet-FirstOf_example :
    FirstOf "w" (str "2") (items wallets) ⊎ ((str "2" ≡ null) × Lacks "w" (items wallets))
find_wallet-FirstOf_example = find_wallet-FirstOf "w" (items wallets) (str "2") find_wallet_test

abbrev created : WalletCreated
created = record { success = true; invitation = null; token = str "token" }

abbrev calls : Trace
calls = (create_wallet env body []).1

create_wallet_test : create_wallet env body [] ≡ (ok created, calls)
unfolding create_wallet register_wallet call_create_wallet get_token_and_wallet_id handle_cache_miss
    call_get_all_wallets call_get_token find_wallet has_name iterate add_wallet_to_cache
    is_already_registered found_in already_exists lookup_field get_prop to_text ◌>>=◌
create_wallet_test = refl

create_wallet-Granted_example :
    (id : Value) × (token : Value) × GrantedIn env body calls id token
    × LastWrite "w" (entry_of env body id token) (stored_ttl env (nat 60)) calls
    × (str "token" ≡ (if true then token else null))
create_wallet-Granted_example = create_wallet-Granted env body [] created calls create_wallet_test

abbrev entry : Value
entry = wallet_entry env "other" (str "2") (str "token") (nat 60)

abbrev holds_other : Env
holds_other = world name_taken (λ t key. ok entry)

is_already_registered_test : is_already_registered taken ≡ true
unfolding is_already_registered found_in already_exists
is_already_registered_test = refl

other_key_test : (is_truthy entry ≡ true) × (prop "walletKey" entry ≡ str "other")
unfolding lookup_field
other_key_test = (refl, refl)

removed_test : remove_wallet holds_other "w" "other" [] ≡ (
  ok (object (("token", str "token") ∷ [])),
  request_with_retry (remove_request holds_other (prop "walletId" entry) "other")
      ∷ cache_get "w"
      ∷ [],
)
unfolding remove_wallet call_remove_wallet lookup_field to_text ◌>>=◌
removed_test = refl

is_already_registered_iff_example : (is_already_registered taken ≡ true) ↔ (
    (code : ErrorCode) × (message : String) × (s : String) × (taken
      ≡ protocol code message (text_details s))
    × SaysTaken s)
is_already_registered_iff_example = is_already_registered_iff taken
