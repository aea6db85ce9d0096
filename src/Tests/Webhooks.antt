-- ===== src/Tests/Webhooks.antt =====
-- Runs through two services: a webhook of what was just made.
use aries_guardianship_agenc.Base.{[], ◌∷◌, ◌≡◌, refl, ◌⧺◌, true}
use aries_guardianship_agenc.Js.Number.{nat}
use aries_guardianship_agenc.Js.Number.Text.{print_num, parse_int}
use aries_guardianship_agenc.Js.Value.{
  Value, undefined, null, str, object, lookup_field, absent, given,
}
use aries_guardianship_agenc.Effects.{Env, ok, Trace, ◌>>=◌, get_prop, pure}
use aries_guardianship_agenc.AgentManager.{AgentManager}
use aries_guardianship_agenc.Config.{dto_admin_port, build_config, new_agent_config, config_ttl}
use aries_guardianship_agenc.Manager.{
  SpinUpResult, spin_up_agent, start_or_handle, set_agent_cache, set_spin_down_job,
  connect_if_asked, ping_connection_with_retry, ping_from, is_agent_server_up, create_connection,
  greater,
}
use aries_guardianship_agenc.Multitenant.{
  WalletCreateDto, WalletCreated, create_wallet, remove_wallet,
}
use aries_guardianship_agenc.Controller.{handle_request}
use aries_guardianship_agenc.Controller.Laws.{sent}
use aries_guardianship_agenc.Controller.Cached.{handle_request-spin_up_agent}
use aries_guardianship_agenc.Tests.World.{Http, world, is_up, remembered, remembered_lem, dto}

abbrev env : Env
env = world is_up remembered

abbrev works : AgentManager
works = record { start_agent = λ c. pure "container"; stop_agent = λ id. pure tt }

abbrev spun_up : Trace
spun_up = (spin_up_agent env works 4 dto []).1

abbrev answer : SpinUpResult
answer = record { agent_id = "a"; connection_data = object (("label", str "a") ∷ []) }

spin_up_agent_test : spin_up_agent env works 4 dto [] ≡ (ok answer, spun_up)
unfolding spin_up_agent new_agent_config build_config start_or_handle set_agent_cache
    set_spin_down_job connect_if_asked ping_connection_with_retry ping_from is_agent_server_up
    create_connection greater config_ttl parse_int get_prop lookup_field ◌>>=◌
spin_up_agent_test = refl

handle_request-spin_up_agent_example :
    handle_request env "a" "topic" "connections" undefined spun_up
    ≡ sent env "a" "topic" "connections" undefined spun_up (record {
      agent_url = str ("http://" ⧺ "a" ⧺ ":" ⧺ print_num (dto_admin_port env dto));
      agent_id = "a";
      admin_api_key = str "secret";
      route = "topic";
      topic = "connections";
      body = undefined;
      token = undefined;
    })
handle_request-spin_up_agent_example =
    handle_request-spin_up_agent env "topic" "connections" undefined works 4 dto [] answer spun_up
      spin_up_agent_test (λ v ttl last. remembered_lem "a" v ttl spun_up last)

-- The multitenant agent registers the wallet.
abbrev registers : Http
registers t r = ok (record {
  status = nat 200;
  body = object (("wallet_id", str "id") ∷ ("token", str "token") ∷ []);
})

abbrev wallets : Env
wallets = world registers remembered

abbrev body : WalletCreateDto
body = record {
  wallet_name = "w";
  wallet_key = "k";
  label = absent;
  ttl = given (nat 60);
  controller_url = absent;
  auto_connect = absent;
  return_token = absent;
}

abbrev created : WalletCreated
created = record { success = true; invitation = null; token = null }

abbrev calls : Trace
calls = (create_wallet wallets body []).1

-- The wallet is removed again.
abbrev removed : Trace
removed = (remove_wallet wallets "w" "k" calls).1
