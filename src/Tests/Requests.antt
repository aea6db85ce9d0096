-- ===== src/Tests/Requests.antt =====
-- Runs of the whole agency.
use aries_guardianship_agenc.Base.{String, List, [], ◌∷◌, ◌≡◌, ◌⊎◌, Among, All}
use aries_guardianship_agenc.Js.Number.{Num, nat}
use aries_guardianship_agenc.Js.Value.{Value, undefined, null, absent, given}
use aries_guardianship_agenc.Effects.{Env, Trace, cache_set}
use aries_guardianship_agenc.Controller.{handle_request}
use aries_guardianship_agenc.Manager
use aries_guardianship_agenc.Multitenant.{WalletCreateDto}
use aries_guardianship_agenc.Agency.{
  Operation, create_agent, create_wallet, spin_down, webhook, docker, serve_all,
}
use aries_guardianship_agenc.Agency.Caused.{Caused}
use aries_guardianship_agenc.Agency.Requested.{serve_all-AllCaused}
use aries_guardianship_agenc.Tests.World.{world, is_up, remembered, dto}

abbrev env : Env
env = world is_up remembered

abbrev wallet : WalletCreateDto
wallet = record {
  wallet_name = "w";
  wallet_key = "k";
  label = absent;
  ttl = given (nat 60);
  controller_url = absent;
  auto_connect = absent;
  return_token = absent;
}

abbrev requests : List Operation
requests =
    spin_down "a"
    ∷ webhook "a" "topic" "connections" undefined
    ∷ create_wallet wallet
    ∷ create_agent dto
    ∷ []

serve_all-AllCaused_example : All (Caused env requests) (serve_all env docker 4 requests)
serve_all-AllCaused_example = serve_all-AllCaused env docker 4 requests

abbrev Stored : Trace → String → Value → Type 0
Stored t key v = ((v ≡ undefined) ⊎ (v ≡ null)) ⊎ ((ttl : Num) × Among (cache_set key v ttl) t)

-- The agent has been created.
abbrev served : Trace
served = serve_all env docker 4 (create_agent dto ∷ [])

abbrev sent : Trace
sent = (handle_request env "a" "topic" "connections" undefined served).1
