-- ===== src/Tests/Messages.antt =====
-- Runs of the handlers of messages and of the registration at a TDC.
use aries_guardianship_agenc.Base.{false, true, [], ◌∷◌, ◌≡◌, refl}
use aries_guardianship_agenc.Js.Number.{nat}
use aries_guardianship_agenc.Js.Value.{
  Value, object, is_undefined, undefined, str, Fields, fields, obj, nothing, lookup_field,
}
use aries_guardianship_agenc.Effects.{
  prop, get_prop, ◌>>=◌, Env, ok, Trace, HttpResponse, cache_get, select_max_merkel_order,
}
use aries_guardianship_agenc.Config.{AgentConfig, build_config}
use aries_guardianship_agenc.Manager.{agent_entry}
use aries_guardianship_agenc.Transactions.Messaging.{started, accepted, is_state, respond_to_report}
use aries_guardianship_agenc.Transactions.Persistence.{read_max}
use aries_guardianship_agenc.Transactions.Messaging.Report.{
  respond_to_report-started, accepted_or, tell,
}
use aries_guardianship_agenc.Transactions.Messaging.Chain.{
  IsStarted, orders, respond_all, orders-respond_all, largest,
}
use aries_guardianship_agenc.Transactions.Service.{
  RegisterTdcDto, register_with_tdc, create_agent_connection, get_agent_admin_api_key,
}
use aries_guardianship_agenc.Transactions.Service.Laws.{
  register_with_tdc-returned, invitation_of, registration_of, invitation_call,
}
use aries_guardianship_agenc.Tests.World.{
  Http, world, is_up, is_empty, table_of, works_of, all_saved, dto,
}

abbrev pub env : Env
env = world is_up is_empty

abbrev pub event : Fields
event = fields (("fspHash", str "hash") ∷ ("amount", str "5") ∷ [])

abbrev pub message : Fields
message = fields (("state", str "started") ∷ ("id", str "1") ∷ ("transaction", obj event) ∷ [])

pub is_started_test : is_state (lookup_field "state" message) started ≡ true
unfolding lookup_field
is_started_test = refl

pub event_test : lookup_field "transaction" message ≡ obj event
unfolding lookup_field
event_test = refl

pub hash_test : env.hash32 (lookup_field "fspHash" event) ≡ ok (str "hash")
unfolding lookup_field
hash_test = refl

respond_to_report-started_example :
    respond_to_report env "a" (str "key") (str "c") (obj message) []
    ≡ accepted_or env "a"
        (str "key")
        (str "c")
        message
        []
        (is_up [] (record { method = ""; url = ""; headers = []; body = undefined }))
        (tell env "a" (str "key") (str "c") message [] accepted "" [])
respond_to_report-started_example =
    respond_to_report-started env "a" (str "key") (str "c") message [] is_started_test

empty_test : env.reply [] select_max_merkel_order ≡ ok ((record { max = nothing }) ∷ [])
unfolding largest
empty_test = refl

null_test : read_max ((record { max = nothing }) ∷ []) ≡ ok nothing
unfolding read_max
null_test = refl

abbrev pub is_started : IsStarted env message
is_started = record {
  event = event;
  hash = str "hash";
  state_lem = is_started_test;
  transaction_lem = event_test;
  hash_lem = hash_test;
}

orders-respond_all_example :
    orders env (respond_all env "a" (str "key") (str "c") (message ∷ message ∷ message ∷ []) [])
    ≡ nat 3 ∷ nat 2 ∷ nat 1 ∷ []
orders-respond_all_example =
    orders-respond_all env "a" (str "key") (str "c") (table_of all_saved is_up is_empty)
      (works_of is_up is_empty) (message ∷ message ∷ message ∷ [])
      (is_started, (is_started, (is_started, tt)))

abbrev granted : Fields
granted = fields (("messageTypeId", str "grant") ∷ ("state", str "started") ∷ [])

abbrev config : AgentConfig
config = build_config env dto "genesis"

abbrev holds_agent : Env
holds_agent = world is_up (λ t key. ok (agent_entry config))

abbrev tdc : RegisterTdcDto
tdc = record { tdc_prefix = "p"; tdc_endpoint = "http://tdc" }

abbrev invitation : Fields
invitation = fields (("label", str "a") ∷ [])

abbrev connection : Fields
connection = fields (("invitation", obj invitation) ∷ [])

abbrev answer : HttpResponse
answer = record { status = nat 200; body = obj connection }

invitation_test : lookup_field "invitation" connection ≡ obj invitation
unfolding lookup_field
invitation_test = refl

abbrev asked : Trace
asked = invitation_call holds_agent "a" tdc [] config ∷ cache_get "a" ∷ []

-- The TDC answers with connection data, and so does the agent.
abbrev paired : Http
paired t r = ok (record {
  status = nat 200;
  body = object (("invitation", obj invitation) ∷ ("connectionData", str "data") ∷ []);
})

abbrev registers : Env
registers = world paired (λ t key. ok (agent_entry config))

abbrev done : Trace
done = (register_with_tdc registers "a" tdc []).1

abbrev data_of : Value
data_of = object (("connectionData", str "data") ∷ [])

register_with_tdc_test : register_with_tdc registers "a" tdc [] ≡ (ok data_of, done)
unfolding register_with_tdc create_agent_connection get_agent_admin_api_key get_prop lookup_field
    ◌>>=◌
register_with_tdc_test = refl

register_with_tdc-returned_example :
    (agent : Value) × (res : HttpResponse) × (answer : HttpResponse) × (registers.reply []
        (cache_get "a")
      ≡ ok agent)
    × (is_undefined agent ≡ false)
    × (registers.reply (cache_get "a" ∷ []) (invitation_of registers "a" tdc [] agent) ≡ ok res)
    × (registers.reply
          (invitation_of registers "a" tdc [] agent ∷ cache_get "a" ∷ [])
          (registration_of registers "a" tdc [] res)
        ≡ ok answer)
    × (done
        ≡ registration_of registers "a" tdc [] res
          ∷ invitation_of registers "a" tdc [] agent
          ∷ cache_get "a"
          ∷ [])
    × (data_of ≡ object (("connectionData", prop "connectionData" answer.body) ∷ []))
register_with_tdc-returned_example =
    register_with_tdc-returned registers "a" tdc [] data_of done register_with_tdc_test
