-- ===== src/Agency/Caused.antt =====
-- Which request an effect of the agency comes from.
use mathlib.Core.Path.{subst}
use aries_guardianship_agenc.Base.{
  String, List, [], ◌∷◌, ◌++◌, ◌≡◌, refl, sym, ap, ◌∙◌, ◌⊎◌, Among, All,
}
use aries_guardianship_agenc.Js.Number.{Num}
use aries_guardianship_agenc.Js.Value.{Value}
use aries_guardianship_agenc.Effects.{
  Env, Call, Trace, HttpRequest, perform, read_file, request_with_retry, cache_get, cache_del,
  cache_set, create_container, start_container, stop_container, attach_container, create_pod,
  create_service, delete_service, delete_pod, save_transaction, find_transactions,
  select_max_merkel_order, handle_webhook,
}
use aries_guardianship_agenc.Effects.Keeps.{Keeps, Keeps-perform}
use aries_guardianship_agenc.Config.{AgentCreateDto, AgentConfig, build_config}
use aries_guardianship_agenc.Docker.{container_options}
use aries_guardianship_agenc.K8s.{pod_options}
use aries_guardianship_agenc.Manager
use aries_guardianship_agenc.Manager.{agent_entry, ttl_or_infinite}
use aries_guardianship_agenc.Manager.Writes.{IgnoresWaiting}
use aries_guardianship_agenc.Multitenant
use aries_guardianship_agenc.Multitenant.{WalletCreateDto, stored_ttl, wallet_ttl}
use aries_guardianship_agenc.Multitenant.Grants.{entry_of}
use aries_guardianship_agenc.Multitenant.Sources.{Granted}
use aries_guardianship_agenc.Agency.{
  Operation, create_agent, stop_agent, spin_down, create_wallet, webhook, basic_message,
}

-- A trace that goes on from a start, where every call behind the start satisfies P.
pub record Since (P : Call → Type 0) (start t : Trace) : Type 0 where
  pub newer : List Call
  pub goes_on : t ≡ newer ++ start
  pub all : All P newer

pub also :
    {P : Call → Type 0} {start t : Trace} {c : Call} → P c → Since P start t → Since P start (c ∷ t)
also {c = c} p since = record {
  newer = c ∷ since.newer;
  goes_on = ap (λ u. c ∷ u) since.goes_on;
  all = (p, since.all);
}

pub Since-start : (P : Call → Type 0) (start : Trace) → Since P start start
Since-start P start = record { newer = []; goes_on = refl; all = tt }

append_nil : (t : Trace) → t ++ [] ≡ t
append_nil [] = refl
append_nil (c ∷ t) = ap (λ u. c ∷ u) (append_nil t)

-- Behind nothing, every call counts.
pub Since-nothing : (P : Call → Type 0) (t : Trace) → Since P [] t → All P t
Since-nothing P t since = subst (All P) (sym (since.goes_on ∙ append_nil since.newer)) since.all

module _ (env : Env) (ops : List Operation) where
  -- The configuration of an agent that a request has asked for.
  abbrev pub IsRequested : AgentConfig → Type 0
  IsRequested c =
      (dto : AgentCreateDto) × (genesis : String) × Among (create_agent dto) ops
      × (c ≡ build_config env (Manager.with_defaults dto) genesis)

  -- An entry of such an agent, for the time that its ttl means.
  abbrev pub IsAgentEntry : String → Value → Num → Type 0
  IsAgentEntry key v ttl =
      (c : AgentConfig) × IsRequested c
      × (key ≡ c.agent_id)
      × (v ≡ agent_entry c)
      × (ttl ≡ ttl_or_infinite c)

  -- An entry of a wallet that a request has asked for, with an id and a token that were granted.
  abbrev pub IsWalletEntry : String → Value → Num → Type 0
  IsWalletEntry key v ttl =
      (body : WalletCreateDto) × (id : Value) × (token : Value) × Among (create_wallet body) ops
      × Granted env (Multitenant.with_defaults body) id token
      × (key ≡ body.wallet_name)
      × (v ≡ entry_of env (Multitenant.with_defaults body) id token)
      × (ttl ≡ stored_ttl env (wallet_ttl body.ttl))

  -- What starts or stops agents, writes the cache, calls handlers or saves records.
  abbrev pub Caused : Call → Type 0
  Caused (cache_set key v ttl) = IsAgentEntry key v ttl ⊎ IsWalletEntry key v ttl
  Caused (create_container v) = (c : AgentConfig) × IsRequested c × (v ≡ container_options env c)
  Caused (create_pod namespace v) = (c : AgentConfig) × IsRequested c × (v ≡ pod_options env c)
  Caused (cache_del id) =
      Among (stop_agent (record { agent_id = id })) ops ⊎ Among (spin_down id) ops
  Caused (stop_container id) =
      Among (stop_agent (record { agent_id = id })) ops ⊎ Among (spin_down id) ops
  Caused (delete_pod id namespace) =
      Among (stop_agent (record { agent_id = id })) ops ⊎ Among (spin_down id) ops
  Caused (handle_webhook m) = Among (webhook m.agent_id m.route m.topic m.body) ops
  Caused (save_transaction r) =
      (key : Value) × (message : Value) × Among (basic_message r.agent_id key message) ops
  Caused _ = Unit

  abbrev pub AllCaused : Trace → Trace → Type 0
  AllCaused = Since Caused

module _ (env : Env) (ops : List Operation) (start : Trace) where
  -- The other calls.
  pub files_kept : (path : _) → Keeps (AllCaused env ops start) (perform env (read_file path))
  files_kept path = Keeps-perform env (read_file path) (λ t p. also tt p)

  pub asks_kept :
      (r : HttpRequest) → Keeps (AllCaused env ops start) (perform env (request_with_retry r))
  asks_kept r = Keeps-perform env (request_with_retry r) (λ t p. also tt p)

  pub reads_kept : (key : String) → Keeps (AllCaused env ops start) (perform env (cache_get key))
  reads_kept key = Keeps-perform env (cache_get key) (λ t p. also tt p)

  pub starts_kept :
      (id : String) → Keeps (AllCaused env ops start) (perform env (start_container id))
  starts_kept id = Keeps-perform env (start_container id) (λ t p. also tt p)

  pub attaches_kept :
      (id : String) → Keeps (AllCaused env ops start) (perform env (attach_container id))
  attaches_kept id = Keeps-perform env (attach_container id) (λ t p. also tt p)

  pub services_kept :
      (namespace : String) (v : Value)
      → Keeps (AllCaused env ops start) (perform env (create_service namespace v))
  services_kept namespace v = Keeps-perform env (create_service namespace v) (λ t p. also tt p)

  pub unserves_kept :
      (id namespace : String)
      → Keeps (AllCaused env ops start) (perform env (delete_service id namespace))
  unserves_kept id namespace = Keeps-perform env (delete_service id namespace) (λ t p. also tt p)

  pub finds_kept :
      (id : String) → Keeps (AllCaused env ops start) (perform env (find_transactions id))
  finds_kept id = Keeps-perform env (find_transactions id) (λ t p. also tt p)

  pub selects_kept : Keeps (AllCaused env ops start) (perform env select_max_merkel_order)
  selects_kept = Keeps-perform env select_max_merkel_order (λ t p. also tt p)

  pub AllCaused-IgnoresWaiting : IgnoresWaiting (AllCaused env ops start)
  AllCaused-IgnoresWaiting = record {
    time = λ t p. also tt p;
    rest = λ ms t p. also tt p;
    poll = λ r t p. also tt p;
    timer = λ id ms t p. also tt p;
  }
