-- ===== src/Tests/World.antt =====
-- An environment to run the services in: a clock that only delays move, a database that keeps what
-- is saved, and answers of the HTTP client and of the cache that each test gives.
use aries_guardianship_agenc.Base.{
  ◌≡◌, eq_refl, sym, ap, ℕ, ◌+◌, ◌-◌, ◌≤◌, String, true, Option, none, some, List, [], ◌∷◌, str_eq,
  if◌then◌else◌, refl, arith,
}
use aries_guardianship_agenc.Js.Number.{Num, nat}
use aries_guardianship_agenc.Js.Value.{Value, undefined, str, object, absent, given}
use aries_guardianship_agenc.Effects.{
  Env, Result, ok, MaxRow, Call, Reply, Trace, HttpRequest, HttpResponse, Date, read_file,
  request_with_retry, request_without_retry, cache_get, cache_del, cache_set, create_container,
  start_container, stop_container, attach_container, load_kube_config, create_pod, create_service,
  read_pod_status, delete_service, delete_pod, current_time, delay, schedule_spin_down,
  save_transaction, find_transactions, select_max_merkel_order, handle_webhook, app_call,
}
use aries_guardianship_agenc.Config.{AgentCreateDto}
use aries_guardianship_agenc.Manager.Ping.{Clock}
use aries_guardianship_agenc.Manager.Writes.{LastWrite}
use aries_guardianship_agenc.Transactions.Messaging.Chain.{Table, Works, is_ok, largest, orders}

abbrev pub Http : Type 0
Http = Trace → HttpRequest → Result HttpResponse

abbrev pub Cache : Type 0
Cache = Trace → String → Result Value

-- The milliseconds that the delays have taken.
abbrev pub elapsed : Trace → ℕ
elapsed [] = 0
elapsed (delay ms ∷ t) = elapsed t + ms
elapsed (_ ∷ t) = elapsed t

abbrev pub date_of : Trace → Date
date_of t = record { ref = 0; time = elapsed t }

-- What becomes of each save.
abbrev pub Saves : Type 0
Saves = Trace → Result (Unit {0})

abbrev pub all_saved : Saves
all_saved t = ok tt

-- The orders of the records whose save has worked.
abbrev kept : Saves → Trace → List Num
kept saves [] = []
kept saves (save_transaction r ∷ t) =
    let rest = kept saves t in if is_ok (saves t) then r.merkel_order ∷ rest else rest
kept saves (_ ∷ t) = kept saves t

abbrev pub answers : Saves → Http → Cache → Trace → (c : Call) → Result (Reply c)
answers saves http cache t (read_file path) = ok "genesis"
answers saves http cache t (request_with_retry r) = http t r
answers saves http cache t (request_without_retry r) = http t r
answers saves http cache t (cache_get key) = cache t key
answers saves http cache t (cache_del key) = ok tt
answers saves http cache t (cache_set key v ttl) = ok tt
answers saves http cache t (create_container v) = ok "container"
answers saves http cache t (start_container id) = ok tt
answers saves http cache t (stop_container id) = ok tt
answers saves http cache t (attach_container id) = ok tt
answers saves http cache t load_kube_config = ok tt
answers saves http cache t (create_pod namespace v) = ok tt
answers saves http cache t (create_service namespace v) = ok tt
answers saves http cache t (read_pod_status name namespace) = ok []
answers saves http cache t (delete_service name namespace) = ok tt
answers saves http cache t (delete_pod name namespace) = ok tt
answers saves http cache t current_time = ok (date_of t)
answers saves http cache t (delay ms) = ok tt
answers saves http cache t (schedule_spin_down id ms) = ok tt
answers saves http cache t (save_transaction r) = saves t
answers saves http cache t (find_transactions id) = ok []
answers saves http cache t select_max_merkel_order =
    ok (record { max = largest (kept saves t) } ∷ [])
answers saves http cache t (handle_webhook m) = ok undefined
answers saves http cache t (app_call c) = ok tt

abbrev pub variables : String → Option String
variables s =
    if str_eq s "AGENT_RETRY_DURATION"
    then some "3000"
    else if str_eq s "AGENT_ADMIN_PORT"
    then some "5000"
    else if str_eq s "MULTITENANT_URL"
    then some "http://mt"
    else none

abbrev pub world_of : Saves → Http → Cache → Env
world_of saves http cache = record {
  var = variables;
  reply = answers saves http cache;
  local_env = "local";
  time_delta = λ a b. nat (a.time - b.time);
  json_parse = λ s. some (object (("messageTypeId", str "grant") ∷ ("state", str "started") ∷ []));
  hash32 = λ v. ok v;
  credit_transaction = λ v. v;
  transaction_report_request = λ v. v;
  json_limit = "50mb";
  ping_response = "pong";
  healthz_response = "OK";
  date_text = λ d. "a day";
}

abbrev pub world : Http → Cache → Env
world = world_of all_saved

abbrev pub is_up : Http
is_up t r = ok (record {
  status = nat 200;
  body = object (("invitation", object (("label", str "a") ∷ [])) ∷ []);
})

abbrev pub is_empty : Cache
is_empty t key = ok undefined

pub advances_lem : (t : Trace) (c : Call) → elapsed t ≤ elapsed (c ∷ t)
advances_lem t (delay ms) = omega arith
advances_lem t _ = omega arith

abbrev pub clock_of : (http : Http) (cache : Cache) → Clock (world http cache)
clock_of http cache = record {
  date = date_of;
  read = λ t. refl;
  advances = advances_lem;
  waits = λ t ms. omega arith;
  wakes = λ t ms. refl;
  delta = λ a b h. refl;
}

orders-kept :
    (saves : Saves) (http : Http) (cache : Cache) (t : Trace)
    → orders (world_of saves http cache) t ≡ kept saves t
orders-kept saves http cache [] = refl
orders-kept saves http cache (save_transaction r ∷ t) =
    ap (λ l. if is_ok (saves t) then r.merkel_order ∷ l else l) (orders-kept saves http cache t)
orders-kept saves http cache (c ∷ t) = orders-kept saves http cache t

pub selects_kept :
    (saves : Saves) (http : Http) (cache : Cache) (t : Trace) (rows : List MaxRow)
    → answers saves http cache t select_max_merkel_order ≡ ok rows
    → rows ≡ record { max = largest (orders (world_of saves http cache) t) } ∷ []
selects_kept saves http cache t rows e = cc (e, ap largest (orders-kept saves http cache t))

abbrev pub table_of :
    (saves : Saves) (http : Http) (cache : Cache) → Table (world_of saves http cache)
table_of saves http cache = record { selects = λ t rows e. selects_kept saves http cache t rows e }

abbrev pub works_of : (http : Http) (cache : Cache) → Works (world http cache)
works_of http cache = record { saves = λ t r. refl; answers_lem = λ t. (_, refl) }

abbrev pub dto : AgentCreateDto
dto = record {
  wallet_id = "w";
  wallet_key = "k";
  admin_api_key = "secret";
  agent_id = "a";
  seed = absent;
  ttl = given (nat 60);
  controller_url = absent;
  label = absent;
  auto_connect = given true;
  admin_api_port = absent;
  use_tails_server = absent;
}

-- A cache that keeps the last entry of each key.
abbrev pub remembered : Cache
remembered [] key = ok undefined
remembered (cache_set k v ttl ∷ t) key =
    let earlier = remembered t key in if str_eq k key then ok v else earlier
remembered (_ ∷ t) key = remembered t key

pub remembered_lem :
    (key : String) (v : Value) (ttl : Num) (t : Trace)
    → LastWrite key v ttl t
    → remembered t key ≡ ok v
remembered_lem key v ttl (cache_set k u n ∷ t) (same, e, f) =
    rw (← same) (rw (eq_refl key) (ap ok (sym e)))
remembered_lem key v ttl [] h = elim h [ ]
remembered_lem key v ttl (cache_del k ∷ t) h = elim h [ ]
remembered_lem key v ttl (_ ∷ t) h = remembered_lem key v ttl t h
