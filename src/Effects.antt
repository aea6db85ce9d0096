-- ===== src/Effects.antt =====
-- How the services act: what they call outside the program, what they throw, and `await` and
-- `try` as a state monad. Everything outside src/ (the HTTP client, the cache, Docker, Kubernetes,
-- the database, the clock, the message handlers of aries-controller) is an `Env`, which answers
-- each call by any function of the calls made before it; other requests of the agency and other
-- programs show only in those answers.
pub mod Laws
pub mod Keeps
pub mod Ensures
pub mod Process
use aries_guardianship_agenc.Base.{ℕ, String, Option, none, some, List, [], ◌∷◌}
use aries_guardianship_agenc.Js.Number.{Num, nan}
use aries_guardianship_agenc.Js.Number.Text.{parse_int}
use aries_guardianship_agenc.Js.Value.{Value, undefined, null, obj, Optional, lookup_field}
use aries_guardianship_agenc.Entity.{AgentTransaction}

-- The codes given to `ProtocolException`.
pub data ErrorCode : Type 0 where
  internal_server_error invalid_backend_operation : ErrorCode
  named : String → ErrorCode

-- What is thrown: a `ProtocolException` with its details, an `Error`, or one of the language's own.
mutual
  pub data Thrown : Type 0 where
    protocol : ErrorCode → String → Details → Thrown
    error : String → Thrown
    type_error syntax_error : Thrown
    -- no exception of the program: the model's rounds of a `while` loop are used up
    out_of_fuel : Thrown

  pub data Details : Type 0 where
    no_details : Details
    text_details : String → Details
    thrown_details : Thrown → Details
    value_details : Value → Details

pub data Result {ℓ} (A : Type ℓ) : Type ℓ where
  ok : A → Result A
  err : Thrown → Result A

pub record HttpRequest : Type 0 where
  pub method : String
  pub url : String
  pub headers : List (String × Value)
  pub body : Value

pub record HttpResponse : Type 0 where
  pub status : Num
  pub body : Value

-- An object of the class `Date`: its identity, which `===` compares, and its milliseconds.
pub record Date : Type 0 where
  pub ref : ℕ
  pub time : ℕ

-- `V1PodCondition` of the Kubernetes client, the properties that are read.
pub record PodCondition : Type 0 where
  pub type : String
  pub status : String
  pub last_transition_time : Optional Date

-- A row of `SELECT MAX(merkel_order) …`; the driver gives SQL's NULL as `null`.
pub record MaxRow : Type 0 where
  pub max : Optional Num

-- What a handler of aries-controller is given.
pub record WebhookMessage : Type 0 where
  pub agent_url : Value
  pub agent_id : String
  pub admin_api_key : Value
  pub route : String
  pub topic : String
  pub body : Value
  pub token : Value

-- What `main.ts` and `AppService.setup` ask of the framework. A path, a title, a description and
-- a version stand for the documentation.
pub data AppCall : Type 0 where
  create_app use_logger use_exception_filter : AppCall
  use_traceware listen : Option String → AppCall
  use_json_limit : String → AppCall
  setup_documentation : String → String → String → String → AppCall

pub data Call : Type 0 where
  read_file : Option String → Call
  request_with_retry request_without_retry : HttpRequest → Call
  cache_get cache_del : String → Call
  cache_set : String → Value → Num → Call
  create_container : Value → Call
  start_container stop_container attach_container : String → Call
  load_kube_config : Call
  -- namespace and body
  create_pod create_service : String → Value → Call
  -- name and namespace
  read_pod_status delete_service delete_pod : String → String → Call
  current_time : Call
  delay : ℕ → Call
  -- `setTimeout` of `spinDownAgent(agentId)` in so many milliseconds
  schedule_spin_down : String → Num → Call
  save_transaction : AgentTransaction → Call
  find_transactions : String → Call
  select_max_merkel_order : Call
  handle_webhook : WebhookMessage → Call
  app_call : AppCall → Call

abbrev pub Reply : Call → Type 0
Reply (read_file _) = String
Reply (request_with_retry _) = HttpResponse
Reply (request_without_retry _) = HttpResponse
Reply (cache_get _) = Value
Reply (create_container _) = String
Reply (read_pod_status _ _) = List PodCondition
Reply current_time = Date
Reply (find_transactions _) = List AgentTransaction
Reply select_max_merkel_order = List MaxRow
Reply (handle_webhook _) = Value
Reply _ = Unit {0}

-- The calls made so far, the last one first.
abbrev pub Trace : Type 0
Trace = List Call

pub record Env : Type 0 where
  -- process.env
  pub var : String → Option String
  pub reply : Trace → (c : Call) → Result (Reply c)
  -- `Constants.LOCAL` and `ProtocolUtility.timeDelta` of protocol-common, `JSON.parse`,
  -- `SecurityUtility.hash32`, and the constructors of aries-controller's messages
  pub local_env : String
  pub time_delta : Date → Date → Num
  pub json_parse : String → Option Value
  pub hash32 : Value → Result Value
  pub credit_transaction : Value → Value
  pub transaction_report_request : Value → Value
  -- `HttpConstants` of protocol-common, and `Date.prototype.toDateString`
  pub json_limit : String
  pub ping_response : String
  pub healthz_response : String
  pub date_text : Date → String

-- The environment's variable as an integer: `parseInt(process.env.X, 10)`.
abbrev pub parse_variable : Option String → Num
parse_variable none = nan
parse_variable (some s) = parse_int s

-- An asynchronous method: its result or what it throws, and the calls it has made.
abbrev pub M : Type 0 → Type 0
M A = Trace → Result A × Trace

module _ {A : Type 0} where
  unfoldable pub pure : A → M A
  pure a t = (ok a, t)

  unfoldable pub throw : Thrown → M A
  throw e t = (err e, t)

  unfoldable pub lift : Result A → M A
  lift r t = (r, t)

  abbrev recover : Result A → (Thrown → M A) → M A
  recover (ok a) h t = (ok a, t)
  recover (err e) h t = h e t

  -- `try { … } catch (e) { … }`
  unfoldable pub catch : M A → (Thrown → M A) → M A
  catch m h t = let (r, t') = m t in recover r h t'

-- `await` of a call outside the program.
unfoldable pub perform : Env → (c : Call) → M (Reply c)
perform env c t = (env.reply t c, c ∷ t)

module _ {A B : Type 0} where
  abbrev pub continue : Result A → (A → M B) → M B
  continue (ok a) f t = f a t
  continue (err e) f t = (err e, t)

  infixl 5 ◌>>=◌
  -- Unfolding this unfolds the ways to build a method that stand above.
  unfoldable pub ◌>>=◌ : M A → (A → M B) → M B
  unfolding pure throw lift catch perform
  ◌>>=◌ m f t = let (r, t') = m t in continue r f t'

infixl 5 ◌>>◌
abbrev pub ◌>>◌ : {A B : Type 0} → M A → M B → M B
m >> k = m >>= λ _. k

-- A promise or a timer that is started and not awaited.
unfoldable pub detached : {A : Type 0} → M A → M (Unit {0})
detached m t = (ok tt, (m t).1)

-- `v.key` for a value that is neither `undefined` nor `null`; no name that is read is one that
-- numbers, texts or arrays have.
abbrev pub prop : String → Value → Value
prop key (obj fs) = lookup_field key fs
prop key _ = undefined

-- `v.key`
unfoldable pub get_prop : String → Value → Result Value
get_prop key undefined = err type_error
get_prop key null = err type_error
get_prop key v = ok (prop key v)
