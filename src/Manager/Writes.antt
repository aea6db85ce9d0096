-- ===== src/Manager/Writes.antt =====
-- Methods of the manager that leave the cache alone, and how often they ask for an invitation.
use aries_guardianship_agenc.Base.{
  ℕ, zero, suc, String, Bool, false, List, [], ◌∷◌, ◌≡◌, ◌&&◌, ◌||◌, str_eq, ◌⧺◌, if◌then◌else◌,
}
use aries_guardianship_agenc.Js.Number.{Num}
use aries_guardianship_agenc.Js.Value.{Value, Optional, is_text}
use aries_guardianship_agenc.Effects.{
  Env, Trace, Date, HttpRequest, perform, cache_set, cache_del, request_with_retry, current_time,
  delay, request_without_retry, schedule_spin_down,
}
use aries_guardianship_agenc.Effects.Keeps.{
  Keeps, Keeps-pure, Keeps-throw, Keeps-if, Keeps-catch, Keeps-bind, Keeps-perform, keeps_rules,
}
use aries_guardianship_agenc.Config.{AgentConfig}
use aries_guardianship_agenc.Manager.{
  set_spin_down_job, is_agent_server_up, create_connection, ping_from, ping_connection_with_retry,
  connect_if_asked,
}

-- The last write to the cache has stored this entry.
abbrev pub LastWrite : String → Value → Num → Trace → Type 0
LastWrite k v ttl [] = ⊥
LastWrite k v ttl (cache_set k' v' ttl' ∷ t) = (k ≡ k') × (v ≡ v') × (ttl ≡ ttl')
LastWrite k v ttl (cache_del k' ∷ t) = ⊥
LastWrite k v ttl (_ ∷ t) = LastWrite k v ttl t

abbrev has_key : String → List (String × Value) → Bool
has_key key [] = false
has_key key ((name, v) ∷ headers) =
    let others = has_key key headers in (str_eq name "x-api-key" && is_text v key) || others

-- A request to the agent, at this port and with this key, for an invitation.
abbrev pub invites : String → String → String → HttpRequest → Bool
invites id port key r =
    str_eq r.method "POST"
    && str_eq r.url ("http://" ⧺ id ⧺ ":" ⧺ port ⧺ "/connections/create-invitation")
    && has_key key r.headers

-- How many such requests have been made.
abbrev pub invitations : String → String → String → Trace → ℕ
invitations id port key [] = 0
invitations id port key (request_with_retry r ∷ t) =
    let n = invitations id port key t in if invites id port key r then suc n else n
invitations id port key (_ ∷ t) = invitations id port key t

-- The calls of a scheduled timer and of the wait for an agent keep `P`.
pub record IgnoresWaiting (P : Trace → Type 0) : Type 0 where
  pub time : (t : Trace) → P t → P (current_time ∷ t)
  pub rest : (ms : ℕ) (t : Trace) → P t → P (delay ms ∷ t)
  pub poll : (r : HttpRequest) (t : Trace) → P t → P (request_without_retry r ∷ t)
  pub timer : (id : String) (ms : Num) (t : Trace) → P t → P (schedule_spin_down id ms ∷ t)

module _ (env : Env) {P : Trace → Type 0} (ignores : IgnoresWaiting P) where
  time_kept : Keeps P (perform env current_time)
  time_kept = Keeps-perform env current_time ignores.time

  rest_kept : (ms : ℕ) → Keeps P (perform env (delay ms))
  rest_kept ms = Keeps-perform env (delay ms) (ignores.rest ms)

  poll_kept : (r : HttpRequest) → Keeps P (perform env (request_without_retry r))
  poll_kept r = Keeps-perform env (request_without_retry r) (ignores.poll r)

  timer_kept : (id : String) (ms : Num) → Keeps P (perform env (schedule_spin_down id ms))
  timer_kept id ms = Keeps-perform env (schedule_spin_down id ms) (ignores.timer id ms)

  pub set_spin_down_job-Keeps : (c : AgentConfig) → Keeps P (set_spin_down_job env c)
  unfolding set_spin_down_job
  set_spin_down_job-Keeps c = search (keeps_rules, timer_kept)

  is_agent_server_up-Keeps :
      (id : String) (port key : Value) → Keeps P (is_agent_server_up env id port key)
  unfolding is_agent_server_up
  is_agent_server_up-Keeps id port key = search (keeps_rules, poll_kept)

  ping_from-Keeps :
      (fuel : ℕ) (id : String) (port key : Value) (duration : Num) (start : Date)
      → Keeps P (ping_from env fuel id port key duration start)
  unfolding ping_from
  ping_from-Keeps zero id port key duration start = Keeps-throw _
  ping_from-Keeps (suc fuel) id port key duration start =
      let again = ping_from-Keeps fuel id port key duration start in
      let polled = Keeps-catch _ _ (is_agent_server_up-Keeps id port key) (λ e. Keeps-pure false) in
      let round =
        Keeps-bind _ _ (rest_kept 1000)
          (λ _. Keeps-bind _ _ polled (λ b. Keeps-if b _ _ (Keeps-pure tt) again)) in
      Keeps-bind _ _ time_kept (λ now. Keeps-if _ _ _ round (Keeps-throw _))

  pub ping_connection_with_retry-Keeps :
      (fuel : ℕ) (id : String) (port key : Value) (duration : Num)
      → Keeps P (ping_connection_with_retry env fuel id port key duration)
  unfolding ping_connection_with_retry
  ping_connection_with_retry-Keeps fuel id port key duration =
      search (keeps_rules, time_kept, ping_from-Keeps)

  module _ (asks : (r : HttpRequest) (t : Trace) → P t → P (request_with_retry r ∷ t)) where
    asks_kept : (r : HttpRequest) → Keeps P (perform env (request_with_retry r))
    asks_kept r = Keeps-perform env (request_with_retry r) (asks r)

    pub create_connection-Keeps :
        (id : String) (port key : Value) → Keeps P (create_connection env id port key)
    unfolding create_connection
    create_connection-Keeps id port key = search (keeps_rules, asks_kept)

    pub connect_if_asked-Keeps :
        (fuel : ℕ) (c : AgentConfig) (auto_connect : Optional Bool)
        → Keeps P (connect_if_asked env fuel c auto_connect)
    unfolding connect_if_asked
    connect_if_asked-Keeps fuel c auto_connect =
        search (keeps_rules, ping_connection_with_retry-Keeps, create_connection-Keeps)

module _ (id : String) (v : Value) (ttl : Num) where
  pub LastWrite-IgnoresWaiting : IgnoresWaiting (LastWrite id v ttl)
  LastWrite-IgnoresWaiting = record {
    time = λ t p. p;
    rest = λ ms t p. p;
    poll = λ r t p. p;
    timer = λ i ms t p. p;
  }

pub invitations-IgnoresWaiting :
    (id port key : String) (n : ℕ) → IgnoresWaiting (λ t. invitations id port key t ≡ n)
invitations-IgnoresWaiting id port key n = record {
  time = λ t p. p;
  rest = λ ms t p. p;
  poll = λ r t p. p;
  timer = λ i m t p. p;
}
