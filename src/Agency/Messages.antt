-- ===== src/Agency/Messages.antt =====
-- What messages, registrations and webhooks do.
use mathlib.Core.Path.{subst}
use aries_guardianship_agenc.Base.{String, List, sym, false, Option, none, some, ◌≡◌, Among}
use aries_guardianship_agenc.Js.Value.{Value, undefined, Optional}
use aries_guardianship_agenc.Js.Number.{Num}
use aries_guardianship_agenc.Entity.{AgentTransaction}
use aries_guardianship_agenc.Effects.{Env, Trace, perform, handle_webhook, save_transaction}
use aries_guardianship_agenc.Effects.Keeps.{
  Keeps, Keeps-perform, Keeps-bind, Keeps-lift, Keeps-pure, keeps_rules,
}
use aries_guardianship_agenc.Effects.Ensures.{
  Ensures, Anything, Ensures-then, Ensures-pure, Keeps-known,
}
use aries_guardianship_agenc.Controller.{handle_request}
use aries_guardianship_agenc.Transactions.Persistence.{get_max_merkel_order}
use aries_guardianship_agenc.Transactions.Messaging.{
  MessageType, credit_transaction, grant, transaction_request, new_record, send_message,
  start_transaction, respond_to_transaction, start_report, respond_to_report, respond_to_grant,
  respond,
}
use aries_guardianship_agenc.Transactions.Service.{
  RegisterTdcDto, RegisterOneTimeKeyDto, basic_message_handler, respond_if_known,
  get_agent_admin_api_key, create_agent_connection, register_with_tdc, register_onetime_key,
  get_one_time_key_ids,
}
use aries_guardianship_agenc.Agency.{Operation, webhook, basic_message}
use aries_guardianship_agenc.Agency.Caused.{
  also, AllCaused, asks_kept, reads_kept, finds_kept, selects_kept,
}

module _ (env : Env) (ops : List Operation) (start : Trace) where
  pub handle_request-AllCaused :
      (id route topic : String) (body : Value)
      → Among (webhook id route topic body) ops
      → Keeps (AllCaused env ops start) (handle_request env id route topic body)
  unfolding handle_request
  handle_request-AllCaused id route topic body among =
      Keeps-bind _ _ (reads_kept env ops start id) λ agent.
        Keeps-bind _ _ (Keeps-lift _)
          λ multitenant. Keeps-perform env (handle_webhook _) (λ t p. also among p)

  pub register_with_tdc-AllCaused :
      (id : String) (body : RegisterTdcDto)
      → Keeps (AllCaused env ops start) (register_with_tdc env id body)
  unfolding register_with_tdc create_agent_connection get_agent_admin_api_key
  register_with_tdc-AllCaused id body =
      search (keeps_rules, asks_kept env ops start, reads_kept env ops start) depth 12

  pub register_onetime_key-AllCaused :
      (id : String) (body : RegisterOneTimeKeyDto)
      → Keeps (AllCaused env ops start) (register_onetime_key env id body)
  unfolding register_onetime_key
  register_onetime_key-AllCaused id body = search (keeps_rules, asks_kept env ops start)

  pub get_one_time_key_ids-AllCaused :
      (id : String) (body : RegisterOneTimeKeyDto)
      → Keeps (AllCaused env ops start) (get_one_time_key_ids env id body)
  unfolding get_one_time_key_ids
  get_one_time_key_ids-AllCaused id body = search (keeps_rules, asks_kept env ops start)

  module _ (agent_id : String) (key connection_id : Value) where
    new_record-agent_id :
        (message : Value) (max : Optional Num)
        → Ensures Anything
            (new_record env agent_id key connection_id message max)
            (λ new t. new.agent_id ≡ agent_id)
    unfolding new_record
    new_record-agent_id message max = search (Ensures-then, Ensures-pure) depth 20

    new_record-AllCaused :
        (message : Value) (max : Optional Num)
        → Keeps (AllCaused env ops start) (new_record env agent_id key connection_id message max)
    unfolding new_record
    new_record-AllCaused message max = search keeps_rules depth 20

    send_message-AllCaused :
        (msg : Value)
        → Keeps (AllCaused env ops start) (send_message env agent_id key connection_id msg)
    unfolding send_message
    send_message-AllCaused msg = search (keeps_rules, asks_kept env ops start)

    respond_to_report-AllCaused :
        (message : Value)
        → Keeps (AllCaused env ops start) (respond_to_report env agent_id key connection_id message)
    unfolding respond_to_report start_report
    respond_to_report-AllCaused message =
        search (keeps_rules, send_message-AllCaused, finds_kept env ops start) depth 16

    respond_to_grant-AllCaused :
        (message : Value)
        → Keeps (AllCaused env ops start) (respond_to_grant env agent_id key connection_id message)
    unfolding respond_to_grant
    respond_to_grant-AllCaused message = search keeps_rules

    module _ (body : Value) (among : Among (basic_message agent_id key body) ops) where
      saves_kept :
          (new : AgentTransaction)
          → new.agent_id ≡ agent_id
          → Keeps (AllCaused env ops start) (perform env (save_transaction new))
      saves_kept new same = Keeps-perform env (save_transaction new) (λ t p.
          also (key, body, subst (λ a. Among (basic_message a key body) ops) (sym same) among) p)

      start_transaction-AllCaused :
          (message : Value)
          → Keeps
              (AllCaused env ops start)
              (start_transaction env agent_id key connection_id message)
      unfolding start_transaction get_max_merkel_order
      start_transaction-AllCaused message =
          Keeps-bind _ _ (Keeps-bind _ _ (selects_kept env ops start) (λ rows. Keeps-lift _)) λ max.
            Keeps-known _ _ (λ new. new.agent_id ≡ agent_id) (new_record-agent_id message max)
              (new_record-AllCaused message max)
              λ new same. Keeps-bind _ _ (saves_kept new same) λ done.
                Keeps-bind _ _ (Keeps-lift _) λ id.
                  Keeps-bind _ _ (Keeps-lift _) λ transaction.
                    Keeps-bind _ _ (send_message-AllCaused _) λ sent. Keeps-pure false

      respond_to_transaction-AllCaused :
          (message : Value)
          → Keeps
              (AllCaused env ops start)
              (respond_to_transaction env agent_id key connection_id message)
      unfolding respond_to_transaction
      respond_to_transaction-AllCaused message = search (keeps_rules, start_transaction-AllCaused)

      respond-AllCaused :
          (type : MessageType) (message : Value)
          → Keeps (AllCaused env ops start) (respond env agent_id key connection_id type message)
      respond-AllCaused grant message = respond_to_grant-AllCaused message
      respond-AllCaused credit_transaction message = respond_to_transaction-AllCaused message
      respond-AllCaused transaction_request message = respond_to_report-AllCaused message

      respond_if_known-AllCaused :
          (type : Option MessageType) (message : Value)
          → Keeps
              (AllCaused env ops start)
              (respond_if_known env type agent_id key connection_id message)
      unfolding respond_if_known
      respond_if_known-AllCaused none message = Keeps-pure tt
      respond_if_known-AllCaused (some type) message =
          Keeps-bind _ _ (respond-AllCaused type message) (λ done. Keeps-pure tt)

  pub basic_message_handler-AllCaused :
      (id : String) (key body : Value)
      → Among (basic_message id key body) ops
      → Keeps (AllCaused env ops start) (basic_message_handler env id key body)
  unfolding basic_message_handler
  basic_message_handler-AllCaused id key body among = Keeps-bind _ _ (Keeps-lift _) λ content.
      Keeps-bind _ _ (Keeps-lift _) λ message. Keeps-bind _ _ (Keeps-lift _) λ connection_id.
        Keeps-bind _ _ (Keeps-lift _) λ type.
          Keeps-bind _ _ (respond_if_known-AllCaused id key connection_id body among _ message)
            λ done. Keeps-pure undefined
