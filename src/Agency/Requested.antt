-- ===== src/Agency/Requested.antt =====
-- Nothing without a request.
use aries_guardianship_agenc.Base.{ℕ, List, [], ◌∷◌, refl, inl, inr, Among, All}
use aries_guardianship_agenc.Effects.{Env, Trace}
use aries_guardianship_agenc.Agency.{
  Operation, create_agent, stop_agent, connect_agent, spin_down, create_wallet, remove_wallet,
  webhook, basic_message, register, register_onetime_key, list_ids, Place, serve, serve_from,
  serve_all,
}
use aries_guardianship_agenc.Agency.Caused.{Since-start, Since-nothing, Caused, AllCaused}
use aries_guardianship_agenc.Agency.Agents.{
  post_agent-AllCaused, connect_agent-AllCaused, spin_down_agent-AllCaused,
}
use aries_guardianship_agenc.Agency.Wallets.{post_wallet-AllCaused, remove_wallet-AllCaused}
use aries_guardianship_agenc.Agency.Messages.{
  handle_request-AllCaused, register_with_tdc-AllCaused, register_onetime_key-AllCaused,
  get_one_time_key_ids-AllCaused, basic_message_handler-AllCaused,
}

module _ (env : Env) (place : Place) (fuel : ℕ) where
  serve-AllCaused :
      (ops : List Operation) (start : Trace) (op : Operation) (t : Trace)
      → Among op ops
      → AllCaused env ops start t
      → AllCaused env ops start (serve env place fuel op t)
  serve-AllCaused ops start (create_agent body) t a p =
      (post_agent-AllCaused env ops start place fuel body a).at t p
  serve-AllCaused ops start (stop_agent body) t a p =
      (spin_down_agent-AllCaused env ops start body.agent_id (inl a) place).at t p
  serve-AllCaused ops start (connect_agent body) t a p =
      (connect_agent-AllCaused env ops start place fuel body.agent_id body.admin_api_key).at t p
  serve-AllCaused ops start (spin_down id) t a p =
      (spin_down_agent-AllCaused env ops start id (inr a) place).at t p
  serve-AllCaused ops start (create_wallet body) t a p =
      (post_wallet-AllCaused env ops start body a).at t p
  serve-AllCaused ops start (remove_wallet body) t a p =
      (remove_wallet-AllCaused env ops start body.wallet_name body.wallet_key).at t p
  serve-AllCaused ops start (webhook id route subroute body) t a p =
      (handle_request-AllCaused env ops start id route subroute body a).at t p
  serve-AllCaused ops start (basic_message id key body) t a p =
      (basic_message_handler-AllCaused env ops start id key body a).at t p
  serve-AllCaused ops start (register id body) t a p =
      (register_with_tdc-AllCaused env ops start id body).at t p
  serve-AllCaused ops start (register_onetime_key id body) t a p =
      (register_onetime_key-AllCaused env ops start id body).at t p
  serve-AllCaused ops start (list_ids id body) t a p =
      (get_one_time_key_ids-AllCaused env ops start id body).at t p

  -- Whatever is served behind a start comes from a request or a timer, those before the trace `t`
  -- included.
  pub serve_from-AllCaused :
      (ops : List Operation) (start t : Trace) (later : List Operation)
      → ((op : Operation) → Among op later → Among op ops)
      → AllCaused env ops start t
      → AllCaused env ops start (serve_from env place fuel t later)
  serve_from-AllCaused ops start t [] among caused = caused
  serve_from-AllCaused ops start t (op ∷ later) among caused =
      serve-AllCaused ops start op (serve_from env place fuel t later) (among op (inl refl))
        (serve_from-AllCaused ops start t later (λ o a. among o (inr a)) caused)

  -- Whatever requests and messages the agency has served, in whatever order, and whatever all that it
  -- calls has answered: containers and pods are created only with the options of an agent that some
  -- request has asked for; an agent is stopped, and its entry deleted, only for a request or a timer
  -- with its id; every entry that is written is that of a requested agent or that of a requested
  -- wallet with an id and a token that were granted, under its name and for the time that its ttl
  -- means; a handler is called only for a webhook that came in, and a record saved only for an agent
  -- that a message was for.
  pub serve_all-AllCaused :
      (ops : List Operation) → All (Caused env ops) (serve_all env place fuel ops)
  serve_all-AllCaused ops =
      Since-nothing (Caused env ops) (serve_all env place fuel ops)
        (serve_from-AllCaused ops [] [] ops (λ op a. a) (Since-start (Caused env ops) []))
