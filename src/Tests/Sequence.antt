-- ===== src/Tests/Sequence.antt =====
-- Messages one behind the other, on a table whose first save fails.
use aries_guardianship_agenc.Base.{ℕ, ◌≤◌, [], ◌∷◌, ◌≡◌, refl}
use aries_guardianship_agenc.Js.Number.{nat}
use aries_guardianship_agenc.Js.Value.{str, obj, lookup_field}
use aries_guardianship_agenc.Effects.{Env, ok, err, type_error, get_prop, ◌>>=◌}
use aries_guardianship_agenc.Manager.{greater}
use aries_guardianship_agenc.Transactions.Persistence.{read_max, get_max_merkel_order}
use aries_guardianship_agenc.Transactions.Messaging.{
  new_record, send_message, start_transaction, respond_to_transaction,
}
use aries_guardianship_agenc.Transactions.Messaging.Chain.{orders, countdown, largest, above}
use aries_guardianship_agenc.Transactions.Messaging.Sequence.{
  Message, handle_all, orders-handle_all,
}
use aries_guardianship_agenc.Tests.World.{Saves, world_of, is_up, is_empty, table_of}
use aries_guardianship_agenc.Tests.Messages.{message}

abbrev first_refused : Saves
first_refused [] = err type_error
first_refused (c ∷ []) = err type_error
first_refused (c ∷ d ∷ t) = ok tt

abbrev refusing : Env
refusing = world_of first_refused is_up is_empty

abbrev arrived : Message
arrived = record { agent_id = "a"; key = str "key"; connection_id = str "c"; content = obj message }

handle_all_test :
    orders refusing (handle_all refusing (arrived ∷ arrived ∷ arrived ∷ [])) ≡ nat 2 ∷ nat 1 ∷ []
unfolding handle_all respond_to_transaction start_transaction new_record get_max_merkel_order
    send_message get_prop ◌>>=◌ read_max largest above greater lookup_field
handle_all_test = refl

orders-handle_all_example :
    (n : ℕ) × (n ≤ 3)
    × (orders refusing (handle_all refusing (arrived ∷ arrived ∷ arrived ∷ [])) ≡ countdown n)
orders-handle_all_example =
    orders-handle_all refusing (table_of first_refused is_up is_empty)
      (arrived ∷ arrived ∷ arrived ∷ [])
