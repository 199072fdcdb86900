-- ===== src/DataRouter/Tests.antt =====
-- The theorems on the data router at concrete messages, with a registry that knows one schema.
use common_data_layer.Prelude.{ℕ, String, ◌≡◌, refl, Option, none, [], ◌∷◌, ◌==◌, if◌then◌else◌}
use common_data_layer.Json.{array, nil}
use common_data_layer.Exec.{ok, err}
use common_data_layer.Cache.{IsCoherent}
use common_data_layer.Cache.Single.{single, single_laws}
use common_data_layer.Messaging.{CommunicationMessage, DataRouterInsertMessage}
use common_data_layer.DataRouter.{World, Router, handle_message}
use common_data_layer.DataRouter.Coherence.{source}
use common_data_layer.DataRouter.Expected.{handled, handle_message-expected}
use common_data_layer.DataRouter.Acked.{count_after, handle_message_acknowledged}

abbrev insert : ℕ → DataRouterInsertMessage
insert schema_id = record { object_id = 1; schema_id = schema_id; raw_data = "{}" }

-- The registry knows the schema 7; the text "[]" stands for messages of the schemas 7 and 8.
abbrev world : World
world = record {
  connect = ok tt;
  registry_topic = λ id. if id == 7 then ok "topic" else err "no schema";
  current_timestamp = λ n. n;
  parse_value = λ text. ok (array nil);
  parse_messages = λ text. ok (insert 7 ∷ insert 8 ∷ insert 7 ∷ []);
  parse_message = λ text. ok (insert 7);
  to_vec = λ m. ok m.raw_data;
  delivery = λ p. ok tt;
  debug = λ e. "no schema";
}

abbrev message : CommunicationMessage
message = record { payload = ok "[]"; key = ok "order"; ack = ok tt }

abbrev idle : Router (Option (ℕ × String))
idle = record { cache = none; published = []; calls = 0; acknowledged = 0 }

idle-IsCoherent : IsCoherent single single_laws (source world) none
idle-IsCoherent j v h = cc

handle_message-expected_example :
    (cache : Option (ℕ × String)) × (handle_message single world message "errors" idle
      ≡ (ok tt, handled single single_laws world (λ p. refl) message "errors" idle cache))
    × IsCoherent single single_laws (source world) cache
handle_message-expected_example =
    handle_message-expected single single_laws world (λ p. refl) message "errors" idle
      idle-IsCoherent refl

handle_message_acknowledged_example :
    (handle_message single world message "errors" idle).1.acknowledged
    ≡ count_after single world (handle_message single world message "errors" idle).0 0
handle_message_acknowledged_example = handle_message_acknowledged single world message "errors" idle
