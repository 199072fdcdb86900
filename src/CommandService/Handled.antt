-- ===== src/CommandService/Handled.antt =====
-- What the command service does with a message that reached it, by its queue or by gRPC.
use mathlib.Core.List.{append_assoc}
use common_data_layer.Prelude.{
  String, ◌≡◌, refl, ◌∙◌, List, some, none, [], ◌∷◌, ◌++◌, inl, inr, Option-cases,
}
use common_data_layer.Exec.{Result, ok, err, Result-cases, Fault, aborts, fails}
use common_data_layer.Messaging.{
  BorrowedInsertMessage, CommunicationMessage, OwnedInsertMessage, Publication, to_owned,
}
use common_data_layer.CommandService
use common_data_layer.CommandService.{
  World, Effect, handed, published, acknowledged, Service, ReportSender, OutputPlugin,
  publish_message, report, with_message_body, display, full, Resolution, ReportBody,
  failed_to_produce_error_message, failed_to_report,
}
use common_data_layer.CommandService.Input.{
  InputError, Parsers, communication_error, failed_to_acknowledge,
}
use common_data_layer.CommandService.Input.MessageQueue

module _ {S : Type 0} (w : World) (p : Parsers) (topic output_plugin : String)
    (plugin : OutputPlugin S) where
  abbrev pub report_of : OwnedInsertMessage → Resolution → ReportBody
  report_of owned status = record {
    application = "Command Service";
    output_plugin = output_plugin;
    description = display status;
    object_id = owned.object_id;
    payload = owned.raw_data;
  }

  abbrev pub reporting : String → Publication
  reporting bytes = record { topic = topic; key = "command_service.status"; payload = bytes }

  -- The state after the plugin was handed the message, with these further effects.
  abbrev pub after : BorrowedInsertMessage → List Effect → Service S → Service S
  after msg later s = record {
    store = (plugin.handle_message msg s.store).1;
    effects = s.effects ++ handed msg ∷ later;
  }

  -- The message is read as `msg`, and its data as JSON gives `owned`.
  pub record Reads (message : CommunicationMessage) (msg : BorrowedInsertMessage)
      (owned : OwnedInsertMessage) : Type 0 where
    pub read : MessageQueue.build_message p message ≡ ok msg
    pub json : to_owned w.parse_value msg ≡ some owned

  -- The report of the plugin's resolution on the message, whatever that is, is these bytes.
  abbrev pub Encodes : BorrowedInsertMessage → OwnedInsertMessage → Service S → String → Type 0
  Encodes msg owned s bytes =
      w.to_vec (report_of owned (plugin.handle_message msg s.store).0) ≡ ok bytes

  -- How far a task comes, with its result and the state that it leaves.
  pub data Handled (message : CommunicationMessage) (s : Service S)
      : Result (Fault InputError) (Unit {0}) → Service S → Type 0 where
    unread :
        (e : InputError)
        → MessageQueue.build_message p message ≡ err e
        → Handled message s (err (fails e)) s
    not_json :
        (msg : BorrowedInsertMessage)
        → MessageQueue.build_message p message ≡ ok msg
        → to_owned w.parse_value msg ≡ none
        → Handled message s (err aborts) s
    unencoded :
        (msg : BorrowedInsertMessage) (owned : OwnedInsertMessage) (e : String)
        → Reads message msg owned
        → w.to_vec (report_of owned (plugin.handle_message msg s.store).0) ≡ err e
        → Handled message s
            (err (fails (communication_error (failed_to_produce_error_message e))))
            (after msg [] s)
    undelivered :
        (msg : BorrowedInsertMessage) (owned : OwnedInsertMessage) (bytes e : String)
        → Reads message msg owned
        → Encodes msg owned s bytes
        → w.delivery (reporting bytes) ≡ err e
        → Handled message s
            (err (fails (communication_error (failed_to_report e))))
            (after msg [] s)
    unacknowledged :
        (msg : BorrowedInsertMessage) (owned : OwnedInsertMessage) (bytes e : String)
        → Reads message msg owned
        → Encodes msg owned s bytes
        → w.delivery (reporting bytes) ≡ ok tt
        → message.ack ≡ err e
        → Handled message s
            (err (fails (failed_to_acknowledge e)))
            (after msg (published (reporting bytes) ∷ []) s)
    complete :
        (msg : BorrowedInsertMessage) (owned : OwnedInsertMessage) (bytes : String)
        → Reads message msg owned
        → Encodes msg owned s bytes
        → w.delivery (reporting bytes) ≡ ok tt
        → message.ack ≡ ok tt
        → Handled message s (ok tt) (after msg (published (reporting bytes) ∷ acknowledged ∷ []) s)

  abbrev pub handle :
      CommunicationMessage → Service S → Result (Fault InputError) (Unit {0}) × Service S
  handle = MessageQueue.handle_message w p (full topic output_plugin) plugin

  encoded-Handled :
      (message : CommunicationMessage) (msg : BorrowedInsertMessage) (owned : OwnedInsertMessage)
      (bytes : String) (s : Service S)
      → Reads message msg owned
      → Encodes msg owned s bytes
      → Handled message s (handle message s).0 (handle message s).1
  unfolding MessageQueue.handle_message CommandService.handle_message with_message_body report
      publish_message
  encoded-Handled message msg owned bytes s reads encoded =
      elim (Result-cases (w.delivery (reporting bytes))) [
        | inr (e, lost) ↦
            rw
              (
                reads.read, reads.json, encoded, lost, MessageQueue.handle_message,
                CommandService.handle_message, with_message_body, report, publish_message,
              )
              (undelivered msg owned bytes e reads encoded lost)
        | inl (u, delivered) ↦
            let ordered : (later : List Effect)
                → ((s.effects ++ handed msg ∷ []) ++ published (reporting bytes) ∷ []) ++ later
                  ≡ s.effects ++ (handed msg ∷ published (reporting bytes) ∷ later) =
              λ later.
                append_assoc (s.effects ++ handed msg ∷ []) (published (reporting bytes) ∷ []) later
                ∙ append_assoc s.effects (handed msg ∷ []) (published (reporting bytes) ∷ later) in
            elim (Result-cases message.ack) [
              | inr (e, refused) ↦
                  let run : handle message s ≡ (
                    err (fails (failed_to_acknowledge e)),
                    after msg (published (reporting bytes) ∷ []) s,
                  ) =
                    rw
                      (
                        reads.read,
                        reads.json,
                        encoded,
                        delivered,
                        refused,
                        MessageQueue.handle_message,
                        CommandService.handle_message,
                        with_message_body,
                        report,
                        publish_message,
                        append_assoc s.effects (handed msg ∷ []) (published (reporting bytes) ∷ []),
                      )
                      refl in
                  rw run (unacknowledged msg owned bytes e reads encoded delivered refused)
              | inl (v, acked) ↦
                  let run : handle message s
                      ≡ (ok tt, after msg (published (reporting bytes) ∷ acknowledged ∷ []) s) =
                    rw
                      (
                        reads.read,
                        reads.json,
                        encoded,
                        delivered,
                        acked,
                        MessageQueue.handle_message,
                        CommandService.handle_message,
                        with_message_body,
                        report,
                        publish_message,
                        ordered (acknowledged ∷ []),
                      )
                      refl in
                  rw run (complete msg owned bytes reads encoded delivered acked)
            ]
      ]

  -- With reports switched on, the task of a message hands it to the plugin, then delivers a report of
  -- the plugin's resolution, whatever it is, and then acknowledges the message, in this order and
  -- each once. A step is left out, with those after it, only where it or one before it fails, and the
  -- result is then the error of that step; a data that is not JSON aborts before the first.
  pub handle_message_reported :
      (message : CommunicationMessage) (s : Service S)
      → Handled message s (handle message s).0 (handle message s).1
  unfolding MessageQueue.handle_message CommandService.handle_message with_message_body report
  handle_message_reported message s = elim (Result-cases (MessageQueue.build_message p message)) [
    | inr (e, no_read) ↦ rw (no_read, MessageQueue.handle_message) (unread e no_read)
    | inl (msg, read) ↦ elim (Option-cases (to_owned w.parse_value msg)) [
      | inl no_json ↦
          rw
            (
              read, no_json, MessageQueue.handle_message, CommandService.handle_message,
              with_message_body,
            )
            (not_json msg read no_json)
      | inr (owned, json) ↦
          let reads : Reads message msg owned = record { read = read; json = json } in
          elim (Result-cases (w.to_vec (report_of owned (plugin.handle_message msg s.store).0))) [
            | inr (e, no_bytes) ↦
                rw
                  (
                    read, json, no_bytes, MessageQueue.handle_message,
                    CommandService.handle_message, with_message_body, report,
                  )
                  (unencoded msg owned e reads no_bytes)
            | inl (bytes, encoded) ↦ encoded-Handled message msg owned bytes s reads encoded
          ]
    ]
  ]
