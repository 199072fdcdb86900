-- ===== src/CommandService/Alike.antt =====
-- The two inputs of the command service, by gRPC and by its queue, do the same with a message.
use common_data_layer.Prelude.{List, [], ◌∷◌}
use common_data_layer.Exec.{Result, ok, err}
use common_data_layer.CommandService.{World, Effect, acknowledged, ReportSender, OutputPlugin}
use common_data_layer.CommandService.Input.{Parsers}
use common_data_layer.CommandService.Input.Grpc
use common_data_layer.CommandService.Input.MessageQueue

module _ {S : Type 0} (w : World) (p : Parsers) (report_sender : ReportSender)
    (plugin : OutputPlugin S) where
  -- The acknowledgement that a task which ended so far with that result adds.
  abbrev pub acknowledgement : {E : Type 0} → Result E (Unit {0}) → List Effect
  acknowledgement (ok u) = acknowledged ∷ []
  acknowledgement (err e) = []
