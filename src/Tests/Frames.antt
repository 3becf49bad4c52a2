-- ===== src/Tests/Frames.antt =====
-- The theorems on sockets, frames and the queue at the campus.
use docker_mass_deployment.Base.{◌≡◌, refl, true, false, none, some, [], ◌∷◌}
use docker_mass_deployment.Nodes.{node_still_authorized}
use docker_mass_deployment.Protocol.{Hello, InboundFrame, result}
use docker_mass_deployment.Placements.Tables.{find_node_by_name}
use docker_mass_deployment.Queue.{
  mark_task_state, mark_rows, bump_attempts, bump_rows, claim_task, decode_frame, decode_job,
  ack_task,
}
use docker_mass_deployment.Queue.Log.{Evolves}
use docker_mass_deployment.Queue.Marking.{mark_task_state_once}
use docker_mass_deployment.Store.Rows.{TaskState}
use docker_mass_deployment.Store.World.{ok, running}
use docker_mass_deployment.Hub.Session.{Hub, is_open, connection, on_close}
use docker_mass_deployment.Hub.Session.Closing.{Gone, on_close-Gone}
use docker_mass_deployment.Hub.Drain.{drain_node, drain, sent_task}
use docker_mass_deployment.Hub.Drain.Batch.{Fed, drain_node-Fed}
use docker_mass_deployment.Hub.Ingest.{ingest_frame}
use docker_mass_deployment.Hub.Ingest.Results.Isolation.{ingest_frame-Evolves}
use docker_mass_deployment.Tests.{toy, campus, frame_of, joined_hub, stale_socket}

-- `lake` reports that a task of `pond` failed.
abbrev forged : InboundFrame
forged =
    result (record {
      id = "t1";
      ok = false;
      result = none;
      error = some "no";
      logs = none;
      cached = none;
    })

ingest_frame-Evolves_example :
    Evolves "lake" campus.db.task_log (ingest_frame toy "lake" forged campus).1.db.task_log
ingest_frame-Evolves_example = ingest_frame-Evolves toy "lake" forged campus

mark_task_state_once_example :
    let w' = (mark_task_state "lake" "t2" TaskState.ok none none false campus).1 in
    mark_task_state "lake" "t2" TaskState.failed none (some "late") false w' ≡ (ok false, w')
mark_task_state_once_example =
    mark_task_state_once "lake" "t2" TaskState.ok TaskState.failed none none none (some "late")
      false false campus refl

abbrev greeting : Hello
greeting = record { v = some 2; node = "lake"; token = "token"; capabilities = none }

abbrev empty_hub : Hub
empty_hub = record {
  connections = [];
  pending_offline_alerts = [];
  open_sockets = 4 ∷ [];
  closed = [];
}

-- The socket 3 closes after the socket 4 took over.
on_close-Gone_example : Gone "lake" joined_hub (on_close stale_socket joined_hub campus)
on_close-Gone_example = on_close-Gone stale_socket "lake" joined_hub campus refl

drained :
    (drain_node toy (λ f. true) "lake" 4 joined_hub campus).0 ≡ ok (frame_of "t2" ∷ [], joined_hub)
unfolding drain_node drain sent_task is_open connection node_still_authorized find_node_by_name
    claim_task decode_job decode_frame ack_task mark_task_state mark_rows bump_attempts bump_rows
    running
drained = refl

drain_node-Fed_example : Fed "lake" 4 joined_hub campus.db (frame_of "t2" ∷ [])
drain_node-Fed_example =
    drain_node-Fed toy (λ f. true) "lake" 4 joined_hub campus (frame_of "t2" ∷ [], joined_hub)
      drained
