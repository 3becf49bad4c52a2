-- ===== src/Hub/Ingest/Results/Isolation.antt =====
-- What a node can reach through the frames it sends (the frame handlers of
-- `controller/src/lib/hub.ts`).
use docker_mass_deployment.Telemetry.Closed.{Measured}
use docker_mass_deployment.Telemetry.Quota.{insert_quota_alert, insert_student_quota_alert}
use docker_mass_deployment.Telemetry.Storage.{insert_sample}
use docker_mass_deployment.Telemetry.Snapshots.{set_snapshot}
use docker_mass_deployment.Placements.Tables.{update_placement}
use docker_mass_deployment.Base.{String, List}
use docker_mass_deployment.Outside.{Outside}
use docker_mass_deployment.Protocol.{InboundFrame}
use docker_mass_deployment.Nodes.{update_node}
use docker_mass_deployment.Queue.Log.{
  Since, Evolves, Evolves-refl, mark_rows-Since, receive_rows-Since,
}
use docker_mass_deployment.Store.Rows.{TaskRow}
use docker_mass_deployment.Store.World.{World}
use docker_mass_deployment.Placements.Invariant.{Since-Closed}
use docker_mass_deployment.Hub.Ingest.{insert_log, insert_gpu_event, ingest_frame}
use docker_mass_deployment.Hub.Ingest.Results.{Reported, ingest_frame-Keeps}

Since-Measured : (n : String) (xs : List TaskRow) → Measured n (Since n xs)
unfolding update_node insert_log update_placement insert_sample insert_quota_alert
    insert_student_quota_alert set_snapshot
Since-Measured n xs = record {
  node_row = λ f k d h. h;
  log_row = λ row d h. h;
  sample = λ p u student now d k h. h;
  quota_alert = λ p a d k e r h. h;
  student_alert = λ p a d k e r h. h;
  scan = λ p at d k h. h;
  snapshot = λ now ps rows d e h. h;
}

Since-Reported : (n : String) (xs : List TaskRow) → Reported n (Since n xs)
unfolding update_node insert_log insert_gpu_event
Since-Reported n xs = record {
  closed = Since-Closed n xs;
  mark = λ uuid st r e k now d. mark_rows-Since n xs uuid st r e k now d;
  receive = λ uuid now d. receive_rows-Since n xs uuid now d;
  node_row = λ name f d h. h;
  log_row = λ row d h. h;
  gpu_row = λ e d h. h;
  measured = Since-Measured n xs;
}

-- Whatever frame the node `n` sends, telemetry included, the task log afterwards is the log before,
-- row for row and in its order, with new rows only behind it: every row is still the same task with
-- the same action and parameters; a row of another node is unchanged; and a row that was finished
-- keeps its state, result and error.
pub ingest_frame-Evolves :
    {Q : Type 0} (out : Outside Q) (n : String) (f : InboundFrame) (w : World Q)
    → Evolves n w.db.task_log (ingest_frame out n f w).1.db.task_log
ingest_frame-Evolves out n f w =
    (ingest_frame-Keeps (Since-Reported n w.db.task_log) out f).at w (Evolves-refl n w.db.task_log)
