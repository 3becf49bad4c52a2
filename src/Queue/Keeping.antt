-- ===== src/Queue/Keeping.antt =====
-- Which invariants the operations of the queue keep: those that a new row, or the update of the
-- operation, keeps.
use docker_mass_deployment.Base.{ℕ, String, Bool, Option, none, some}
use docker_mass_deployment.Json.{Json}
use docker_mass_deployment.Outside.{Outside, TaskFrame, Payload, enc, plain}
use docker_mass_deployment.Secrets.{encrypt_secret}
use docker_mass_deployment.Store.Rows.{TaskState}
use docker_mass_deployment.Store.World.{Db}
use docker_mass_deployment.Store.Keeps.{Keeps, keeping, modify-Keeps, or_throw-Keeps, pure-Keeps}
use docker_mass_deployment.Queue.{
  queued_row, insert_task, mark_rows, receive_rows, bump_rows, queued_job, enqueue_task,
  decode_frame, decode_job, claim_task, ack_task, retry_task, mark_task_state, mark_task_received,
  bump_attempts,
}

module _ {Q : Type 0} {P : Db → Type 0} (out : Outside Q) where
  pub encrypt_secret-Keeps : (s : String) → Keeps P (encrypt_secret out s)
  unfolding encrypt_secret
  encrypt_secret-Keeps s = search keeping depth 8

  queued_job-Keeps : (node : String) (p : Payload) → Keeps P (queued_job out node p)
  unfolding queued_job
  queued_job-Keeps node p = search keeping

  pub enqueue_task-Keeps :
      (node action : String) (params : Json) (by : Option String)
      → ((n : String) (f : TaskFrame) (j : ℕ) (d : Db) → P d → P (insert_task (queued_row n f j) d))
      → Keeps P (enqueue_task out node action params by)
  unfolding enqueue_task
  enqueue_task-Keeps node action params by keep =
      search (keeping, modify-Keeps, keep, encrypt_secret-Keeps, queued_job-Keeps) depth 16

  decode_frame-Keeps : (p : Payload) → Keeps P (decode_frame out p)
  unfolding decode_frame
  decode_frame-Keeps (enc sealed) = or_throw-Keeps _ _
  decode_frame-Keeps (plain frame) = pure-Keeps frame

  decode_job-Keeps : (j : Option (ℕ × Payload)) → Keeps P (decode_job out j)
  unfolding decode_job
  decode_job-Keeps none = pure-Keeps none
  decode_job-Keeps (some (job, p)) = search (keeping, decode_frame-Keeps)

  pub claim_task-Keeps : (node worker : String) → Keeps P (claim_task out node worker)
  unfolding claim_task
  claim_task-Keeps node worker = search (keeping, decode_job-Keeps)

  pub ack_task-Keeps :
      (node : String) (job : ℕ) (worker : String) → Keeps P (ack_task out node job worker)
  unfolding ack_task
  ack_task-Keeps node job worker = search keeping

  pub retry_task-Keeps :
      (node : String) (job : ℕ) (worker e : String) → Keeps P (retry_task out node job worker e)
  unfolding retry_task
  retry_task-Keeps node job worker e = search keeping

module _ {Q : Type 0} {P : Db → Type 0} where
  pub mark_task_state-Keeps :
      (node uuid : String) (state : TaskState) (result : Option Json) (error : Option String)
      (cached : Bool)
      → ((now : ℕ) (d : Db) → P d → P (mark_rows node uuid state result error cached now d))
      → Keeps {Q = Q} P (mark_task_state node uuid state result error cached)
  unfolding mark_task_state
  mark_task_state-Keeps node uuid state result error cached keep =
      search (keeping, modify-Keeps, keep) depth 10

  pub mark_task_received-Keeps :
      (node uuid : String)
      → ((now : ℕ) (d : Db) → P d → P (receive_rows node uuid now d))
      → Keeps {Q = Q} P (mark_task_received node uuid)
  unfolding mark_task_received
  mark_task_received-Keeps node uuid keep = search (keeping, modify-Keeps, keep)

  pub bump_attempts-Keeps :
      (node uuid : String)
      → ((d : Db) → P d → P (bump_rows node uuid d))
      → Keeps {Q = Q} P (bump_attempts node uuid)
  unfolding bump_attempts
  bump_attempts-Keeps node uuid keep = search (keeping, modify-Keeps, keep)
