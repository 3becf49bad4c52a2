-- ===== src/Queue.antt =====
-- controller/src/lib/queue.ts: the durable task queue, one honker queue per node, and its mirror
-- in the `task_log` table.
pub mod Log
pub mod Keeping
pub mod Marking
use docker_mass_deployment.Base.{
  ℕ, ◌+◌, String, Bool, true, false, not, ◌&&◌, Option, none, some, List, [], ◌∷◌, ◌++◌, ◌⧺◌,
  str_eq, any, find?, update_where, is_some,
}
use docker_mass_deployment.Json.{Json}
use docker_mass_deployment.Json.Redact.{redact_secrets}
use docker_mass_deployment.Outside.{Outside, TaskFrame, Payload, enc, plain}
use docker_mass_deployment.Secrets.{encrypt_secret, decrypt_secret}
use docker_mass_deployment.Store.Rows.{TaskRow, TaskState}
use docker_mass_deployment.Store.World.{
  Db, Action, pure, gets, or_throw, modify, clock, draw, throw_if, with_queue, ◌>>=◌, ◌>>◌,
}

abbrev pub node_queue : String → String
node_queue node = "node:" ⧺ node

abbrev pub on_tasks : (List TaskRow → List TaskRow) → Db → Db
on_tasks f d = record d { task_log = f d.task_log }

-- A finished task: its state is 'ok' or 'failed'.
abbrev pub is_final : TaskState → Bool
is_final TaskState.queued = false
is_final TaskState.sent = false
is_final TaskState.ok = true
is_final TaskState.failed = true

-- `WHERE task_uuid = ? AND node = ?`
abbrev pub is_task_of : String → String → TaskRow → Bool
is_task_of node uuid r = str_eq r.task_uuid uuid && str_eq r.node node

abbrev pub is_open_task_of : String → String → TaskRow → Bool
is_open_task_of node uuid r = is_task_of node uuid r && not (is_final r.state)

abbrev pub is_unreceived_task_of : String → String → TaskRow → Bool
is_unreceived_task_of node uuid r = is_task_of node uuid r && not (is_some r.received_at)

-- The row that `enqueueTask` inserts: its parameters are redacted.
abbrev pub queued_row : String → TaskFrame → ℕ → TaskRow
queued_row node frame job = record {
  task_uuid = frame.id;
  job_id = job;
  node = node;
  action = frame.action;
  params = redact_secrets frame.params;
  requested_by = frame.requested_by;
  state = TaskState.queued;
  result = none;
  error = none;
  received_at = none;
  attempts = 0;
  result_cached = false;
  created_at = frame.ts;
  updated_at = frame.ts;
}

unfoldable pub insert_task : TaskRow → Db → Db
insert_task row = on_tasks (λ rows. rows ++ row ∷ [])

-- The assignments of `markTaskState`.
abbrev pub marked : TaskState → Option Json → Option String → Bool → ℕ → TaskRow → TaskRow
marked state result error cached now r = record r {
  state = state;
  result = result;
  error = error;
  result_cached = cached;
  updated_at = now;
}

unfoldable pub mark_rows :
    String → String → TaskState → Option Json → Option String → Bool → ℕ → Db → Db
mark_rows node uuid state result error cached now =
    on_tasks (update_where (is_open_task_of node uuid) (marked state result error cached now))

unfoldable pub receive_rows : String → String → ℕ → Db → Db
receive_rows node uuid now =
    on_tasks
      (update_where (is_unreceived_task_of node uuid) (λ r. record r { received_at = some now }))

unfoldable pub bump_rows : String → String → Db → Db
bump_rows node uuid =
    on_tasks (update_where (is_task_of node uuid) (λ r. record r { attempts = r.attempts + 1 }))

module _ {Q : Type 0} (out : Outside Q) where
  -- What throws in the engine throws here.
  unfoldable pub queued_job : String → Payload → Action Q ℕ
  queued_job node payload = do
    job ← with_queue (out.enqueue (node_queue node) payload)
    or_throw job "the queue engine failed"

  -- The frame is queued whole and encrypted; the log gets a redacted copy.
  unfoldable pub enqueue_task : String → String → Json → Option String → Action Q TaskFrame
  enqueue_task node action params requested_by = do
    n ← draw
    now ← clock
    let frame : TaskFrame = record {
      id = out.random_uuid n;
      action = action;
      params = params;
      requested_by = requested_by;
      ts = now;
    }
    envelope ← encrypt_secret out (out.stringify frame)
    job ← queued_job node (enc envelope)
    modify (insert_task (queued_row node frame job))
    with_queue (λ q. (tt, out.notify (node_queue node) q))
    pure frame

  -- A payload that does not parse throws.
  unfoldable pub decode_frame : Payload → Action Q TaskFrame
  decode_frame (enc sealed) = or_throw (out.parse (decrypt_secret out sealed)) "Unexpected token"
  decode_frame (plain frame) = pure frame

  unfoldable pub decode_job : Option (ℕ × Payload) → Action Q (Option (ℕ × TaskFrame))
  decode_job none = pure none
  decode_job (some (job, payload)) = do frame ← decode_frame payload; pure (some (job, frame))

  unfoldable pub claim_task : String → String → Action Q (Option (ℕ × TaskFrame))
  claim_task node worker = do
    claimed ← with_queue (out.claim_one (node_queue node) worker)
    job ← or_throw claimed "the queue engine failed"
    decode_job job

  unfoldable pub ack_task : String → ℕ → String → Action Q (Unit {0})
  ack_task node job worker = do
    acked ← with_queue (out.ack_batch (node_queue node) (job ∷ []) worker)
    throw_if (not acked) "the queue engine failed"

  unfoldable pub retry_task : String → ℕ → String → String → Action Q (Unit {0})
  retry_task node job worker error =
      with_queue (λ q. (tt, out.retry (node_queue node) job worker 5 error q))

module _ {Q : Type 0} where
  unfoldable pub get_task : String → Action Q (Option TaskRow)
  get_task uuid = gets (λ d. find? (λ r. str_eq r.task_uuid uuid) d.task_log)

  -- The result says whether a row matched.
  unfoldable pub mark_task_state :
      String → String → TaskState → Option Json → Option String → Bool → Action Q Bool
  mark_task_state node uuid state result error cached = do
    now ← clock
    changed ← gets (λ d. any (is_open_task_of node uuid) d.task_log)
    modify (mark_rows node uuid state result error cached now)
    pure changed

  unfoldable pub mark_task_received : String → String → Action Q (Unit {0})
  mark_task_received node uuid = do now ← clock; modify (receive_rows node uuid now)

  unfoldable pub bump_attempts : String → String → Action Q (Unit {0})
  bump_attempts node uuid = modify (bump_rows node uuid)
