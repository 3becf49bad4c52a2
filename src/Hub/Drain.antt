-- ===== src/Hub/Drain.antt =====
-- `drainNode` of controller/src/lib/hub.ts: the tick of a connection's consumer. A frame that goes
-- out is listed with its socket; whether `send` throws is a parameter.
pub mod Batch
use docker_mass_deployment.Base.{
  ℕ, zero, suc, ◌+◌, ◌≤◌, String, Bool, true, false, not, ◌&&◌, Option, none, some, List, [], ◌∷◌,
  ◌++◌, ◌==◌, ◌⧺◌, if◌then◌else◌,
}
use docker_mass_deployment.Nodes.{node_still_authorized}
use docker_mass_deployment.Outside.{Outside, TaskFrame}
use docker_mass_deployment.Queue.{claim_task, ack_task, retry_task, mark_task_state, bump_attempts}
use docker_mass_deployment.Store.Rows.{TaskState}
use docker_mass_deployment.Store.World.{Action, pure, gets, when, catching, ◌>>=◌, ◌>>◌}
use docker_mass_deployment.Hub.Session.{Conn, Hub, is_open, close, connection, deregister_node}

abbrev worker : String → String
worker node = "controller-hub-" ⧺ node

module _ {Q : Type 0} (out : Outside Q) (sends : TaskFrame → Bool) where
  -- What follows a `send` that has not thrown; the result says whether all of it went through.
  unfoldable pub sent_task : String → ℕ → TaskFrame → Action Q Bool
  sent_task node job f =
      catching
        (ack_task out node job (worker node)
          >> mark_task_state node f.id TaskState.sent none none false
          >> bump_attempts node f.id
          >> pure true)
        (pure false)

  abbrev give_up : String → ℕ → List TaskFrame → Action Q (List TaskFrame)
  give_up node job out_frames = do
    retry_task out node job (worker node) "send failed"
    pure out_frames

  abbrev after_send :
      (List TaskFrame → Action Q (List TaskFrame))
      → String
      → ℕ
      → List TaskFrame
      → Bool
      → Action Q (List TaskFrame)
  after_send next node job done went = if went then next done else give_up node job done

  abbrev drain_claimed :
      (List TaskFrame → Action Q (List TaskFrame))
      → String
      → List TaskFrame
      → Option (ℕ × TaskFrame)
      → Action Q (List TaskFrame)
  drain_claimed next node done none = pure done
  drain_claimed next node done (some (job, f)) =
      if sends f
      then sent_task node job f >>= after_send next node job (done ++ f ∷ [])
      else give_up node job done

  -- At most `rounds` tasks; the frames that went out so far are in `done`.
  unfoldable pub drain : ℕ → String → List TaskFrame → Action Q (List TaskFrame)
  drain zero node done = pure done
  drain (suc rounds) node done =
      claim_task out node (worker node) >>= drain_claimed (drain rounds node) node done

  abbrev revoked : String → ℕ → Hub → Action Q (List TaskFrame × Hub)
  revoked node s h = do h' ← deregister_node node (close s 4001 h); pure ([], h')

  abbrev fed : String → Hub → Action Q (List TaskFrame × Hub)
  fed node h = do frames ← drain 20 node []; pure (frames, h)

  abbrev drain_checked : String → ℕ → Hub → Bool → Action Q (List TaskFrame × Hub)
  drain_checked node s h true = fed node h
  drain_checked node s h false = revoked node s h

  abbrev drain_conn : String → ℕ → Hub → Option Conn → Action Q (List TaskFrame × Hub)
  drain_conn node s h none = pure ([], h)
  drain_conn node s h (some c) =
      if c.socket == s
      then gets (node_still_authorized node c.token_hash) >>= drain_checked node s h
      else pure ([], h)

  -- Only an open socket that is the node's connection is fed.
  unfoldable pub drain_node : String → ℕ → Hub → Action Q (List TaskFrame × Hub)
  drain_node node s h =
      if is_open s h then drain_conn node s h (connection node h) else pure ([], h)
