-- ===== src/Hub/Ingest.antt =====
-- Ingestion of the frames of an authenticated node in controller/src/lib/hub.ts.
pub mod Fields
pub mod Results
unfoldable pub use Fields.*
use Prim.Native.Char.{code}
use Prim.Native.Nat.{zero, suc}
use docker_mass_deployment.Base.{
  ℕ, ◌+◌, ◌*◌, String, Bool, true, false, not, ◌&&◌, ◌||◌, Option, none, some, List, [], ◌∷◌, ◌++◌,
  ◌⧺◌, ◌==◌, leb, ltb, str_eq, any, find?, or_else, is_some, if◌then◌else◌,
}
use docker_mass_deployment.Json.{Json, null, num, str, obj, end, member_of, str_member}
use docker_mass_deployment.Outside.{Outside}
use docker_mass_deployment.Protocol.{
  InboundFrame, hello, result, receipt, log, event, telemetry, Result, LogMsg, Event,
}
use docker_mass_deployment.Base.Int.{ltb_ℤ, sub_ℕ, pos}
use docker_mass_deployment.Alerts.{get, put, alert_task_failed, maybe_alert_on_log}
use docker_mass_deployment.Nodes.{update_node}
use docker_mass_deployment.Telemetry.{ingest_telemetry}
use docker_mass_deployment.Queue.{mark_task_state, mark_task_received, get_task}
use docker_mass_deployment.Store.Rows.{
  TaskRow, TaskState, LogRow, GpuEvent, PlacementState, MemberState, Node, LabMember, Student,
  insert_row,
}
use docker_mass_deployment.Store.World.{
  Db, Mail, World, Action, ok, pure, gets, modify, clock, throw_if, when, ◌>>=◌, ◌>>◌,
}
use docker_mass_deployment.Placements.Tables.{Placed, get_placement_by_lab_node, place_all}
use docker_mass_deployment.Placements.Credentials.{start_delivery, start_completion}
use docker_mass_deployment.Placements.Removal.{complete_student_removal}
use docker_mass_deployment.Placements.Teardown.{
  mark_placement_state_by_lab_node, mark_placement_member_state, confirm_placement_destroyed,
}

abbrev empty_object : Json
empty_object = obj end

module _ {Q : Type 0} where
  unfoldable pub store_capabilities : String → Option Json → Action Q (Unit {0})
  store_capabilities node none = pure tt
  store_capabilities node (some caps) = do
    now ← clock
    modify (update_node node (set_capabilities caps now))

  unfoldable pub lab_created : Result → String → String → Action Q (Unit {0})
  lab_created f lab node =
      mark_placement_state_by_lab_node lab node
        (if f.ok then PlacementState.active else PlacementState.failed)
        (failure f.ok f.error "lab.create failed")

  unfoldable pub lab_destroyed : Result → String → String → Action Q (Unit {0})
  lab_destroyed f lab node =
      if f.ok
      then confirm_placement_destroyed lab node
      else mark_placement_state_by_lab_node lab node PlacementState.deleting
          (some (or_else f.error "lab.destroy failed"))

  unfoldable pub log_result : Result → Option String → Action Q (Unit {0})
  log_result f none = pure tt
  log_result f (some text) = do now ← clock; modify (insert_log (result_log f text now))

  unfoldable pub handle_log : String → LogMsg → Action Q (Unit {0})
  handle_log node f = do
    now ← clock
    modify (
        insert_log (record {
          id = 0;
          ts = or_else f.ts now;
          node = some node;
          level = or_else f.level "INFO";
          source = bounded_str f.source 32;
          lab = bounded_str f.lab 40;
          user = bounded_str f.user 32;
          task_id = bounded_str f.task_id 64;
          msg = or_else (clamp_text f.msg 2000) "";
          detail = clamp_text f.detail 8000;
        }))
    maybe_alert_on_log node (or_else f.level "INFO") f.source (or_else f.msg "") f.detail

module _ {Q : Type 0} (out : Outside Q) where
  -- The mails of a provisioned account go out after this, when the mail server answers.
  abbrev deliver : Bool → String → String → String → Action Q (Unit {0})
  deliver false lab node username = pure tt
  deliver true lab node username = do
    start_delivery out lab node username
    start_completion out lab node
    pure tt

  unfoldable pub student_added : Result → String → String → String → Action Q (Unit {0})
  student_added f lab node username = do
    mark_placement_member_state lab node username
        (if f.ok then MemberState.active else MemberState.failed)
        (failure f.ok f.error "student.add failed")
    deliver f.ok lab node username

  abbrev with_member : Result → String → String → Option String → TaskRow → Action Q (Unit {0})
  with_member f node lab none t = pure tt
  with_member f node lab (some username) t =
      if str_eq t.action "student.add"
      then student_added f lab node username
      else if str_eq t.action "student.remove" && f.ok
      then complete_student_removal out f.id
      else pure tt

  -- The actions whose handlers look the lab up throw on a name that cannot be bound.
  abbrev pub with_unbound : Result → Option String → TaskRow → Action Q (Unit {0})
  with_unbound f username t = do
    throw_if
        (str_eq t.action "lab.create"
          || str_eq t.action "lab.destroy"
          || (is_some username && str_eq t.action "student.add"))
        "SQLite3 can only bind numbers, strings, bigints, buffers, and null"
    when (is_some username && str_eq t.action "student.remove" && f.ok)
        (complete_student_removal out f.id)

  abbrev pub with_named : Result → String → Option String → TaskRow → Action Q (Unit {0})
  with_named f node none t = with_unbound f (truthy (str_member "username" t.params)) t
  with_named f node (some lab) t =
      if str_eq t.action "lab.create"
      then lab_created f lab node
      else if str_eq t.action "lab.destroy"
      then lab_destroyed f lab node
      else with_member f node lab (truthy (str_member "username" t.params)) t

  abbrev with_lab : Result → String → Option Json → TaskRow → Action Q (Unit {0})
  with_lab f node none t = pure tt
  with_lab f node (some lab) t = with_named f node (bound_text lab) t

  -- What a result does to the placements, by the action of its task.
  unfoldable pub apply_result : String → Result → TaskRow → Action Q (Unit {0})
  apply_result node f t =
      if f.ok && (str_eq t.action "node.check" && is_some (truthy_json f.result))
      then store_capabilities node f.result
      else if f.ok && (str_eq t.action "node.repair" && is_some (health_of f.result))
      then store_capabilities node (health_of f.result)
      else with_lab f node (truthy_json (result_lab f.result t.params)) t

  abbrev alert_failure : Result → TaskRow → Action Q (Unit {0})
  alert_failure f t =
      when (not f.ok) (alert_task_failed t.node t.action (or_else f.error "unknown error"))

  abbrev with_task : String → Result → Option TaskRow → Action Q (Unit {0})
  with_task node f none = pure tt
  with_task node f (some t) = alert_failure f t >> apply_result node f t

  unfoldable pub accept_result : String → Result → Action Q (Unit {0})
  accept_result node f = do t ← get_task f.id; with_task node f t; log_result f (truthy f.logs)

  -- A result for a task of another node, and a second result, match no row and are dropped.
  unfoldable pub handle_result : String → Result → Action Q (Unit {0})
  handle_result node f = do
    changed ←
        mark_task_state node f.id (task_state f.ok) f.result (unless f.ok f.error)
          (or_else f.cached false)
    when changed (accept_result node f)

  unfoldable pub handle_event : String → Event → Action Q (Unit {0})
  handle_event node f =
      if str_eq f.kind "gpu"
      then (do
        now ← clock
        e ← gets (gpu_event node (or_else f.payload null) f.ts now)
        modify (insert_gpu_event e)
        email_gpu_event e)
      else pure tt

  -- `ingestFrame`; a hello is handled before.
  unfoldable pub ingest_frame : String → InboundFrame → Action Q (Unit {0})
  ingest_frame node (hello f) = pure tt
  ingest_frame node (result f) = handle_result node f
  ingest_frame node (receipt id) = mark_task_received node id
  ingest_frame node (log f) = handle_log node f
  ingest_frame node (event f) = handle_event node f
  ingest_frame node (telemetry payload) = ingest_telemetry node (or_else payload empty_object)
