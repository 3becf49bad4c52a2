-- ===== src/Hub/Ingest/Results.antt =====
-- What the frames of a node can and cannot change: every handler keeps the invariants that the
-- statements it runs keep.
pub mod Isolation
use docker_mass_deployment.Base.{
  ℕ, String, ◌≡◌, refl, Bool, true, false, Option, none, some, List, arith, ltb, or_else,
  Bool-cases, inl, inr,
}
use docker_mass_deployment.Json.{Json}
use docker_mass_deployment.Outside.{Outside}
use docker_mass_deployment.Protocol.{
  InboundFrame, hello, result, receipt, log, event, telemetry, Result, LogMsg, Event,
}
use docker_mass_deployment.Alerts.{
  get, level_of, alert_with, alert_admins, alert_task_failed, maybe_alert_on_log,
}
use docker_mass_deployment.Alerts.Database.{alert_admins-db}
use docker_mass_deployment.Nodes.{update_node}
use docker_mass_deployment.Queue.{
  mark_rows, receive_rows, mark_task_state, mark_task_received, get_task,
}
use docker_mass_deployment.Queue.Keeping.{mark_task_state-Keeps, mark_task_received-Keeps}
use docker_mass_deployment.Store.Rows.{TaskRow, TaskState, LogRow, GpuEvent, Node}
use docker_mass_deployment.Store.World.{Db, Action, World, KeyState}
use docker_mass_deployment.Store.Keeps.{
  Keeps, keeping, modify-Keeps, when-Keeps, pure-Keeps, gets-Keeps, if-Keeps, >>=-Keeps, >>-Keeps,
}
use docker_mass_deployment.Placements.Closed.{Closed, IsKeyed, update_placement-Keeps}
use docker_mass_deployment.Placements.Tables.{Placed}
use docker_mass_deployment.Placements.Closed.Operations.{
  mark_placement_state_by_lab_node-Keeps, mark_placement_member_state-Keeps,
  confirm_placement_destroyed-Keeps, complete_student_removal-Keeps,
}
use docker_mass_deployment.Placements.Credentials.{
  start_delivery, start_completion, Delivery, delivery_of, sent_delivery, claimed, complete_if,
  completion_for, all_active,
}
use docker_mass_deployment.Telemetry.Closed.{Measured}
use docker_mass_deployment.Telemetry.Operations.{ingest_telemetry-Keeps}
use docker_mass_deployment.Hub.Ingest.{
  insert_log, insert_gpu_event, mail_gpu_event, deliver, with_member, with_unbound, with_named,
  bound_text, with_lab, with_task, email_gpu_event, store_capabilities, lab_created, lab_destroyed,
  log_result, handle_log, student_added, apply_result, accept_result, handle_result, handle_event,
  ingest_frame,
}

claimed-IsKeyed : IsKeyed claimed
claimed-IsKeyed = record { id = λ p. refl; lab = λ p. refl; node = λ p. refl; port = λ p. refl }

-- The statements that frames of the node `n` run.
pub record Reported (n : String) (P : Db → Type 0) : Type 0 where
  pub closed : Closed P
  pub mark :
      (uuid : String) (state : TaskState) (r : Option Json) (e : Option String) (cached : Bool)
      (now : ℕ) (d : Db)
      → P d
      → P (mark_rows n uuid state r e cached now d)
  pub receive : (uuid : String) (now : ℕ) (d : Db) → P d → P (receive_rows n uuid now d)
  pub node_row : (name : String) (f : Node → Node) (d : Db) → P d → P (update_node name f d)
  pub log_row : (row : LogRow) (d : Db) → P d → P (insert_log row d)
  pub gpu_row : (e : GpuEvent) (d : Db) → P d → P (insert_gpu_event e d)
  pub measured : Measured n P

-- Alerts and mails leave the database alone.
maybe_alert_on_log-db :
    {Q : Type 0} (node level : String) (source : Option String) (msg : String)
    (detail : Option String) (w : World Q)
    → (maybe_alert_on_log node level source msg detail w).1.db ≡ w.db
unfolding maybe_alert_on_log
maybe_alert_on_log-db node level source msg detail w =
    elim (Bool-cases
      (ltb (or_else (level_of level) 0) (or_else (level_of w.db.settings.alert_level) 40))) [
        | inl e ↦ rw e
        | inr e ↦ rw e (alert_admins-db _ _ _ w)
      ]

mail_gpu_event-db :
    {Q : Type 0} (e : GpuEvent) (username to : String) (w : World Q)
    → (mail_gpu_event e username to w).db ≡ w.db
unfolding mail_gpu_event
mail_gpu_event-db e username to w = ground arith

email_gpu_event-db : {Q : Type 0} (e : GpuEvent) (w : World Q) → (email_gpu_event e w).1.db ≡ w.db
unfolding email_gpu_event
email_gpu_event-db e w = grind (arith, mail_gpu_event-db)

module _ {Q : Type 0} {P : Db → Type 0} where
  alert_task_failed-Keeps :
      (node action error : String) → Keeps {Q = Q} P (alert_task_failed node action error)
  unfolding alert_task_failed
  alert_task_failed-Keeps node action error = record { at = λ w h. rw (alert_admins-db _ _ _ w) h }

  maybe_alert_on_log-Keeps :
      (node level : String) (source : Option String) (msg : String) (detail : Option String)
      → Keeps {Q = Q} P (maybe_alert_on_log node level source msg detail)
  maybe_alert_on_log-Keeps node level source msg detail = record {
    at = λ w h. rw (maybe_alert_on_log-db node level source msg detail w) h;
  }

  email_gpu_event-Keeps : (e : GpuEvent) → Keeps {Q = Q} P (email_gpu_event e)
  email_gpu_event-Keeps e = record { at = λ w h. rw (email_gpu_event-db e w) h }

  get_task-Keeps : (uuid : String) → Keeps {Q = Q} P (get_task uuid)
  unfolding get_task
  get_task-Keeps uuid = search keeping

module _ {Q : Type 0} {n : String} {P : Db → Type 0} (c : Reported n P) (out : Outside Q) where
  store_capabilities-Keeps :
      (node : String) (caps : Option Json) → Keeps {Q = Q} P (store_capabilities node caps)
  unfolding store_capabilities
  store_capabilities-Keeps node none = pure-Keeps tt
  store_capabilities-Keeps node (some caps) = search (keeping, modify-Keeps, c.node_row)

  lab_created-Keeps : (f : Result) (lab node : String) → Keeps {Q = Q} P (lab_created f lab node)
  unfolding lab_created
  lab_created-Keeps f lab node = mark_placement_state_by_lab_node-Keeps c.closed _ _ _ _

  lab_destroyed-Keeps :
      (f : Result) (lab node : String) → Keeps {Q = Q} P (lab_destroyed f lab node)
  unfolding lab_destroyed
  lab_destroyed-Keeps f lab node = search (
    keeping,
    confirm_placement_destroyed-Keeps c.closed,
    mark_placement_state_by_lab_node-Keeps c.closed,
  )

  log_result-Keeps : (f : Result) (text : Option String) → Keeps {Q = Q} P (log_result f text)
  unfolding log_result
  log_result-Keeps f none = pure-Keeps tt
  log_result-Keeps f (some text) = search (keeping, modify-Keeps, c.log_row)

  handle_log-Keeps : (node : String) (f : LogMsg) → Keeps {Q = Q} P (handle_log node f)
  unfolding handle_log
  handle_log-Keeps node f =
      search (keeping, modify-Keeps, c.log_row, maybe_alert_on_log-Keeps) depth 8

  handle_event-Keeps : (node : String) (f : Event) → Keeps {Q = Q} P (handle_event out node f)
  unfolding handle_event
  handle_event-Keeps node f =
      search (keeping, modify-Keeps, c.gpu_row, email_gpu_event-Keeps) depth 10

  sent_delivery-Keeps : (x : Option Delivery) → Keeps {Q = Q} P (sent_delivery out x)
  sent_delivery-Keeps none = pure-Keeps none
  sent_delivery-Keeps (some x) = search keeping

  start_delivery-Keeps :
      (lab node username : String) → Keeps P (start_delivery out lab node username)
  unfolding start_delivery
  start_delivery-Keeps lab node username =
      >>=-Keeps _ _ (gets-Keeps _) (λ p. sent_delivery-Keeps (delivery_of out p))

  complete_if-Keeps :
      (b : Bool) (p : Placed) (email name : String) (users : List String)
      → Keeps P (complete_if out b p email name users)
  complete_if-Keeps false p email name users = pure-Keeps none
  complete_if-Keeps true p email name users =
      search (keeping, update_placement-Keeps c.closed, claimed-IsKeyed) depth 8

  completion_for-Keeps :
      (due : Option (Placed × String × String)) → Keeps P (completion_for out due)
  completion_for-Keeps none = pure-Keeps none
  completion_for-Keeps (some (p, email, name)) =
      >>=-Keeps _ _ (gets-Keeps _) (λ ms. complete_if-Keeps (all_active ms) p email name _)

  start_completion-Keeps : (lab node : String) → Keeps P (start_completion out lab node)
  unfolding start_completion
  start_completion-Keeps lab node = >>=-Keeps _ _ (gets-Keeps _) completion_for-Keeps

  deliver-Keeps :
      (b : Bool) (lab node username : String) → Keeps P (deliver out b lab node username)
  deliver-Keeps false lab node username = pure-Keeps tt
  deliver-Keeps true lab node username =
      search (keeping, start_delivery-Keeps, start_completion-Keeps) depth 8

  student_added-Keeps :
      (f : Result) (lab node username : String) → Keeps P (student_added out f lab node username)
  unfolding student_added
  student_added-Keeps f lab node username =
      >>-Keeps _ _ (mark_placement_member_state-Keeps c.closed _ _ _ _ _)
        (deliver-Keeps f.ok lab node username)

  with_member-Keeps :
      (f : Result) (node lab : String) (username : Option String) (t : TaskRow)
      → Keeps P (with_member out f node lab username t)
  with_member-Keeps f node lab none t = pure-Keeps tt
  with_member-Keeps f node lab (some username) t =
      search (keeping, student_added-Keeps, complete_student_removal-Keeps c.closed out)

  with_unbound-Keeps :
      (f : Result) (username : Option String) (t : TaskRow)
      → Keeps P (with_unbound out f username t)
  with_unbound-Keeps f username t = search (keeping, complete_student_removal-Keeps c.closed out)

  with_named-Keeps :
      (f : Result) (node : String) (lab : Option String) (t : TaskRow)
      → Keeps P (with_named out f node lab t)
  with_named-Keeps f node none t = with_unbound-Keeps f _ t
  with_named-Keeps f node (some lab) t =
      if-Keeps _ _ _ (lab_created-Keeps f lab node)
        (if-Keeps _ _ _ (lab_destroyed-Keeps f lab node) (with_member-Keeps f node lab _ t))

  with_lab-Keeps :
      (f : Result) (node : String) (lab : Option Json) (t : TaskRow)
      → Keeps P (with_lab out f node lab t)
  with_lab-Keeps f node none t = pure-Keeps tt
  with_lab-Keeps f node (some lab) t = with_named-Keeps f node (bound_text lab) t

  apply_result-Keeps :
      (node : String) (f : Result) (t : TaskRow) → Keeps P (apply_result out node f t)
  unfolding apply_result
  apply_result-Keeps node f t =
      search (keeping, if-Keeps, store_capabilities-Keeps, with_lab-Keeps) depth 8

  with_task-Keeps :
      (node : String) (f : Result) (t : Option TaskRow) → Keeps P (with_task out node f t)
  with_task-Keeps node f none = pure-Keeps tt
  with_task-Keeps node f (some t) =
      >>-Keeps _ _ (when-Keeps _ _ (alert_task_failed-Keeps _ _ _)) (apply_result-Keeps node f t)

  accept_result-Keeps : (node : String) (f : Result) → Keeps P (accept_result out node f)
  unfolding accept_result
  accept_result-Keeps node f =
      >>=-Keeps _ _ (get_task-Keeps f.id)
        (λ t. >>-Keeps _ _ (with_task-Keeps node f t) (log_result-Keeps f _))

  handle_result-Keeps : (f : Result) → Keeps P (handle_result out n f)
  unfolding handle_result
  handle_result-Keeps f =
      >>=-Keeps _ _ (mark_task_state-Keeps n f.id _ _ _ _ (c.mark f.id _ _ _ _))
        (λ changed. when-Keeps changed _ (accept_result-Keeps n f))

  pub ingest_frame-Keeps : (f : InboundFrame) → Keeps P (ingest_frame out n f)
  unfolding ingest_frame
  ingest_frame-Keeps (hello f) = pure-Keeps tt
  ingest_frame-Keeps (result f) = handle_result-Keeps f
  ingest_frame-Keeps (receipt id) = mark_task_received-Keeps n id (c.receive id)
  ingest_frame-Keeps (log f) = handle_log-Keeps n f
  ingest_frame-Keeps (event f) = handle_event-Keeps n f
  ingest_frame-Keeps (telemetry payload) = ingest_telemetry-Keeps c.measured _
