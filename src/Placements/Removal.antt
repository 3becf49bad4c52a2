-- ===== src/Placements/Removal.antt =====
-- `completeStudentRemoval` of controller/src/lib/placements.ts: cold storage is cleaned up once
-- every container has removed the account.
use docker_mass_deployment.Base.{
  String, Bool, true, false, not, ◌&&◌, Option, none, some, List, [], ◌∷◌, str_eq, any, all, filter,
  find?, if◌then◌else◌, opt_str_is,
}
use docker_mass_deployment.Json.{str, obj, end, field, str_member, strs_member}
use docker_mass_deployment.Outside.{Outside}
use docker_mass_deployment.Queue.{enqueue_task}
use docker_mass_deployment.Store.Rows.{TaskRow, TaskState}
use docker_mass_deployment.Store.World.{Db, Action, pure, gets, for_each, ◌>>=◌, ◌>>◌}

abbrev pub is_ok : TaskState → Bool
is_ok TaskState.ok = true
is_ok _ = false

-- `json_extract(params, '$.removal_id') = ?`
abbrev pub is_of_removal : String → String → TaskRow → Bool
is_of_removal action removal r =
    str_eq r.action action && opt_str_is (str_member "removal_id" r.params) removal

-- The accounts of a removal, and whether all of them are gone.
unfoldable pub all_removed : String → Db → Bool
all_removed removal d =
    let removals = filter (is_of_removal "student.remove" removal) d.task_log in
    any (λ r. true) removals && all (λ r. is_ok r.state) removals

abbrev pub is_cleanup_of : String → String → TaskRow → Bool
is_cleanup_of node removal r = str_eq r.node node && is_of_removal "student.delete_cold" removal r

unfoldable pub has_cleanup : String → String → Db → Bool
has_cleanup node removal d = any (is_cleanup_of node removal) d.task_log

-- `new Set(nodes)`: the first of equal names stays.
unfoldable pub distinct_names : List String → List String
distinct_names [] = []
distinct_names (s ∷ ss) = s ∷ filter (λ t. not (str_eq t s)) (distinct_names ss)

pub record RemovalTask : Type 0 where
  pub lab : String
  pub username : String
  pub removal_id : String
  pub cold_cleanup_nodes : List String
  pub requested_by : Option String

-- A missing field, and an empty one, stops the cleanup.
abbrev filled : Option String → Option String
filled none = none
filled (some s) = if str_eq s "" then none else some s

abbrev removal_of_fields :
    Option String → Option String → Option String → TaskRow → Option RemovalTask
removal_of_fields (some id) (some lab) (some username) r = some (record {
  lab = lab;
  username = username;
  removal_id = id;
  cold_cleanup_nodes = strs_member "cold_cleanup_nodes" r.params;
  requested_by = r.requested_by;
})
removal_of_fields _ _ _ r = none

unfoldable pub removal_of_row : Option TaskRow → Option RemovalTask
unfolding str_member strs_member
removal_of_row none = none
removal_of_row (some r) =
    removal_of_fields (filled (str_member "removal_id" r.params))
      (filled (str_member "lab" r.params)) (filled (str_member "username" r.params)) r

unfoldable pub finished_removal : String → Db → Option RemovalTask
unfolding removal_of_row
finished_removal uuid d = removal_of_row (
    find? (λ r. str_eq r.task_uuid uuid && str_eq r.action "student.remove" && is_ok r.state)
      d.task_log)

module _ {Q : Type 0} (out : Outside Q) where
  unfoldable pub enqueue_cleanup : RemovalTask → String → Action Q (Unit {0})
  enqueue_cleanup t node = do
    enqueue_task out node "student.delete_cold"
        (obj (
          field "lab" (str t.lab)
            (field "username" (str t.username) (field "removal_id" (str t.removal_id) end))))
        t.requested_by
    pure tt

  -- A node that has a cleanup of this removal gets no second one.
  unfoldable pub clean_up : RemovalTask → String → Action Q (Unit {0})
  clean_up t node = do
    exists ← gets (has_cleanup node t.removal_id)
    if exists then pure tt else enqueue_cleanup t node

  unfoldable pub clean_all : Option RemovalTask → Action Q (Unit {0})
  clean_all none = pure tt
  clean_all (some t) = do
    ready ← gets (all_removed t.removal_id)
    if ready then for_each (distinct_names t.cold_cleanup_nodes) (clean_up t) else pure tt

  unfoldable pub complete_student_removal : String → Action Q (Unit {0})
  complete_student_removal uuid = do t ← gets (finished_removal uuid); clean_all t
