-- ===== src/Placements/Closed/Operations.antt =====
-- The operations on placements, against the closed invariants: one lemma for each operation.
use docker_mass_deployment.Base.{ℕ, String, Bool, Option, none, some, List}
use docker_mass_deployment.Outside.{Outside}
use docker_mass_deployment.Queue.Keeping.{encrypt_secret-Keeps}
use docker_mass_deployment.Store.Rows.{Student, Placement, PlacementState, Member, MemberState}
use docker_mass_deployment.Store.World.{Db}
use docker_mass_deployment.Store.Keeps.{Keeps}
use docker_mass_deployment.Placements.Tables.{Placed}
use docker_mass_deployment.Placements.Tasks.{enqueue_placement_create}
use docker_mass_deployment.Placements.Members.{
  add_member, provision_new, provision_member_on_placement, reprovision_member,
  reprovision_placement_members, remove_member_from_placement,
}
use docker_mass_deployment.Placements.Create.{
  CreatePlacementInput, add_placement, provision_student, create_placement,
}
use docker_mass_deployment.Placements.Change.{
  RecreateInput, update_placement_quota, recreate_placement, retry_placement,
}
use docker_mass_deployment.Placements.Teardown.{
  tear_down, destroy_placement, force_delete, force_delete_placement, mark_placement_state,
  mark_placed, mark_placement_state_by_lab_node, mark_member, mark_placement_member_state,
  confirm_destroyed, confirm_placement_destroyed,
}
use docker_mass_deployment.Placements.Removal.{
  RemovalTask, enqueue_cleanup, clean_up, clean_all, complete_student_removal,
}
use docker_mass_deployment.Placements.Closed.{Closed, placing}

module _ {Q : Type 0} {P : Db → Type 0} (c : Closed P) (out : Outside Q) where
  add_member-Keeps : (m : Member) → Keeps P (add_member out m)
  unfolding add_member
  add_member-Keeps m = search placing depth 8

  provision_new-Keeps :
      (p : Placed) (s : Student) (actor : Option String) → Keeps P (provision_new out p s actor)
  unfolding provision_new
  provision_new-Keeps p s actor = search (placing, encrypt_secret-Keeps, add_member-Keeps) depth 16

  pub provision_member_on_placement-Keeps :
      (p : Placed) (s : Student) (actor : Option String)
      → Keeps P (provision_member_on_placement out p s actor)
  unfolding provision_member_on_placement
  provision_member_on_placement-Keeps p s actor = search (placing, provision_new-Keeps) depth 8

  reprovision_member-Keeps :
      (p : Placed) (actor : Option String) (ms : Member × Student)
      → Keeps P (reprovision_member out p actor ms)
  unfolding reprovision_member
  reprovision_member-Keeps p actor ms = search (placing, encrypt_secret-Keeps) depth 16

  reprovision_placement_members-Keeps :
      (p : Placed) (actor : Option String) → Keeps P (reprovision_placement_members out p actor)
  unfolding reprovision_placement_members
  reprovision_placement_members-Keeps p actor = search (placing, reprovision_member-Keeps) depth 8

  pub remove_member_from_placement-Keeps :
      (p : Placed) (s : ℕ × String) (delete_data : Bool) (actor : Option String)
      (removal : Option (String × List String))
      → Keeps P (remove_member_from_placement out p s delete_data actor removal)
  unfolding remove_member_from_placement
  remove_member_from_placement-Keeps p s delete_data actor removal = search placing depth 8

  enqueue_placement_create-Keeps :
      (p : Placed) (actor : Option String) → Keeps P (enqueue_placement_create out p actor)
  unfolding enqueue_placement_create
  enqueue_placement_create-Keeps p actor = search placing

  add_placement-Keeps : (p : Placement) → Keeps P (add_placement out p)
  unfolding add_placement
  add_placement-Keeps p = search placing depth 12

  provision_student-Keeps :
      (p : Placed) (actor : Option String) (s : Student) → Keeps P (provision_student out p actor s)
  unfolding provision_student
  provision_student-Keeps p actor s = search (placing, provision_member_on_placement-Keeps) depth 8

  pub create_placement-Keeps : (input : CreatePlacementInput) → Keeps P (create_placement out input)
  unfolding create_placement
  create_placement-Keeps input =
      search (placing, add_placement-Keeps, enqueue_placement_create-Keeps, provision_student-Keeps)
        depth 30

  pub update_placement_quota-Keeps :
      (id : ℕ) (fast : Option ℕ) (cold : Option (Option ℕ)) (actor : Option String)
      → Keeps P (update_placement_quota out id fast cold actor)
  unfolding update_placement_quota
  update_placement_quota-Keeps id fast cold actor = search placing depth 30

  pub recreate_placement-Keeps :
      (id : ℕ) (input : RecreateInput) (actor : Option String)
      → Keeps P (recreate_placement out id input actor)
  unfolding recreate_placement
  recreate_placement-Keeps id input actor =
      search (placing, reprovision_placement_members-Keeps) depth 30

  pub retry_placement-Keeps :
      (id : ℕ) (actor : Option String) → Keeps P (retry_placement out id actor)
  unfolding retry_placement
  retry_placement-Keeps id actor = search (placing, enqueue_placement_create-Keeps) depth 20

  tear_down-Keeps :
      (id : ℕ) (actor : Option String) (found : Option Placed)
      → Keeps P (tear_down out id actor found)
  unfolding tear_down
  tear_down-Keeps id actor none = search placing
  tear_down-Keeps id actor (some p) = search placing depth 20

  pub destroy_placement-Keeps :
      (id : ℕ) (actor : Option String) → Keeps P (destroy_placement out id actor)
  unfolding destroy_placement
  destroy_placement-Keeps id actor = search (placing, tear_down-Keeps)

  force_delete-Keeps :
      (id : ℕ) (actor : Option String) (found : Option Placed)
      → Keeps P (force_delete out id actor found)
  unfolding force_delete
  force_delete-Keeps id actor none = search placing
  force_delete-Keeps id actor (some p) = search placing depth 20

  pub force_delete_placement-Keeps :
      (id : ℕ) (actor : Option String) → Keeps P (force_delete_placement out id actor)
  unfolding force_delete_placement
  force_delete_placement-Keeps id actor = search (placing, force_delete-Keeps)

  enqueue_cleanup-Keeps : (t : RemovalTask) (node : String) → Keeps P (enqueue_cleanup out t node)
  unfolding enqueue_cleanup
  enqueue_cleanup-Keeps t node = search placing

  clean_up-Keeps : (t : RemovalTask) (node : String) → Keeps P (clean_up out t node)
  unfolding clean_up
  clean_up-Keeps t node = search (placing, enqueue_cleanup-Keeps)

  clean_all-Keeps : (t : Option RemovalTask) → Keeps P (clean_all out t)
  unfolding clean_all
  clean_all-Keeps none = search placing
  clean_all-Keeps (some t) = search (placing, clean_up-Keeps) depth 8

  pub complete_student_removal-Keeps : (uuid : String) → Keeps P (complete_student_removal out uuid)
  unfolding complete_student_removal
  complete_student_removal-Keeps uuid = search (placing, clean_all-Keeps)

module _ {Q : Type 0} {P : Db → Type 0} (c : Closed P) where
  mark_placement_state-Keeps :
      (id : ℕ) (s : PlacementState) (e : Option String)
      → Keeps {Q = Q} P (mark_placement_state id s e)
  unfolding mark_placement_state
  mark_placement_state-Keeps id s e = search placing

  mark_placed-Keeps :
      (s : PlacementState) (e : Option String) (found : Option Placed)
      → Keeps {Q = Q} P (mark_placed s e found)
  unfolding mark_placed
  mark_placed-Keeps s e none = search placing
  mark_placed-Keeps s e (some p) = mark_placement_state-Keeps p.row.id s e

  pub mark_placement_state_by_lab_node-Keeps :
      (lab node : String) (s : PlacementState) (e : Option String)
      → Keeps {Q = Q} P (mark_placement_state_by_lab_node lab node s e)
  unfolding mark_placement_state_by_lab_node
  mark_placement_state_by_lab_node-Keeps lab node s e = search (placing, mark_placed-Keeps)

  mark_member-Keeps :
      (s : MemberState) (e : Option String) (found : Option Member)
      → Keeps {Q = Q} P (mark_member s e found)
  unfolding mark_member
  mark_member-Keeps s e none = search placing
  mark_member-Keeps s e (some m) = search placing

  pub mark_placement_member_state-Keeps :
      (lab node username : String) (s : MemberState) (e : Option String)
      → Keeps {Q = Q} P (mark_placement_member_state lab node username s e)
  unfolding mark_placement_member_state
  mark_placement_member_state-Keeps lab node username s e = search (placing, mark_member-Keeps)

  confirm_destroyed-Keeps : (found : Option Placed) → Keeps {Q = Q} P (confirm_destroyed found)
  unfolding confirm_destroyed
  confirm_destroyed-Keeps none = search placing
  confirm_destroyed-Keeps (some p) = search placing depth 8

  pub confirm_placement_destroyed-Keeps :
      (lab node : String) → Keeps {Q = Q} P (confirm_placement_destroyed lab node)
  unfolding confirm_placement_destroyed
  confirm_placement_destroyed-Keeps lab node = search (placing, confirm_destroyed-Keeps)
