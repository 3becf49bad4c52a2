-- ===== src/Placements/Members.antt =====
-- Members of a placement in controller/src/lib/placements.ts: provisioning one student on one
-- placement, provisioning all of them anew, and removing one.
use docker_mass_deployment.Base.{
  ℕ, ◌+◌, String, Bool, Option, none, some, List, [], ◌∷◌, ◌==◌, any, filter, if◌then◌else◌,
}
use docker_mass_deployment.Outside.{Outside}
use docker_mass_deployment.Queue.{enqueue_task}
use docker_mass_deployment.Secrets.{encrypt_secret}
use docker_mass_deployment.Secrets.Password.{generate_password}
use docker_mass_deployment.Store.Rows.{Student, Member, MemberState}
use docker_mass_deployment.Store.World.{
  Db, Action, pure, gets, modify, clock, draw, throw_if, for_each, ◌>>=◌, ◌>>◌,
}
use docker_mass_deployment.Placements.Tables.{
  Placed, is_member_of, insert_member, member_refused, update_member, delete_member, find_student,
  order_by,
}
use docker_mass_deployment.Placements.Tasks.{add_params, remove_params}

-- The row of `INSERT INTO placement_members`; the table gives it its id.
abbrev pub new_member : ℕ → ℕ → String → ℕ → Member
new_member placement student secret now = record {
  id = 0;
  placement_id = placement;
  student_id = student;
  state = MemberState.provisioning;
  last_error = none;
  credential_secret = some secret;
  credential_delivered_at = none;
  created_at = now;
  updated_at = now;
}

abbrev pub reset_member : String → ℕ → Member → Member
reset_member secret now m = record m {
  state = MemberState.provisioning;
  last_error = none;
  credential_secret = some secret;
  updated_at = now;
}

-- `placement_members JOIN students`, in the order of their user names.
abbrev add_joined : Member → Option Student → List (Member × Student) → List (Member × Student)
add_joined m none rest = rest
add_joined m (some s) rest = (m, s) ∷ rest

unfoldable pub with_students : Db → List Member → List (Member × Student)
unfolding find_student
with_students d [] = []
with_students d (m ∷ ms) = add_joined m (find_student m.student_id d) (with_students d ms)

unfoldable pub members_of : ℕ → Db → List (Member × Student)
unfolding with_students order_by
members_of placement d =
    order_by (λ ms. ms.1.username)
      (with_students d (filter (λ m. m.placement_id == placement) d.members.rows))

unfoldable pub is_provisioned : ℕ → ℕ → Db → Bool
is_provisioned placement student d = any (is_member_of placement student) d.members.rows

module _ {Q : Type 0} (out : Outside Q) where
  -- `INSERT`; the schema's constraints make it throw.
  unfoldable pub add_member : Member → Action Q (Unit {0})
  add_member m = do
    refused ← gets (λ d. member_refused (record m { id = d.members.last_id + 1 }) d)
    throw_if refused "constraint failed"
    modify (insert_member m)

  unfoldable pub provision_new : Placed → Student → Option String → Action Q (Option String)
  provision_new p s actor = do
    now ← clock
    n ← draw
    let password = generate_password out n
    secret ← encrypt_secret out password
    add_member (new_member p.row.id s.id secret now)
    enqueue_task out p.node.name "student.add" (add_params p s.username s.linux_uid password) actor
    pure (some p.node.name)

  -- A student who is on the placement already is skipped.
  unfoldable pub provision_member_on_placement :
      Placed → Student → Option String → Action Q (Option String)
  provision_member_on_placement p s actor = do
    existing ← gets (is_provisioned p.row.id s.id)
    if existing then pure none else provision_new p s actor

  unfoldable pub reprovision_member :
      Placed → Option String → Member × Student → Action Q (Unit {0})
  reprovision_member p actor ms = do
    now ← clock
    n ← draw
    let password = generate_password out n
    secret ← encrypt_secret out password
    modify (update_member ms.0.id (reset_member secret now))
    enqueue_task out p.node.name "student.add" (add_params p ms.1.username ms.1.linux_uid password)
        actor
    pure tt

  unfoldable pub reprovision_placement_members : Placed → Option String → Action Q (Unit {0})
  reprovision_placement_members p actor = do
    members ← gets (members_of p.row.id)
    for_each members (reprovision_member p actor)

  -- `removal` is the removal's id and the nodes whose cold storage is cleaned up after it.
  unfoldable pub remove_member_from_placement :
      Placed
      → ℕ × String
      → Bool
      → Option String
      → Option (String × List String)
      → Action Q (Unit {0})
  remove_member_from_placement p student delete_data actor removal = do
    enqueue_task out p.node.name "student.remove" (remove_params p student.1 delete_data removal)
        actor
    modify (delete_member p.row.id student.0)
