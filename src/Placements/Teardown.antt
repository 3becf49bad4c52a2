-- ===== src/Placements/Teardown.antt =====
-- The end of a placement in controller/src/lib/placements.ts, and the states that results of the
-- agent give it.
use docker_mass_deployment.Base.{
  ℕ, String, Bool, true, false, not, ◌&&◌, Option, none, some, List, [], ◌∷◌, ◌==◌, ◌⧺◌, str_eq,
  opt_is, find?, filter, if◌then◌else◌,
}
use docker_mass_deployment.Json.{str, obj, end, field}
use docker_mass_deployment.Outside.{Outside}
use docker_mass_deployment.Queue.{enqueue_task}
use docker_mass_deployment.Store.Rows.{
  local_zfs, smb, Placement, PlacementState, Member, MemberState,
}
use docker_mass_deployment.Store.World.{
  Db, Action, pure, gets, modify, clock, throw_if, throw_some, ◌>>=◌, ◌>>◌,
}
use docker_mass_deployment.Placements.Tables.{
  Placed, place_all, get_placement, get_placement_by_lab_node, update_placement, delete_placement,
  update_member, find_student, audit,
}
use docker_mass_deployment.Placements.Change.{site}

abbrev pub is_deleting : PlacementState → Bool
is_deleting PlacementState.deleting = true
is_deleting _ = false

-- A placement whose cold storage is the one that `owner` holds.
abbrev pub depends_on : Placed → Placed → Bool
depends_on owner p =
    p.row.lab_id == owner.row.lab_id
    && opt_is p.node.cold_owner_node_id owner.row.node_id
    && not (is_deleting p.row.state)

unfoldable pub smb_dependents : Placed → Db → List Placed
unfolding place_all
smb_dependents owner d = filter (depends_on owner) (place_all d d.placements.rows)

abbrev join_names : List Placed → String
join_names [] = ""
join_names (p ∷ []) = p.node.name
join_names (p ∷ ps) = p.node.name ⧺ (", " ⧺ join_names ps)

abbrev pub dependents_message : Placed → List Placed → Option String
dependents_message p [] = none
dependents_message p ps = some (
    "'"
    ⧺ (p.lab.name
        ⧺ ("' on '"
            ⧺ (p.node.name
                ⧺ ("' owns the shared cold storage for SMB client(s): "
                    ⧺ (join_names ps ⧺ " — remove those placements first"))))))

-- `assertNoSmbDependents`: the message of the refusal.
unfoldable pub smb_refusal : Placed → Db → Option String
unfolding smb_dependents
smb_refusal p d = elim p.node.cold_backend [
  | local_zfs ↦ dependents_message p (smb_dependents p d)
  | smb ↦ none
]

abbrev pub with_state : PlacementState → Option String → ℕ → Placement → Placement
with_state state error now p = record p { state = state; last_error = error; updated_at = now }

abbrev pub torn_down : ℕ → Placement → Placement
torn_down now p = record p { state = PlacementState.deleting; updated_at = now }

abbrev pub with_member_state : MemberState → Option String → ℕ → Member → Member
with_member_state state error now m = record m {
  state = state;
  last_error = error;
  updated_at = now;
}

-- The member of a student, by user name, on a placement.
abbrev named : Db → String → Member → Bool
named d username m = elim (find_student m.student_id d) [
  | none ↦ false
  | some s ↦ str_eq s.username username
]

abbrev member_on : Db → String → Option Placed → Option Member
member_on d username none = none
member_on d username (some p) =
    find? (λ m. m.placement_id == p.row.id && named d username m) d.members.rows

unfoldable pub find_member : String → String → String → Db → Option Member
unfolding get_placement_by_lab_node find_student
find_member lab node username d = member_on d username (get_placement_by_lab_node lab node d)

abbrev pub online_message : Placed → String
online_message p =
    "node '"
    ⧺ (p.node.name
        ⧺ "' is online — use the normal remove so its container and data are torn down cleanly")

module _ {Q : Type 0} (out : Outside Q) where
  unfoldable pub tear_down : ℕ → Option String → Option Placed → Action Q (Unit {0})
  tear_down id actor none = pure tt
  tear_down id actor (some p) = do
    problem ← gets (smb_refusal p)
    throw_some problem
    now ← clock
    modify (update_placement id (torn_down now))
    enqueue_task out p.node.name "lab.destroy" (obj (field "lab" (str p.lab.name) end)) actor
    audit actor "placement.destroy" (some (site p)) none

  -- The row stays until the agent confirms.
  unfoldable pub destroy_placement : ℕ → Option String → Action Q (Unit {0})
  destroy_placement id actor = do found ← gets (get_placement id); tear_down id actor found

  unfoldable pub force_delete : ℕ → Option String → Option Placed → Action Q (Unit {0})
  force_delete id actor none = pure tt
  force_delete id actor (some p) = do
    throw_if p.node.online (online_message p)
    problem ← gets (smb_refusal p)
    throw_some problem
    enqueue_task out p.node.name "lab.destroy" (obj (field "lab" (str p.lab.name) end)) actor
    modify (delete_placement id)
    audit actor "placement.force_delete" (some (site p)) none

  unfoldable pub force_delete_placement : ℕ → Option String → Action Q (Unit {0})
  force_delete_placement id actor = do found ← gets (get_placement id); force_delete id actor found

module _ {Q : Type 0} where
  unfoldable pub mark_placement_state : ℕ → PlacementState → Option String → Action Q (Unit {0})
  mark_placement_state id state error = do
    now ← clock
    modify (update_placement id (with_state state error now))

  unfoldable pub mark_placed : PlacementState → Option String → Option Placed → Action Q (Unit {0})
  mark_placed state error none = pure tt
  mark_placed state error (some p) = mark_placement_state p.row.id state error

  unfoldable pub mark_placement_state_by_lab_node :
      String → String → PlacementState → Option String → Action Q (Unit {0})
  mark_placement_state_by_lab_node lab node state error = do
    found ← gets (get_placement_by_lab_node lab node)
    mark_placed state error found

  unfoldable pub mark_member : MemberState → Option String → Option Member → Action Q (Unit {0})
  mark_member state error none = pure tt
  mark_member state error (some m) = do
    now ← clock
    modify (update_member m.id (with_member_state state error now))

  unfoldable pub mark_placement_member_state :
      String → String → String → MemberState → Option String → Action Q (Unit {0})
  mark_placement_member_state lab node username state error = do
    found ← gets (find_member lab node username)
    mark_member state error found

  unfoldable pub confirm_destroyed : Option Placed → Action Q (Unit {0})
  confirm_destroyed none = pure tt
  confirm_destroyed (some p) =
      if is_deleting p.row.state then modify (delete_placement p.row.id) else pure tt

  unfoldable pub confirm_placement_destroyed : String → String → Action Q (Unit {0})
  confirm_placement_destroyed lab node = do
    found ← gets (get_placement_by_lab_node lab node)
    confirm_destroyed found
