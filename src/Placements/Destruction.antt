-- ===== src/Placements/Destruction.antt =====
-- The end of a placement: which confirmations of the agent delete its row
-- (`controller/src/lib/placements.ts`).
use docker_mass_deployment.Base.{
  ℕ, String, ◌≡◌, refl, true, false, not, Option, none, some, ◌==◌, ==_iff, any, filter,
}
use docker_mass_deployment.Store.Rows.{Placement, PlacementState, Member}
use docker_mass_deployment.Store.World.{Db, World, Outcome, ok, running}
use docker_mass_deployment.Placements.Tables.{Placed, get_placement_by_lab_node}
use docker_mass_deployment.Placements.Teardown.{
  is_deleting, with_state, mark_placement_state, mark_placed, mark_placement_state_by_lab_node,
  confirm_destroyed, confirm_placement_destroyed,
}
use docker_mass_deployment.Placements.Closed.{with_state-IsKeyed}
use docker_mass_deployment.Placements.Lookup.{touched_opt, get_placement_by_lab_node-update}

-- What a confirmation leaves when it deletes the placement of the id: no row of it and no member of
-- it, all other placements and members as they were, and nodes, labs, students, memberships and
-- tasks untouched.
pub record Deleted (id : ℕ) (d e : Db) : Type 0 where
  pub row : any (λ (p : Placement). p.id == id) e.placements.rows ≡ false
  pub members : any (λ (m : Member). m.placement_id == id) e.members.rows ≡ false
  pub other_rows :
      e.placements.rows ≡ filter (λ (p : Placement). not (p.id == id)) d.placements.rows
  pub other_members :
      e.members.rows ≡ filter (λ (m : Member). not (m.placement_id == id)) d.members.rows
  pub nodes : e.nodes ≡ d.nodes
  pub labs : e.labs ≡ d.labs
  pub students : e.students ≡ d.students
  pub lab_members : e.lab_members ≡ d.lab_members
  pub task_log : e.task_log ≡ d.task_log

-- What a confirmation is to give: if the placement found is being deleted, that placement goes; if
-- it is in another state, or none is found, the world stays the same.
abbrev pub Confirmed :
    {Q : Type 0} → Option Placed → World Q → Outcome (Unit {0}) × World Q → Type 0
Confirmed none w (r, w') = (r ≡ ok tt) × (w' ≡ w)
Confirmed (some p) w (r, w') =
    (r ≡ ok tt)
    × ((is_deleting p.row.state ≡ true → Deleted p.row.id w.db w'.db)
        × (is_deleting p.row.state ≡ false → w' ≡ w))

-- The placement found is in the state `s`, if there is one.
abbrev Stands : PlacementState → Option Placed → Type 0
Stands s none = Unit
Stands s (some p) = p.row.state ≡ s

confirm_destroyed-idle :
    {Q : Type 0} (s : PlacementState) (o : Option Placed) (w : World Q)
    → Stands s o
    → is_deleting s ≡ false
    → confirm_destroyed o w ≡ (ok tt, w)
unfolding confirm_destroyed running
confirm_destroyed-idle s none w h k = refl
confirm_destroyed-idle s (some p) w h k = rw (h, k) refl

touched-Stands :
    (s : PlacementState) (error : Option String) (now : ℕ) (p : Placed)
    → Stands s (touched_opt p.row.id (with_state s error now) (some p))
touched-Stands s error now p = rw ((==_iff p.row.id p.row.id).1 refl) refl

marked-Stands :
    {Q : Type 0} (lab node : String) (s : PlacementState) (error : Option String)
    (o : Option Placed) (w : World Q)
    → get_placement_by_lab_node lab node w.db ≡ o
    → Stands s (get_placement_by_lab_node lab node (mark_placed s error o w).1.db)
unfolding mark_placed mark_placement_state running
marked-Stands lab node s error none w e = rw e tt
marked-Stands lab node s error (some p) w e =
    rw
      (
        get_placement_by_lab_node-update p.row.id (with_state s error w.now)
            (with_state-IsKeyed s error w.now) w.db lab node,
        e,
      )
      (touched-Stands s error w.now p)

-- If a result gives the placement of a lab and node any state but `deleting`, a confirmation of its
-- destruction that comes next changes nothing, even if a destruction had been asked for before: the
-- row stays.
pub confirm_after_mark :
    {Q : Type 0} (lab node : String) (s : PlacementState) (error : Option String) (w : World Q)
    → is_deleting s ≡ false
    → confirm_placement_destroyed lab node (mark_placement_state_by_lab_node lab node s error w).1
      ≡ (ok tt, (mark_placement_state_by_lab_node lab node s error w).1)
unfolding confirm_placement_destroyed mark_placement_state_by_lab_node running
confirm_after_mark lab node s error w k =
    confirm_destroyed-idle s _ _
      (marked-Stands lab node s error (get_placement_by_lab_node lab node w.db) w refl) k
