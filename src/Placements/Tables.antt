-- ===== src/Placements/Tables.antt =====
-- The SQL that controller/src/lib/placements.ts runs: queries and statements over the tables, with
-- the constraints and cascades of the schema in controller/src/lib/db.ts.
use Prim.Native.Nat.{Ordering}
use Prim.Native.String.{compare}
use docker_mass_deployment.Base.{
  opt_is, ℕ, ◌+◌, String, Bool, true, false, not, ◌&&◌, ◌||◌, Option, none, some, List, [], ◌∷◌,
  ◌++◌, ◌==◌, str_eq, if◌then◌else◌, any, filter, find?, update_where,
}
use docker_mass_deployment.Store.Rows.{
  Node, Lab, Student, Placement, Member, AuditRow, insert_row, with_rows,
}
use docker_mass_deployment.Store.World.{Db, Action, clock, modify, ◌>>=◌}

-- `ORDER BY key`
abbrev pub str_le : String → String → Bool
str_le s t = elim (compare s t) [ Ordering.gt ↦ false | _ ↦ true ]

unfoldable pub insert_by : {A : Type 0} → (A → String) → A → List A → List A
insert_by key x [] = x ∷ []
insert_by key x (y ∷ ys) =
    let later = insert_by key x ys in if str_le (key x) (key y) then x ∷ y ∷ ys else y ∷ later

unfoldable pub order_by : {A : Type 0} → (A → String) → List A → List A
unfolding insert_by
order_by key [] = []
order_by key (x ∷ xs) = insert_by key x (order_by key xs)

unfoldable pub find_node : ℕ → Db → Option Node
find_node id d = find? (λ n. n.id == id) d.nodes.rows

unfoldable pub find_node_by_name : String → Db → Option Node
find_node_by_name name d = find? (λ n. str_eq n.name name) d.nodes.rows

unfoldable pub find_lab : ℕ → Db → Option Lab
find_lab id d = find? (λ l. l.id == id) d.labs.rows

unfoldable pub find_student : ℕ → Db → Option Student
find_student id d = find? (λ s. s.id == id) d.students.rows

-- A row of `PLACEMENT_SELECT`: the placement with its lab, its node and the node's cold owner.
pub record Placed : Type 0 where
  pub row : Placement
  pub lab : Lab
  pub node : Node
  pub cold_owner : Option Node

abbrev pub owner_of : Option ℕ → Db → Option Node
owner_of none d = none
owner_of (some id) d = find? (λ n. n.id == id) d.nodes.rows

abbrev pub joined : Placement → Option Lab → Option Node → Db → Option Placed
joined p (some lab) (some node) d =
    some
      (record { row = p; lab = lab; node = node; cold_owner = owner_of node.cold_owner_node_id d })
joined p _ _ d = none

unfoldable pub place : Db → Placement → Option Placed
unfolding find_lab find_node
place d p = joined p (find_lab p.lab_id d) (find_node p.node_id d) d

abbrev pub add_placed : Option Placed → List Placed → List Placed
add_placed none ps = ps
add_placed (some p) ps = p ∷ ps

unfoldable pub place_all : Db → List Placement → List Placed
unfolding place
place_all d [] = []
place_all d (p ∷ ps) = add_placed (place d p) (place_all d ps)

unfoldable pub get_placement : ℕ → Db → Option Placed
unfolding place_all
get_placement id d = find? (λ p. p.row.id == id) (place_all d d.placements.rows)

unfoldable pub get_placement_by_lab_node : String → String → Db → Option Placed
unfolding place_all
get_placement_by_lab_node lab node d =
    find? (λ p. str_eq p.lab.name lab && str_eq p.node.name node) (place_all d d.placements.rows)

unfoldable pub list_placements : ℕ → Db → List Placed
unfolding place_all order_by
list_placements lab d =
    order_by (λ p. p.node.name) (filter (λ p. p.row.lab_id == lab) (place_all d d.placements.rows))

unfoldable pub list_placements_for_node : ℕ → Db → List Placed
unfolding place_all order_by
list_placements_for_node node d =
    order_by (λ p. p.lab.name) (filter (λ p. p.row.node_id == node) (place_all d d.placements.rows))

unfoldable pub placement_exists : ℕ → ℕ → Db → Bool
placement_exists lab node d = any (λ p. p.lab_id == lab && p.node_id == node) d.placements.rows

-- The keys of `lab_placements`: its id, UNIQUE(lab_id, node_id) and UNIQUE(node_id, ssh_port).
abbrev pub placement_clash : Placement → Placement → Bool
placement_clash p q =
    p.id == q.id
    || (p.lab_id == q.lab_id && p.node_id == q.node_id)
    || (p.node_id == q.node_id && p.ssh_port == q.ssh_port)

-- `INSERT INTO lab_placements`: refused if it would break a constraint.
unfoldable pub placement_refused : Placement → Db → Bool
unfolding find_lab find_node
placement_refused p d =
    any (placement_clash p) d.placements.rows
    || not (any (λ l. l.id == p.lab_id) d.labs.rows)
    || not (any (λ n. n.id == p.node_id) d.nodes.rows)

unfoldable pub insert_placement : Placement → Db → Db
unfolding placement_refused
insert_placement p d =
    let row = record p { id = d.placements.last_id + 1 } in
    if placement_refused row d
    then d
    else record d { placements = insert_row (λ id. record p { id = id }) d.placements }

-- `UPDATE lab_placements SET ... WHERE id = ?`
unfoldable pub update_placement : ℕ → (Placement → Placement) → Db → Db
update_placement id f d = record d {
  placements = with_rows (update_where (λ p. p.id == id) f) d.placements;
}

-- `DELETE FROM lab_placements WHERE id = ?`: members, samples and quota alerts go with the
-- row, and the GPU rows of the placement lose it.
unfoldable pub delete_placement : ℕ → Db → Db
delete_placement id d = record d {
  placements = with_rows (filter (λ p. not (p.id == id))) d.placements;
  members = with_rows (filter (λ m. not (m.placement_id == id))) d.members;
  storage_samples = filter (λ s. not (s.placement_id == id)) d.storage_samples;
  quota_alerts = filter (λ a. not (a.placement_id == id)) d.quota_alerts;
  student_quota_alerts = filter (λ a. not (a.placement_id == id)) d.student_quota_alerts;
  gpu_events =
      with_rows
        (update_where (λ e. opt_is e.placement_id id) (λ e. record e { placement_id = none }))
        d.gpu_events;
  gpu_snapshot =
      update_where (λ s. opt_is s.placement_id id) (λ s. record s { placement_id = none })
        d.gpu_snapshot;
}

-- A `DELETE FROM lab_placements` that hits these rows.
abbrev pub delete_placements : List Placement → Db → Db
delete_placements [] d = d
delete_placements (p ∷ ps) d = delete_placements ps (delete_placement p.id d)

abbrev pub is_member_of : ℕ → ℕ → Member → Bool
is_member_of placement student m = m.placement_id == placement && m.student_id == student

-- The keys of `placement_members`: its id and UNIQUE(placement_id, student_id).
abbrev pub member_clash : Member → Member → Bool
member_clash m n =
    m.id == n.id || (m.placement_id == n.placement_id && m.student_id == n.student_id)

unfoldable pub member_refused : Member → Db → Bool
member_refused m d =
    any (member_clash m) d.members.rows
    || not (any (λ p. p.id == m.placement_id) d.placements.rows)
    || not (any (λ s. s.id == m.student_id) d.students.rows)

unfoldable pub insert_member : Member → Db → Db
unfolding member_refused
insert_member m d =
    let row = record m { id = d.members.last_id + 1 } in
    if member_refused row d
    then d
    else record d { members = insert_row (λ id. record m { id = id }) d.members }

unfoldable pub update_member : ℕ → (Member → Member) → Db → Db
update_member id f d = record d { members = with_rows (update_where (λ m. m.id == id) f) d.members }

-- `DELETE FROM placement_members WHERE placement_id = ? AND student_id = ?`
unfoldable pub delete_member : ℕ → ℕ → Db → Db
delete_member placement student d = record d {
  members = with_rows (filter (λ m. not (is_member_of placement student m))) d.members;
}

-- controller/src/lib/audit.ts
unfoldable pub insert_audit : AuditRow → Db → Db
insert_audit row d = record d { audit_log = d.audit_log ++ row ∷ [] }

unfoldable pub audit :
    {Q : Type 0} → Option String → String → Option String → Option String → Action Q (Unit {0})
audit actor action target detail = do
  now ← clock
  modify (
      insert_audit
        (record { ts = now; actor = actor; action = action; target = target; detail = detail }))
