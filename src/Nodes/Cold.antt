-- ===== src/Nodes/Cold.antt =====
-- Cold storage, rotation and deletion of nodes in controller/src/lib/nodes.ts.
pub mod Owners
pub mod Deletion
use docker_mass_deployment.Base.{
  ℕ, String, Bool, true, false, not, ◌&&◌, Option, none, some, List, [], ◌∷◌, ◌⧺◌, ◌==◌, length,
  str_eq, filter, update_where, any, opt_is, is_some, if◌then◌else◌,
}
use docker_mass_deployment.Format.{decimal}
use docker_mass_deployment.Outside.{Outside}
use docker_mass_deployment.Nodes.{provision_node}
use docker_mass_deployment.Store.Rows.{Node, Placement, Backend, local_zfs, smb, with_rows}
use docker_mass_deployment.Store.World.{
  Db, Action, Outcome, ok, err, pure, throw, gets, or_throw, modify, throw_if, throw_some, when,
  ◌>>=◌, ◌>>◌,
}
use docker_mass_deployment.Placements.Tables.{find_node_by_name, delete_placements, audit}

-- How many placements a node hosts.
unfoldable pub hosted : ℕ → Db → ℕ
hosted id d = length (filter (λ (p : Placement). p.node_id == id) d.placements.rows)

-- The nodes that have the node as their cold-storage owner.
unfoldable pub dependents : ℕ → Db → List Node
dependents id d = filter (λ n. opt_is n.cold_owner_node_id id) d.nodes.rows

abbrev names : List Node → String
names [] = ""
names (n ∷ []) = n.name
names (n ∷ ns) = n.name ⧺ (", " ⧺ names ns)

abbrev pub is_zfs : Backend → Bool
is_zfs local_zfs = true
is_zfs smb = false

abbrev backend_name : Backend → String
backend_name local_zfs = "local_zfs"
backend_name smb = "smb"

abbrev filled : Option String → Option String
filled none = none
filled (some s) = if str_eq s "" then none else some s

abbrev no_node : {A : Type 0} → String → Outcome A
no_node name = err ("unknown owner node '" ⧺ (name ⧺ "'"))

abbrev pub owner_of_row : ℕ → String → Option Node → Outcome (Option ℕ)
owner_of_row id name none = no_node name
owner_of_row id name (some owner) =
    if owner.id == id
    then err "a node cannot be its own cold-storage owner"
    else if is_zfs owner.cold_backend
    then ok (some owner.id)
    else err ("owner '" ⧺ (name ⧺ "' must use local ZFS cold storage"))

abbrev pub owner_named : ℕ → Option String → Db → Outcome (Option ℕ)
owner_named id none d = err "an SMB node requires a cold-storage owner node"
owner_named id (some name) d = owner_of_row id name (find_node_by_name name d)

-- The owner that the node gets: none for a node with its own pool.
unfoldable pub chosen_owner : ℕ → Backend → Option String → Db → Outcome (Option ℕ)
unfolding find_node_by_name
chosen_owner id local_zfs name d = ok none
chosen_owner id smb name d = owner_named id (filled name) d

abbrev owns_message : String → List Node → Option String
owns_message name [] = none
owns_message name ns =
    some ("node '" ⧺ (name ⧺ ("' is the cold owner for " ⧺ (names ns ⧺ "; reassign them first"))))

-- An owner that others depend on cannot become an SMB client.
unfoldable pub owns : String → ℕ → Backend → Db → Option String
unfolding dependents
owns name id local_zfs d = none
owns name id smb d = owns_message name (dependents id d)

abbrev pub given : Backend → Option ℕ → Node → Node
given backend owner n = record n { cold_backend = backend; cold_owner_node_id = owner }

unfoldable pub store_cold : ℕ → Backend → Option ℕ → Db → Db
store_cold id backend owner d = record d {
  nodes = with_rows (update_where (λ n. n.id == id) (given backend owner)) d.nodes;
}

abbrev owner_note : Backend → Option String → String
owner_note b none = backend_name b
owner_note b (some o) = backend_name b ⧺ (" owner=" ⧺ o)

abbrev pub orphaned : Node → Node
orphaned n = record n { cold_owner_node_id = none; cold_ready = false }

-- A forced deletion detaches the clients of the node.
unfoldable pub detach : ℕ → Db → Db
detach id d = record d {
  nodes = with_rows (update_where (λ n. opt_is n.cold_owner_node_id id) orphaned) d.nodes;
}

-- `DELETE FROM lab_placements WHERE node_id = ?`, with its cascades.
unfoldable pub purge : ℕ → Db → Db
purge id d = delete_placements (filter (λ (p : Placement). p.node_id == id) d.placements.rows) d

-- The last three statements of the transaction; the node leaves its groups.
unfoldable pub erase_node : String → ℕ → Db → Db
erase_node name id d = record d {
  task_log = filter (λ r. not (str_eq r.node name)) d.task_log;
  gpu_snapshot = filter (λ s. not (str_eq s.node name)) d.gpu_snapshot;
  node_group_members = filter (λ m. not (m.node_id == id)) d.node_group_members;
  nodes = with_rows (filter (λ n. not (n.id == id))) d.nodes;
}

abbrev purged_note : ℕ → Option String
purged_note n = if n == 0 then none else some (decimal n ⧺ " placement(s) purged")

abbrev cleared_note : List Node → Option String
cleared_note [] = none
cleared_note ns = some ("cold owner cleared on: " ⧺ names ns)

abbrev joined_notes : Option String → Option String → Option String
joined_notes none b = b
joined_notes (some a) none = some a
joined_notes (some a) (some b) = some (a ⧺ ("; " ⧺ b))

abbrev pub client_message : String → List Node → Option String
client_message name [] = none
client_message name ns = some (
    "node '"
    ⧺ (name ⧺ ("' is the cold-storage owner for: " ⧺ (names ns ⧺ "; reassign them first"))))

module _ {Q : Type 0} where
  abbrev settled : {A : Type 0} → Outcome A → Action Q A
  settled (ok a) = pure a
  settled (err e) = throw e

  -- `setNodeColdStorage`
  unfoldable pub set_node_cold_storage :
      String → Backend → Option String → String → Action Q (Unit {0})
  set_node_cold_storage name backend owner_name actor = do
    found ← gets (find_node_by_name name)
    node ← or_throw found ("unknown node '" ⧺ (name ⧺ "'"))
    n ← gets (hosted node.id)
    throw_if (not (n == 0)) (
        "node '"
        ⧺ (name
            ⧺ ("' hosts "
                ⧺ (decimal n ⧺ " placement(s); remove them before changing cold storage"))))
    choice ← gets (chosen_owner node.id backend owner_name)
    owner ← settled choice
    problem ← gets (owns name node.id backend)
    throw_some problem
    modify (store_cold node.id backend owner)
    audit (some actor) "node.cold_storage" (some name)
        (some (owner_note backend (filled owner_name)))

  -- The transaction of `deleteNode` once nothing stands against it.
  abbrev kept_delete : String → ℕ → String → Action Q (Unit {0})
  kept_delete name id actor = do
    modify (erase_node name id)
    audit (some actor) "node.delete" (some name) none

  abbrev forced_delete : String → ℕ → ℕ → List Node → String → Action Q (Unit {0})
  forced_delete name id n ns actor = do
    modify (purge id)
    modify (detach id)
    modify (erase_node name id)
    audit (some actor) "node.force_delete" (some name)
        (joined_notes (purged_note n) (cleared_note ns))

  abbrev pub delete_row : String → String → Bool → Node → Action Q (Unit {0})
  delete_row name actor true node = do
    throw_if node.online (
        "node '"
        ⧺ (name ⧺ "' is online — remove its placements normally instead of force-deleting"))
    n ← gets (hosted node.id)
    ns ← gets (dependents node.id)
    forced_delete name node.id n ns actor
  delete_row name actor false node = do
    n ← gets (hosted node.id)
    throw_if (not (n == 0)) (
        "node '"
        ⧺ (name
            ⧺ ("' still hosts "
                ⧺ (decimal n ⧺ " lab placement(s); remove them before deleting the node"))))
    ns ← gets (dependents node.id)
    throw_some (client_message name ns)
    kept_delete name node.id actor

  -- `deleteNode`
  unfoldable pub delete_node : String → String → Bool → Action Q (Unit {0})
  delete_node name actor force = do
    found ← gets (find_node_by_name name)
    node ← or_throw found ("unknown node '" ⧺ (name ⧺ "'"))
    delete_row name actor force node

-- `rotateNodeToken`
unfoldable pub rotate_node_token :
    {Q : Type 0} → Outside Q → String → String → (ℕ → String) → String → Action Q String
rotate_node_token out agent_token name hex actor = do
  found ← gets (find_node_by_name name)
  or_throw found ("unknown node '" ⧺ (name ⧺ "'"))
  provision_node out agent_token name hex actor
