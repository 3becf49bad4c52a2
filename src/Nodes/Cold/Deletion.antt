-- ===== src/Nodes/Cold/Deletion.antt =====
-- Deleting a node, and the cold-storage owners of the others (`deleteNode` of
-- `controller/src/lib/nodes.ts`).
use docker_mass_deployment.Base.{
  ℕ, String, ◌≡◌, refl, ◌∙◌, Bool, true, false, not, Option, none, some, List, [], ◌∷◌, ◌==◌, arith,
  filter, update_where, any, All, opt_is, Bool-cases, Option-cases, inl, inr,
}
use docker_mass_deployment.Store.Rows.{Node, Placement, smb}
use docker_mass_deployment.Store.World.{Db, World, running}
use docker_mass_deployment.Placements.Tables.{
  find_node_by_name, delete_placement, delete_placements, insert_audit, audit,
}
use docker_mass_deployment.Nodes.Cold.{
  hosted, dependents, orphaned, detach, purge, erase_node, client_message, delete_row, delete_node,
}
use docker_mass_deployment.Nodes.Cold.Owners.{holds, Backed, Clear, smb-Clear, IsOwned}

module _ (id : ℕ) where
  abbrev erased : List Node → List Node
  erased ms = filter (λ n. not (n.id == id)) ms

  abbrev freed : List Node → List Node
  freed ms = update_where (λ n. opt_is n.cold_owner_node_id id) orphaned ms

  any-erase :
      (o : ℕ) (rows : List Node)
      → (o == id) ≡ false
      → any (holds o) rows ≡ true
      → any (holds o) (erased rows) ≡ true
  any-erase o [] k h = h
  any-erase o (x ∷ rows) k h = ground (arith, any-erase o rows k)

  any-freed : (o : ℕ) (rows : List Node) → any (holds o) (freed rows) ≡ any (holds o) rows
  any-freed o [] = refl
  any-freed o (x ∷ rows) = elim (Bool-cases (opt_is x.cold_owner_node_id id)) [
    | inl a ↦ rw (a, any-freed o rows) refl
    | inr a ↦ rw (a, any-freed o rows) refl
  ]

  Backed-erase :
      (rows : List Node) (o : Option ℕ)
      → opt_is o id ≡ false
      → Backed rows o
      → Backed (erased rows) o
  Backed-erase rows none k h = tt
  Backed-erase rows (some o) k h = any-erase o rows k h

  Backed-free : (rows : List Node) (o : Option ℕ) → Backed rows o → Backed (freed rows) o
  Backed-free rows none h = tt
  Backed-free rows (some o) h = any-freed o rows ∙ h

  erase_owned :
      (rows ms : List Node)
      → Clear id smb ms
      → All (λ n. Backed rows n.cold_owner_node_id) ms
      → All (λ n. Backed (erased rows) n.cold_owner_node_id) (erased ms)
  erase_owned rows [] c h = tt
  erase_owned rows (x ∷ ms) (k, ks) (h, hs) = elim (Bool-cases (x.id == id)) [
    | inl a ↦ rw a (erase_owned rows ms ks hs)
    | inr a ↦ rw a (Backed-erase rows x.cold_owner_node_id k h, erase_owned rows ms ks hs)
  ]

  free_owned :
      (rows ms : List Node)
      → All (λ n. Backed rows n.cold_owner_node_id) ms
      → All (λ n. Backed (freed rows) n.cold_owner_node_id) (freed ms)
  free_owned rows [] h = tt
  free_owned rows (x ∷ ms) (h, hs) = elim (Bool-cases (opt_is x.cold_owner_node_id id)) [
    | inl a ↦ rw a (tt, free_owned rows ms hs)
    | inr a ↦ rw a (Backed-free rows x.cold_owner_node_id h, free_owned rows ms hs)
  ]

  freed-Clear : (ms : List Node) → Clear id smb (freed ms)
  freed-Clear [] = tt
  freed-Clear (x ∷ ms) = elim (Bool-cases (opt_is x.cold_owner_node_id id)) [
    | inl a ↦ rw a (refl, freed-Clear ms)
    | inr a ↦ rw a (a, freed-Clear ms)
  ]

delete_placements-nodes : (ps : List Placement) (d : Db) → (delete_placements ps d).nodes ≡ d.nodes
unfolding delete_placement
delete_placements-nodes [] d = refl
delete_placements-nodes (p ∷ ps) d = delete_placements-nodes ps (delete_placement p.id d)

erase_node-IsOwned :
    (name : String) (id : ℕ) (d : Db)
    → Clear id smb d.nodes.rows
    → IsOwned d
    → IsOwned (erase_node name id d)
unfolding erase_node
erase_node-IsOwned name id d c h = erase_owned id d.nodes.rows d.nodes.rows c h

purge-IsOwned : (id : ℕ) (d : Db) → IsOwned d → IsOwned (purge id d)
unfolding purge
purge-IsOwned id d h = rw (delete_placements-nodes _ d) h

detach-IsOwned : (id : ℕ) (d : Db) → IsOwned d → IsOwned (detach id d)
unfolding detach
detach-IsOwned id d h = free_owned id d.nodes.rows d.nodes.rows h

detach-Clear : (id : ℕ) (d : Db) → Clear id smb (detach id d).nodes.rows
unfolding detach
detach-Clear id d = freed-Clear id d.nodes.rows

client_message-none : (name : String) (ns : List Node) → client_message name ns ≡ none → ns ≡ []
client_message-none name [] e = refl
client_message-none name (n ∷ ns) e = absurd (ground arith)

dependents-Clear :
    (name : String) (id : ℕ) (d : Db)
    → client_message name (dependents id d) ≡ none
    → Clear id smb d.nodes.rows
unfolding dependents
dependents-Clear name id d e =
    smb-Clear id d.nodes.rows (client_message-none name (dependents id d) e)

module _ {Q : Type 0} (name actor : String) (node : Node) (w : World Q) (h : IsOwned w.db) where
  forced-IsOwned : IsOwned (delete_row name actor true node w).1.db
  unfolding audit insert_audit running
  forced-IsOwned = elim (Bool-cases node.online) [
    | inl a ↦ rw a h
    | inr a ↦ rw a (
        erase_node-IsOwned name node.id (detach node.id (purge node.id w.db))
          (detach-Clear node.id (purge node.id w.db))
          (detach-IsOwned node.id (purge node.id w.db) (purge-IsOwned node.id w.db h)))
  ]

  kept-IsOwned : IsOwned (delete_row name actor false node w).1.db
  unfolding audit insert_audit running
  kept-IsOwned = elim (Bool-cases (hosted node.id w.db == 0)) [
    | inr k ↦ rw k h
    | inl k ↦ elim (Option-cases (client_message name (dependents node.id w.db))) [
      | inr (x, o) ↦ rw (k, o) h
      | inl o ↦
          rw (k, o) (erase_node-IsOwned name node.id w.db (dependents-Clear name node.id w.db o) h)
    ]
  ]

  row-IsOwned : (force : Bool) → IsOwned (delete_row name actor force node w).1.db
  row-IsOwned true = forced-IsOwned
  row-IsOwned false = kept-IsOwned

-- If every node that names a cold-storage owner names a node that is there and has its own pool,
-- then this holds after any request to delete a node, forced or not, whether it goes through or
-- throws.
pub delete_node-IsOwned :
    {Q : Type 0} (name actor : String) (force : Bool) (w : World Q)
    → IsOwned w.db
    → IsOwned (delete_node name actor force w).1.db
unfolding delete_node running
delete_node-IsOwned name actor force w h = elim (Option-cases (find_node_by_name name w.db)) [
  | inl e ↦ rw e h
  | inr (node, e) ↦ rw e (row-IsOwned name actor node w h force)
]
