-- ===== src/Nodes/Cold/Owners.antt =====
-- Which cold-storage owners nodes may have (`setNodeColdStorage` of
-- `controller/src/lib/nodes.ts`).
use mathlib.Core.Path.{subst}
use docker_mass_deployment.Base.{
  ℕ, String, ◌≡◌, refl, sym, ap, ◌∙◌, Bool, true, false, ◌&&◌, ◌⊎◌, Option, none, some, List, [],
  ◌∷◌, ◌==◌, ==_iff, str_eq, arith, filter, find?, update_where, any, All, opt_is, Bool-cases,
  Option-cases, inl, inr, if◌then◌else◌,
}
use docker_mass_deployment.Store.Rows.{Node, Backend, local_zfs, smb}
use docker_mass_deployment.Store.World.{Db, World, Outcome, ok, err, running}
use docker_mass_deployment.Placements.Tables.{find_node_by_name, insert_audit, audit}
use docker_mass_deployment.Nodes.Cold.{
  hosted, dependents, is_zfs, filled, owner_of_row, owner_named, chosen_owner, owns, owns_message,
  given, store_cold, set_node_cold_storage,
}

-- The row is the node `o`, and has its own pool.
abbrev pub holds : ℕ → Node → Bool
holds o m = m.id == o && is_zfs m.cold_backend

-- The owner is one of the rows, with its own pool.
abbrev pub Backed : List Node → Option ℕ → Type 0
Backed rows none = Unit
Backed rows (some o) = any (holds o) rows ≡ true

-- Every node that names a cold-storage owner names a node that is there and has its own pool.
abbrev pub IsOwned : Db → Type 0
IsOwned d = All (λ n. Backed d.nodes.rows n.cold_owner_node_id) d.nodes.rows

-- An owner that the node `id` may be given.
abbrev Fit : List Node → ℕ → Option ℕ → Type 0
Fit rows id none = Unit
Fit rows id (some o) = (any (holds o) rows ≡ true) × ((o == id) ≡ false)

any-find? :
    (p q : Node → Bool) (x : Node) (rows : List Node)
    → find? q rows ≡ some x
    → p x ≡ true
    → any p rows ≡ true
any-find? p q x [] e h = absurd (ground arith)
any-find? p q x (y ∷ rows) e h = elim (Bool-cases (q y)) [
  | inl a ↦
      let same = ap (λ b. if b then some y else find? q rows) a in
      rw (ap p (some_inj (sym same ∙ e)) ∙ h) refl
  | inr a ↦
      let rest = ap (λ b. if b then some y else find? q rows) a in
      ground (arith, any-find? p q x rows (sym rest ∙ e) h)
]
  where
    some_inj : {a b : Node} → some a ≡ some b → a ≡ b
    some_inj k = ground arith

no_value : {A : Type 0} {a : A} {e : String} → err e ≡ ok a → ⊥
no_value p = ground arith

ok_inj : {A : Type 0} {a b : A} → ok a ≡ ok b → a ≡ b
ok_inj p = ground arith

owner_of_row-Fit :
    (id : ℕ) (name : String) (d : Db) (found : Option Node) (owner : Option ℕ)
    → find_node_by_name name d ≡ found
    → owner_of_row id name found ≡ ok owner
    → Fit d.nodes.rows id owner
unfolding find_node_by_name
owner_of_row-Fit id name d none owner f = λ e. absurd (no_value e)
owner_of_row-Fit id name d (some x) owner f = elim (Bool-cases (x.id == id)) [
  | inl a ↦ rw a (λ e. absurd (no_value e))
  | inr a ↦ elim (Bool-cases (is_zfs x.cold_backend)) [
    | inl b ↦
        rw (a, b)
          (λ e. subst (Fit d.nodes.rows id) (ok_inj e) (
            any-find? (holds x.id) (λ n. str_eq n.name name) x d.nodes.rows f
                (rw ((==_iff x.id x.id).1 refl, b) refl),
            a,
          ))
    | inr b ↦ rw (a, b) (λ e. absurd (no_value e))
  ]
]

owner_named-Fit :
    (id : ℕ) (name : Option String) (d : Db) (owner : Option ℕ)
    → owner_named id name d ≡ ok owner
    → Fit d.nodes.rows id owner
owner_named-Fit id none d owner e = absurd (no_value e)
owner_named-Fit id (some name) d owner e =
    owner_of_row-Fit id name d (find_node_by_name name d) owner refl e

chosen_owner-Fit :
    (id : ℕ) (b : Backend) (name : Option String) (d : Db) (owner : Option ℕ)
    → chosen_owner id b name d ≡ ok owner
    → Fit d.nodes.rows id owner
unfolding chosen_owner
chosen_owner-Fit id local_zfs name d owner e = subst (Fit d.nodes.rows id) (ok_inj e) tt
chosen_owner-Fit id smb name d owner e = owner_named-Fit id (filled name) d owner e

-- A row that stays its own owner's: it is another one, or it keeps a pool of its own.
any-update :
    (id o : ℕ) (b : Backend) (owner : Option ℕ) (rows : List Node)
    → ((o == id) ≡ false) ⊎ (is_zfs b ≡ true)
    → any (holds o) rows ≡ true
    → any (holds o) (update_where (λ n. n.id == id) (given b owner) rows) ≡ true
any-update id o b owner [] k h = h
any-update id o b owner (x ∷ rows) (inl d) h = ground (arith, any-update id o b owner rows (inl d))
any-update id o b owner (x ∷ rows) (inr z) h = ground (arith, any-update id o b owner rows (inr z))

-- An owner that stays backed when the node `id` gets the backend `b`.
abbrev Safe : ℕ → Backend → Option ℕ → Type 0
Safe id local_zfs o = Unit
Safe id smb o = opt_is o id ≡ false

-- What the last check lets through.
abbrev pub Clear : ℕ → Backend → List Node → Type 0
Clear id b rows = All (λ n. Safe id b n.cold_owner_node_id) rows

zfs-Clear : (id : ℕ) (rows : List Node) → Clear id local_zfs rows
zfs-Clear id [] = tt
zfs-Clear id (x ∷ rows) = (tt, zfs-Clear id rows)

pub smb-Clear :
    (id : ℕ) (rows : List Node)
    → filter (λ n. opt_is n.cold_owner_node_id id) rows ≡ []
    → Clear id smb rows
smb-Clear id [] e = tt
smb-Clear id (x ∷ rows) e = ground (arith, smb-Clear id rows)

owns_message-none : (name : String) (ns : List Node) → owns_message name ns ≡ none → ns ≡ []
owns_message-none name [] e = refl
owns_message-none name (n ∷ ns) e = absurd (ground arith)

owns-Clear :
    (name : String) (id : ℕ) (b : Backend) (d : Db)
    → owns name id b d ≡ none
    → Clear id b d.nodes.rows
unfolding owns dependents
owns-Clear name id local_zfs d e = zfs-Clear id d.nodes.rows
owns-Clear name id smb d e = smb-Clear id d.nodes.rows (owns_message-none name (dependents id d) e)

module _ (id : ℕ) (b : Backend) (owner : Option ℕ) (rows : List Node) where
  abbrev after : List Node → List Node
  after ms = update_where (λ n. n.id == id) (given b owner) ms

  Fit-Backed : Fit rows id owner → Backed (after rows) owner
  Fit-Backed = fitted owner
    where
      fitted : (o : Option ℕ) → Fit rows id o → Backed (after rows) o
      fitted none f = tt
      fitted (some o) (h, k) = any-update id o b owner rows (inl k) h

  Backed-after :
      (c : Backend) → c ≡ b → (o : Option ℕ) → Safe id c o → Backed rows o → Backed (after rows) o
  Backed-after c e none k h = tt
  Backed-after local_zfs e (some o) k h = any-update id o b owner rows (inr (ap is_zfs (sym e))) h
  Backed-after smb e (some o) k h = any-update id o b owner rows (inl k) h

  owned_after :
      (ms : List Node)
      → Fit rows id owner
      → Clear id b ms
      → All (λ n. Backed rows n.cold_owner_node_id) ms
      → All (λ n. Backed (after rows) n.cold_owner_node_id) (after ms)
  owned_after [] f c h = tt
  owned_after (x ∷ ms) f (k, ks) (h, hs) = elim (Bool-cases (x.id == id)) [
    | inl a ↦ rw a (Fit-Backed f, owned_after ms f ks hs)
    | inr a ↦ rw a (Backed-after b refl x.cold_owner_node_id k h, owned_after ms f ks hs)
  ]

Outcome-cases : {A : Type 0} (r : Outcome A) → ((a : A) × (r ≡ ok a)) ⊎ ((e : String) × (r ≡ err e))
Outcome-cases (ok a) = inl (a, refl)
Outcome-cases (err e) = inr (e, refl)

-- If every node that names a cold-storage owner names a node that is there and has its own pool,
-- then this holds after any request to configure a node's cold storage, whether it goes through or
-- throws.
pub set_node_cold_storage-IsOwned :
    {Q : Type 0} (name : String) (b : Backend) (owner_name : Option String) (actor : String)
    (w : World Q)
    → IsOwned w.db
    → IsOwned (set_node_cold_storage name b owner_name actor w).1.db
unfolding set_node_cold_storage audit insert_audit store_cold running
set_node_cold_storage-IsOwned name b owner_name actor w h =
    elim (Option-cases (find_node_by_name name w.db)) [
      | inl e ↦ rw e h
      | inr (node, e) ↦ elim (Bool-cases (hosted node.id w.db == 0)) [
        | inr k ↦ rw (e, k) h
        | inl k ↦ elim (Outcome-cases (chosen_owner node.id b owner_name w.db)) [
          | inr (x, c) ↦ rw (e, k, c) h
          | inl (owner, c) ↦ elim (Option-cases (owns name node.id b w.db)) [
            | inr (x, o) ↦ rw (e, k, c, o) h
            | inl o ↦
                rw (e, k, c, o)
                  (owned_after node.id b owner w.db.nodes.rows w.db.nodes.rows
                    (chosen_owner-Fit node.id b owner_name w.db owner c)
                    (owns-Clear name node.id b w.db o) h)
          ]
        ]
      ]
    ]
