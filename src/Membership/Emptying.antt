-- ===== src/Membership/Emptying.antt =====
-- Tearing down the placements of a lab, SMB clients first (`destroyLab` of
-- controller/src/lib/labs.ts).
use docker_mass_deployment.Base.{
  ℕ, ◌≡◌, refl, sym, ap, ◌∙◌, true, false, true≢false, not, Option, none, some, List, [], ◌∷◌,
  arith, ◌==◌, ==_iff, All, All-filter, All-update_where, find?, filter, update_where, mem_nat,
  Bool-cases, inl, inr,
}
use docker_mass_deployment.Store.Rows.{Node, Lab, Placement, Backend, local_zfs, smb, Table}
use docker_mass_deployment.Store.World.{Db, World, Outcome, ok}
use docker_mass_deployment.Placements.Tables.{Placed, find_lab, get_placement}
use docker_mass_deployment.Placements.Change.{is_smb}
use docker_mass_deployment.Placements.Teardown.{
  dependents_message, smb_dependents, smb_refusal, torn_down,
}
use docker_mass_deployment.Membership.Blocking.{
  OwnersServed, Pending, Matching, lookup-Found, not_placed, no_dependents,
}

-- The action returns.
abbrev pub Goes : {Q A : Type 0} → Outcome A × World Q → Type 0
Goes {A = A} (r, w) = (a : A) × (r ≡ ok a)

pub record Ready (ns : Table Node) (lab : Lab) (ls : Table Lab) (ps : List Placed) (todo : List ℕ)
    (d : Db) : Type 0 where
  pub nodes : d.nodes ≡ ns
  pub labs : d.labs ≡ ls
  pub pending : All (Pending ns.rows lab.id todo) d.placements.rows
  pub known : All (λ r. All (λ p. Matching ns.rows lab.id p r) ps) d.placements.rows

module _ (ns : Table Node) (lab : ℕ) where
  Pending-mark :
      (id now : ℕ) (todo : List ℕ) (rows : List Placement)
      → All (Pending ns.rows lab (id ∷ todo)) rows
      → All (Pending ns.rows lab todo) (update_where (λ r. r.id == id) (torn_down now) rows)
  Pending-mark id now todo [] h = tt
  Pending-mark id now todo (r ∷ rows) (h, hs) = elim (Bool-cases (r.id == id)) [
    | inl e ↦ rw e ((λ k. ground arith), Pending-mark id now todo rows hs)
    | inr e ↦ rw e ((λ k. left (h k) e), Pending-mark id now todo rows hs)
  ]
    where
      left : mem_nat r.id (id ∷ todo) ≡ true → (r.id == id) ≡ false → mem_nat r.id todo ≡ true
      left k e = ground arith

  Pending-gone :
      (id : ℕ) (todo : List ℕ) (rows : List Placement)
      → All (Pending ns.rows lab (id ∷ todo)) rows
      → All (Pending ns.rows lab todo) (filter (λ r. not (r.id == id)) rows)
  Pending-gone id todo [] h = tt
  Pending-gone id todo (r ∷ rows) (h, hs) = elim (Bool-cases (r.id == id)) [
    | inl e ↦ rw e (Pending-gone id todo rows hs)
    | inr e ↦ rw e ((λ k. left (h k) e), Pending-gone id todo rows hs)
  ]
    where
      left : mem_nat r.id (id ∷ todo) ≡ true → (r.id == id) ≡ false → mem_nat r.id todo ≡ true
      left k e = ground arith

  Pending-less :
      (id : ℕ) (todo : List ℕ) (rows : List Placement)
      → All
          (λ r.
            (r.id == id) ≡ true → r.lab_id ≡ lab → find? (λ n. n.id == r.node_id) ns.rows ≡ none)
          rows
      → All (Pending ns.rows lab (id ∷ todo)) rows
      → All (Pending ns.rows lab todo) rows
  Pending-less id todo [] f h = tt
  Pending-less id todo (r ∷ rows) (f, fs) (h, hs) = (
    elim (Bool-cases (r.id == id)) [
      | inr e ↦ λ k. left (h k) e
      | inl e ↦ elim (Bool-cases (r.lab_id == lab)) [
        | inr l ↦ rw l λ k. absurd (true≢false (sym k))
        | inl l ↦ rw (l, f e ((==_iff r.lab_id lab).0 l)) λ k. absurd (true≢false (sym k))
      ]
    ],
    Pending-less id todo rows fs hs,
  )
    where
      left : mem_nat r.id (id ∷ todo) ≡ true → (r.id == id) ≡ false → mem_nat r.id todo ≡ true
      left k e = ground arith

-- Both ends of a placement: its row gone, or marked.
module _ {ns : Table Node} {lab : Lab} {ls : Table Lab} {ps : List Placed} where
  pub Ready-mark :
      (id now : ℕ) (todo : List ℕ) (d e : Db)
      → e.nodes ≡ d.nodes
      → e.labs ≡ d.labs
      → e.placements.rows ≡ update_where (λ r. r.id == id) (torn_down now) d.placements.rows
      → Ready ns lab ls ps (id ∷ todo) d
      → Ready ns lab ls ps todo e
  Ready-mark id now todo d e n l p r = record {
    nodes = n ∙ r.nodes;
    labs = l ∙ r.labs;
    pending = rw p (Pending-mark ns lab.id id now todo d.placements.rows r.pending);
    known = rw p (
        All-update_where (λ r. All (λ p. Matching ns.rows lab.id p r) ps) (λ r. r.id == id)
          (torn_down now) d.placements.rows (λ r h. h) r.known);
  }

  pub Ready-gone :
      (id : ℕ) (todo : List ℕ) (d e : Db)
      → e.nodes ≡ d.nodes
      → e.labs ≡ d.labs
      → e.placements.rows ≡ filter (λ r. not (r.id == id)) d.placements.rows
      → Ready ns lab ls ps (id ∷ todo) d
      → Ready ns lab ls ps todo e
  Ready-gone id todo d e n l p r = record {
    nodes = n ∙ r.nodes;
    labs = l ∙ r.labs;
    pending = rw p (Pending-gone ns lab.id id todo d.placements.rows r.pending);
    known = rw p (
        All-filter (λ r. All (λ p. Matching ns.rows lab.id p r) ps) (λ r. not (r.id == id))
          d.placements.rows r.known);
  }

  pub Ready-more : (id : ℕ) (d : Db) → Ready ns lab ls ps [] d → Ready ns lab ls ps (id ∷ []) d
  Ready-more id d r = record {
    nodes = r.nodes;
    labs = r.labs;
    pending = weaken d.placements.rows r.pending;
    known = r.known;
  }
    where
      weaken :
          (rows : List Placement)
          → All (Pending ns.rows lab.id []) rows
          → All (Pending ns.rows lab.id (id ∷ [])) rows
      weaken [] h = tt
      weaken (x ∷ xs) (h, hs) = ((λ k. absurd (true≢false (sym (h k)))), weaken xs hs)

  -- A placement that is not there is not pending.
  pub Ready-none :
      (id : ℕ) (todo : List ℕ) (d : Db)
      → find_lab lab.id d ≡ some lab
      → get_placement id d ≡ none
      → Ready ns lab ls ps (id ∷ todo) d
      → Ready ns lab ls ps todo d
  unfolding get_placement
  Ready-none id todo d f g r = record {
    nodes = r.nodes;
    labs = r.labs;
    pending =
        Pending-less ns lab.id id todo d.placements.rows
          (rw (sym r.nodes) (not_placed d id lab lab.id d.placements.rows f g)) r.pending;
    known = r.known;
  }

  pub Ready-tail :
      {p : Placed} {todo : List ℕ} {d : Db}
      → Ready ns lab ls (p ∷ ps) todo d
      → Ready ns lab ls ps todo d
  Ready-tail {p = p} {d = d} r = record {
    nodes = r.nodes;
    labs = r.labs;
    pending = r.pending;
    known = tails d.placements.rows r.known;
  }
    where
      tails :
          (rows : List Placement)
          → All (λ r. All (λ p. Matching ns.rows lab.id p r) (p ∷ ps)) rows
          → All (λ r. All (λ p. Matching ns.rows lab.id p r) ps) rows
      tails [] h = tt
      tails (x ∷ xs) (h, hs) = (h.1, tails xs hs)

pub client_refusal :
    (p q : Placed) (d : Db)
    → is_smb p.node.cold_backend ≡ true
    → q.node ≡ p.node
    → smb_refusal q d ≡ none
unfolding smb_refusal
client_refusal p q d e n =
    by_backend q.node.cold_backend (ap (λ (m : Node). is_smb m.cold_backend) n ∙ e)
  where
    by_backend :
        (b : Backend)
        → is_smb b ≡ true
        → elim b [ local_zfs ↦ dependents_message q (smb_dependents q d) | smb ↦ none ] ≡ none
    by_backend local_zfs k = absurd (true≢false (sym k))
    by_backend smb k = refl

some_same : {A : Type 0} {o : Option A} {a b : A} → o ≡ some a → o ≡ some b → a ≡ b
some_same h k = some_inj (sym h ∙ k)
  where
    some_inj : {A : Type 0} {a b : A} → some a ≡ some b → a ≡ b
    some_inj h = ground arith

module _ {ns : Table Node} {lab : Lab} {ls : Table Lab} {ps : List Placed} where
  -- What is found by the id of a placement of the list: one of the lab, on the same node.
  pub found_node :
      (p q : Placed) (todo : List ℕ) (d : Db)
      → Ready ns lab ls (p ∷ ps) todo d
      → get_placement p.row.id d ≡ some q
      → (q.node ≡ p.node) × (q.row.lab_id ≡ lab.id)
  unfolding get_placement
  found_node p q todo d r g =
      let (m, e, n) =
        lookup-Found (λ r. All (λ p. Matching ns.rows lab.id p r) (p ∷ ps)) d p.row.id
          d.placements.rows q r.known g in
      let (same, l) = m.0 e in
      (
        some_same
            (ap (λ (t : Table Node). find? (λ n. n.id == q.row.node_id) t.rows) (sym r.nodes) ∙ n)
            same,
        l,
      )

  pub owner_refusal :
      (p q : Placed) (d : Db)
      → OwnersServed ns.rows
      → Ready ns lab ls (p ∷ ps) [] d
      → get_placement p.row.id d ≡ some q
      → smb_refusal q d ≡ none
  unfolding smb_refusal smb_dependents
  owner_refusal p q d o r g = by_backend q.node.cold_backend (smb_dependents q d) empty
    where
      empty : smb_dependents q d ≡ []
      empty =
          no_dependents d q d.placements.rows (rw r.nodes o)
            (rw (r.nodes, (found_node p q [] d r g).1) r.pending)

      by_backend :
          (b : Backend) (xs : List Placed)
          → xs ≡ []
          → elim b [ local_zfs ↦ dependents_message q xs | smb ↦ none ] ≡ none
      by_backend local_zfs xs k = rw k refl
      by_backend smb xs k = refl
