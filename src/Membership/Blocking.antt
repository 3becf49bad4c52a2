-- ===== src/Membership/Blocking.antt =====
-- Which placements of a lab keep the destruction of another from going through
-- (controller/src/lib/placements.ts, controller/src/lib/labs.ts).
use docker_mass_deployment.Base.{
  ℕ, ◌≡◌, refl, sym, ap, ◌∙◌, Bool, true, false, not, ◌&&◌, Option, none, some, List, [], ◌∷◌,
  arith, ◌==◌, All, find?, filter, mem_nat, opt_is, Bool-cases, Option-cases, inl, inr, true≢false,
}
use docker_mass_deployment.Store.Rows.{Node, Lab, Placement, Backend}
use docker_mass_deployment.Store.World.{Db}
use docker_mass_deployment.Placements.Tables.{Placed, find_lab, find_node, place, place_all}
use docker_mass_deployment.Placements.Change.{is_smb}
use docker_mass_deployment.Placements.Teardown.{is_deleting, depends_on}

-- A node that names a cold-storage owner is an SMB client.
abbrev pub IsClient : Option ℕ → Backend → Type 0
IsClient none b = Unit
IsClient (some o) b = is_smb b ≡ true

abbrev pub OwnersServed : List Node → Type 0
OwnersServed ns = All (λ n. IsClient n.cold_owner_node_id n.cold_backend) ns

abbrev pub node_at : ℕ → List Node → Option Node
node_at id ns = find? (λ n. n.id == id) ns

abbrev pub smb_node : Option Node → Bool
smb_node none = false
smb_node (some n) = is_smb n.cold_backend

-- A placement of the lab, on an SMB client, that is not being deleted: it blocks its owner's
-- destruction, and is one of those still to be torn down.
abbrev pub Pending : List Node → ℕ → List ℕ → Placement → Type 0
Pending ns lab todo r =
    (r.lab_id == lab && smb_node (node_at r.node_id ns) && not (is_deleting r.state)) ≡ true
    → mem_nat r.id todo ≡ true

-- A row with the id of `p` stands for the lab on the node of `p`.
abbrev pub Matching : List Node → ℕ → Placed → Placement → Type 0
Matching ns lab p r =
    (r.id == p.row.id) ≡ true → (node_at r.node_id ns ≡ some p.node) × (r.lab_id ≡ lab)

no_some : {A : Type 0} {a : A} → none ≡ some a → ⊥
no_some h = ground arith

some_inj : {A : Type 0} {a b : A} → some a ≡ some b → a ≡ b
some_inj h = ground arith

pub find?-All :
    {A : Type 0} (P : A → Type 0) (p : A → Bool) (xs : List A) (x : A)
    → All P xs
    → find? p xs ≡ some x
    → P x × (p x ≡ true)
find?-All P p [] x h = λ e. absurd (no_some e)
find?-All P p (y ∷ ys) x (h, hs) = elim (Bool-cases (p y)) [
  | inl e ↦ rw e (λ k. (rw (sym (some_inj k)) h, rw (sym (some_inj k)) e))
  | inr e ↦ rw e (find?-All P p ys x hs)
]

-- What a placed row is: the row, with its node.
abbrev pub Found : (Placement → Type 0) → List Node → ℕ → Placed → Type 0
Found P ns id q = P q.row × ((q.row.id == id) ≡ true) × (node_at q.row.node_id ns ≡ some q.node)

pub lookup-Found :
    (P : Placement → Type 0) (d : Db) (id : ℕ) (rows : List Placement) (q : Placed)
    → All P rows
    → find? (λ p. p.row.id == id) (place_all d rows) ≡ some q
    → Found P d.nodes.rows id q
unfolding place_all place find_lab find_node
lookup-Found P d id [] q h = λ e. absurd (no_some e)
lookup-Found P d id (r ∷ rows) q (h, hs) = elim (Option-cases (find_lab r.lab_id d)) [
  | inl a ↦ rw a (lookup-Found P d id rows q hs)
  | inr (l, a) ↦ elim (Option-cases (node_at r.node_id d.nodes.rows)) [
    | inl b ↦ rw (a, b) (lookup-Found P d id rows q hs)
    | inr (n, b) ↦ elim (Bool-cases (r.id == id)) [
      | inr e ↦ rw (a, b, e) (lookup-Found P d id rows q hs)
      | inl e ↦ rw (a, b, e) λ k. rw (sym (some_inj k)) (h, e, b)
    ]
  ]
]

-- If no placed row has the id, no row of a lab that is there and of a node that is there has it.
pub not_placed :
    (d : Db) (id : ℕ) (l : Lab) (lab : ℕ) (rows : List Placement)
    → find_lab lab d ≡ some l
    → find? (λ p. p.row.id == id) (place_all d rows) ≡ none
    → All (λ r. (r.id == id) ≡ true → r.lab_id ≡ lab → node_at r.node_id d.nodes.rows ≡ none) rows
unfolding place_all place find_lab find_node
not_placed d id l lab [] f = λ e. tt
not_placed d id l lab (r ∷ rows) f = elim (Option-cases (node_at r.node_id d.nodes.rows)) [
  | inl b ↦ elim (Option-cases (find_lab r.lab_id d)) [
    | inl a ↦ rw (a, b) λ k. ((λ e s. refl), not_placed d id l lab rows f k)
    | inr (l', a) ↦ rw (a, b) λ k. ((λ e s. refl), not_placed d id l lab rows f k)
  ]
  | inr (n, b) ↦ elim (Option-cases (find_lab r.lab_id d)) [
    | inl a ↦ rw a λ k. (
      (λ e s. absurd (no_some (sym a ∙ (ap (λ i. find_lab i d) s ∙ f)))),
      not_placed d id l lab rows f k,
    )
    | inr (l', a) ↦ elim (Bool-cases (r.id == id)) [
      | inl e ↦ rw (a, b, e) λ k. absurd (no_some (sym k))
      | inr e ↦
          rw (a, b, e) λ k. ((λ h s. absurd (true≢false (sym h))), not_placed d id l lab rows f k)
    ]
  ]
]

-- With no placement left to tear down, nothing depends on the cold storage of one.
pub no_dependents :
    (d : Db) (owner : Placed) (rows : List Placement)
    → OwnersServed d.nodes.rows
    → All (Pending d.nodes.rows owner.row.lab_id []) rows
    → filter (depends_on owner) (place_all d rows) ≡ []
unfolding place_all place find_lab find_node
no_dependents d owner [] c h = refl
no_dependents d owner (r ∷ rows) c (h, hs) = elim (Option-cases (find_lab r.lab_id d)) [
  | inl a ↦ rw a (no_dependents d owner rows c hs)
  | inr (l, a) ↦ elim (Option-cases (node_at r.node_id d.nodes.rows)) [
    | inl b ↦ rw (a, b) (no_dependents d owner rows c hs)
    | inr (n, b) ↦
        rw
          (
            a,
            b,
            free n n.cold_owner_node_id
                (find?-All (λ m. IsClient m.cold_owner_node_id m.cold_backend)
                  (λ m. m.id == r.node_id) d.nodes.rows n c b).0
                (ap smb_node b),
          )
          (no_dependents d owner rows c hs)
  ]
]
  where
    free :
        (n : Node) (o : Option ℕ)
        → IsClient o n.cold_backend
        → smb_node (node_at r.node_id d.nodes.rows) ≡ is_smb n.cold_backend
        → (r.lab_id == owner.row.lab_id && opt_is o owner.row.node_id && not (is_deleting r.state))
          ≡ false
    free n none k s = ground arith
    free n (some o) k s =
        elim (Bool-cases (r.lab_id == owner.row.lab_id && not (is_deleting r.state))) [
          | inl e ↦ absurd (true≢false (sym (h (ground arith))))
          | inr e ↦ ground arith
        ]
