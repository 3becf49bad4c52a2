-- ===== src/Placements/Lookup.antt =====
-- What a lookup by lab and node finds after an update of a row (`getPlacementByLabNode` of
-- `controller/src/lib/placements.ts`).
use docker_mass_deployment.Base.{
  Bool, ℕ, String, ◌≡◌, refl, ap, ◌∙◌, ◌&&◌, Option, none, some, List, [], ◌∷◌, ◌==◌, str_eq, find?,
  update_where, Bool-cases, inl, inr, if◌then◌else◌,
}
use docker_mass_deployment.Store.Rows.{Placement, Lab, Node, Table}
use docker_mass_deployment.Store.World.{Db}
use docker_mass_deployment.Placements.Tables.{
  Placed, owner_of, joined, add_placed, place, place_all, find_lab, find_node, update_placement,
  get_placement_by_lab_node,
}
use docker_mass_deployment.Placements.Closed.{IsKeyed}

-- An update of the rows of an id, seen through the join.
abbrev pub touched : ℕ → (Placement → Placement) → Placed → Placed
touched id f p = record p { row = if p.row.id == id then f p.row else p.row }

abbrev pub touched_opt : ℕ → (Placement → Placement) → Option Placed → Option Placed
touched_opt id f none = none
touched_opt id f (some p) = some (touched id f p)

abbrev touched_all : ℕ → (Placement → Placement) → List Placed → List Placed
touched_all id f [] = []
touched_all id f (p ∷ ps) = touched id f p ∷ touched_all id f ps

module _ (id : ℕ) (f : Placement → Placement) (k : IsKeyed f) (d : Db) where
  step_lab : (p : Placement) → (if p.id == id then f p else p).lab_id ≡ p.lab_id
  step_lab p = elim (Bool-cases (p.id == id)) [ inl e ↦ rw e (k.lab p) | inr e ↦ rw e refl ]

  step_node : (p : Placement) → (if p.id == id then f p else p).node_id ≡ p.node_id
  step_node p = elim (Bool-cases (p.id == id)) [ inl e ↦ rw e (k.node p) | inr e ↦ rw e refl ]

  owner-update : (o : Option ℕ) → owner_of o (update_placement id f d) ≡ owner_of o d
  unfolding update_placement
  owner-update none = refl
  owner-update (some n) = refl

  joined-update :
      (p : Placement) (x : Option Lab) (y : Option Node)
      → joined (if p.id == id then f p else p) x y (update_placement id f d)
        ≡ touched_opt id f (joined p x y d)
  unfolding update_placement
  joined-update p none y = refl
  joined-update p (some lab) none = refl
  joined-update p (some lab) (some node) =
      ap
        (λ c.
          some (record {
            row = if p.id == id then f p else p;
            lab = lab;
            node = node;
            cold_owner = c;
          }))
        (owner-update node.cold_owner_node_id)

  place-update :
      (p : Placement)
      → place (update_placement id f d) (if p.id == id then f p else p)
        ≡ touched_opt id f (place d p)
  unfolding place find_lab find_node update_placement
  place-update p =
      ap
        (λ x.
          joined (if p.id == id then f p else p) (find? (λ l. l.id == x) d.labs.rows)
            (find? (λ n. n.id == (if p.id == id then f p else p).node_id) d.nodes.rows)
            (update_placement id f d))
        (step_lab p)
      ∙ (ap
            (λ x.
              joined (if p.id == id then f p else p) (find? (λ l. l.id == p.lab_id) d.labs.rows)
                (find? (λ n. n.id == x) d.nodes.rows) (update_placement id f d))
            (step_node p)
          ∙ joined-update p _ _)

  add_placed-touched :
      (o : Option Placed) (ps : List Placed)
      → add_placed (touched_opt id f o) (touched_all id f ps) ≡ touched_all id f (add_placed o ps)
  add_placed-touched none ps = refl
  add_placed-touched (some p) ps = refl

  place_all-update :
      (ps : List Placement)
      → place_all (update_placement id f d) (update_where (λ p. p.id == id) f ps)
        ≡ touched_all id f (place_all d ps)
  unfolding place_all
  place_all-update [] = refl
  place_all-update (p ∷ ps) =
      ap
        (λ o.
          add_placed o (place_all (update_placement id f d) (update_where (λ p. p.id == id) f ps)))
        (place-update p)
      ∙ (ap (add_placed (touched_opt id f (place d p))) (place_all-update ps)
          ∙ add_placed-touched (place d p) (place_all d ps))

  find-touched :
      (lab node : String) (ps : List Placed)
      → find? (λ p. str_eq p.lab.name lab && str_eq p.node.name node) (touched_all id f ps)
        ≡ touched_opt id f (find? (λ p. str_eq p.lab.name lab && str_eq p.node.name node) ps)
  find-touched lab node [] = refl
  find-touched lab node (p ∷ ps) =
      elim (Bool-cases (str_eq p.lab.name lab && str_eq p.node.name node)) [
        | inl e ↦ rw e refl
        | inr e ↦ rw e (find-touched lab node ps)
      ]

  -- The lookup finds the same placement, updated if its id is the one.
  pub get_placement_by_lab_node-update :
      (lab node : String)
      → get_placement_by_lab_node lab node (update_placement id f d)
        ≡ touched_opt id f (get_placement_by_lab_node lab node d)
  unfolding get_placement_by_lab_node update_placement
  get_placement_by_lab_node-update lab node =
      ap (find? (λ p. str_eq p.lab.name lab && str_eq p.node.name node))
        (place_all-update d.placements.rows)
      ∙ find-touched lab node (place_all d d.placements.rows)

-- Placed rows are read from labs, nodes and placements alone.
owner_of-same : (o : Option ℕ) (d e : Db) → d.nodes ≡ e.nodes → owner_of o d ≡ owner_of o e
owner_of-same none d e n = refl
owner_of-same (some id) d e n = ap (λ (t : Table Node). find? (λ m. m.id == id) t.rows) n

joined-same :
    (p : Placement) (l : Option Lab) (m : Option Node) (d e : Db)
    → d.nodes ≡ e.nodes
    → joined p l m d ≡ joined p l m e
joined-same p none m d e n = refl
joined-same p (some l) none d e n = refl
joined-same p (some l) (some m) d e n =
    ap (λ o. some (record { row = p; lab = l; node = m; cold_owner = o }))
      (owner_of-same m.cold_owner_node_id d e n)

place-same :
    (d e : Db) (p : Placement) → d.labs ≡ e.labs → d.nodes ≡ e.nodes → place d p ≡ place e p
unfolding place find_lab find_node
place-same d e p l n =
    ap (λ x. joined p x (find_node p.node_id d) d)
      (ap (λ (t : Table Lab). find? (λ x. x.id == p.lab_id) t.rows) l)
    ∙ ap (λ x. joined p (find_lab p.lab_id e) x d)
        (ap (λ (t : Table Node). find? (λ x. x.id == p.node_id) t.rows) n)
    ∙ joined-same p (find_lab p.lab_id e) (find_node p.node_id e) d e n

place_all-same :
    (d e : Db) (ps : List Placement)
    → d.labs ≡ e.labs
    → d.nodes ≡ e.nodes
    → place_all d ps ≡ place_all e ps
unfolding place_all
place_all-same d e [] l n = refl
place_all-same d e (p ∷ ps) l n = rw (place-same d e p l n, place_all-same d e ps l n) refl

pub get_placement_by_lab_node-same :
    (d e : Db) (lab node : String)
    → d.labs ≡ e.labs
    → d.nodes ≡ e.nodes
    → d.placements ≡ e.placements
    → get_placement_by_lab_node lab node d ≡ get_placement_by_lab_node lab node e
unfolding get_placement_by_lab_node
get_placement_by_lab_node-same d e lab node l n p =
    ap (λ (t : Table Placement). find? at (place_all d t.rows)) p
    ∙ ap (find? at) (place_all-same d e e.placements.rows l n)
  where
    at : Placed → Bool
    at q = str_eq q.lab.name lab && str_eq q.node.name node
