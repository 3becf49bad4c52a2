-- ===== src/Membership/Listing.antt =====
-- The placements that `destroyLab` of controller/src/lib/labs.ts goes through, against the table.
use docker_mass_deployment.Base.{
  ℕ, String, ◌≡◌, refl, sym, ap, ◌∙◌, Bool, true, true≢false, not, ◌&&◌, ◌||◌, Option, none, some,
  List, [], ◌∷◌, arith, ◌==◌, ==_iff, All, All-zip, All-map, All-filter, All-append, any, Distinct,
  filter, mem_nat, map, Bool-cases, Option-cases, inl, inr,
}
use docker_mass_deployment.Store.Rows.{Lab, Placement}
use docker_mass_deployment.Store.World.{Db}
use docker_mass_deployment.Placements.Tables.{
  Placed, find_lab, find_node, place, place_all, order_by, insert_by, add_placed, list_placements,
  placement_clash, str_le,
}
use docker_mass_deployment.Placements.Only.{Only, Distinct-Only}
use docker_mass_deployment.Placements.Change.{is_smb}
use docker_mass_deployment.Labs.{clients_first}
use docker_mass_deployment.Membership.Blocking.{Matching, node_at, smb_node}
use docker_mass_deployment.Membership.Heads.{any-keep}
use docker_mass_deployment.Membership.Emptying.{Ready}

module _ (P : Placed → Type 0) (key : Placed → String) where
  insert_by-All : (x : Placed) (xs : List Placed) → P x → All P xs → All P (insert_by key x xs)
  unfolding insert_by
  insert_by-All x [] p h = (p, tt)
  insert_by-All x (y ∷ ys) p (h, hs) = elim (Bool-cases (str_le (key x) (key y))) [
    | inl e ↦ rw e (p, (h, hs))
    | inr e ↦ rw e (h, insert_by-All x ys p hs)
  ]

  order_by-All : (xs : List Placed) → All P xs → All P (order_by key xs)
  unfolding order_by
  order_by-All [] h = tt
  order_by-All (x ∷ xs) (h, hs) = insert_by-All x (order_by key xs) h (order_by-All xs hs)

module _ (p : Placed → Bool) (key : Placed → String) where
  insert_by-any : (x : Placed) (xs : List Placed) → any p (insert_by key x xs) ≡ any p (x ∷ xs)
  unfolding insert_by
  insert_by-any x [] = refl
  insert_by-any x (y ∷ ys) = elim (Bool-cases (str_le (key x) (key y))) [
    | inl e ↦ rw e refl
    | inr e ↦ rw (e, insert_by-any x ys) (swap (p x) (p y) (any p ys))
  ]
    where
      swap : (a b c : Bool) → (b || (a || c)) ≡ (a || (b || c))
      swap a b c = ground arith

  order_by-any : (xs : List Placed) → any p (order_by key xs) ≡ any p xs
  unfolding order_by
  order_by-any [] = refl
  order_by-any (x ∷ xs) = insert_by-any x (order_by key xs) ∙ ap (λ b. p x || b) (order_by-any xs)

-- An entry of the list: a row of the table, the only one of its id, with its node.
abbrev IsEntry : Db → Placed → Type 0
IsEntry d p = (node_at p.row.node_id d.nodes.rows ≡ some p.node) × Only d.placements.rows p.row

placed-IsEntry :
    (d : Db) (rows : List Placement)
    → All (Only d.placements.rows) rows
    → All (IsEntry d) (place_all d rows)
unfolding place_all place find_lab find_node
placed-IsEntry d [] h = tt
placed-IsEntry d (r ∷ rows) (h, hs) = elim (Option-cases (find_lab r.lab_id d)) [
  | inl a ↦ rw a (placed-IsEntry d rows hs)
  | inr (l, a) ↦ elim (Option-cases (node_at r.node_id d.nodes.rows)) [
    | inl b ↦ rw (a, b) (placed-IsEntry d rows hs)
    | inr (n, b) ↦ rw (a, b) ((b, h), placed-IsEntry d rows hs)
  ]
]

pub filter-holds : {A : Type 0} (p : A → Bool) (xs : List A) → All (λ x. p x ≡ true) (filter p xs)
filter-holds p [] = tt
filter-holds p (x ∷ xs) = elim (Bool-cases (p x)) [
  | inl e ↦ rw e (e, filter-holds p xs)
  | inr e ↦ rw e (filter-holds p xs)
]

-- Of the lab, and on an SMB client, under this id.
abbrev is_listed : ℕ → ℕ → Placed → Bool
is_listed lab id q = (q.row.lab_id == lab && is_smb q.node.cold_backend) && q.row.id == id

any-add_placed :
    (p : Placed → Bool) (o : Option Placed) (xs : List Placed)
    → any p xs ≡ true
    → any p (add_placed o xs) ≡ true
any-add_placed p none xs h = h
any-add_placed p (some x) xs h = ground arith

pending-listed :
    (d : Db) (lab : ℕ) (l : Lab) (rows : List Placement)
    → find_lab lab d ≡ some l
    → All
        (λ r.
          (r.lab_id == lab && smb_node (node_at r.node_id d.nodes.rows)) ≡ true
          → any (is_listed lab r.id) (place_all d rows) ≡ true)
        rows
unfolding place_all place find_lab find_node
pending-listed d lab l [] f = tt
pending-listed d lab l (r ∷ rows) f = (
  head,
  All-map
      (λ x.
        (x.lab_id == lab && smb_node (node_at x.node_id d.nodes.rows)) ≡ true
        → any (is_listed lab x.id) (place_all d rows) ≡ true)
      _ rows (λ x h e. any-add_placed (is_listed lab x.id) (place d r) (place_all d rows) (h e))
      (pending-listed d lab l rows f),
)
  where
    head :
        (r.lab_id == lab && smb_node (node_at r.node_id d.nodes.rows)) ≡ true
        → any (is_listed lab r.id) (place_all d (r ∷ rows)) ≡ true
    head = elim (Bool-cases (r.lab_id == lab)) [
      | inr e ↦ rw e λ k. absurd (true≢false (sym k))
      | inl e ↦ elim (Option-cases (node_at r.node_id d.nodes.rows)) [
        | inl b ↦ rw (e, b) λ k. absurd (true≢false (sym k))
        | inr (n, b) ↦
            rw
              (
                ap (λ i. find_lab i d) ((==_iff r.lab_id lab).0 e) ∙ f,
                b,
                e,
                (==_iff r.id r.id).1 refl,
              )
              λ k. rw k refl
      ]
    ]

any-mem :
    (lab id : ℕ) (xs : List Placed)
    → any (is_listed lab id) xs ≡ true
    → mem_nat id (map (λ (q : Placed). q.row.id) xs) ≡ true
any-mem lab id [] h = absurd (true≢false (sym h))
any-mem lab id (x ∷ xs) h = ground (arith, any-mem lab id xs)

All-swap :
    {A B : Type 0} (P : A → B → Type 0) (xs : List A) (ys : List B)
    → All (λ x. All (P x) ys) xs
    → All (λ y. All (λ x. P x y) xs) ys
All-swap P xs [] h = tt
All-swap P xs (y ∷ ys) h = (
  All-map (λ x. All (P x) (y ∷ ys)) (λ x. P x y) xs (λ x k. k.0) h,
  All-swap P xs ys (All-map (λ x. All (P x) (y ∷ ys)) (λ x. All (P x) ys) xs (λ x k. k.1) h),
)

-- The placements of the lab that stand on SMB clients, and the others.
abbrev pub clients : List Placed → List Placed
clients ps = filter (λ p. is_smb p.node.cold_backend) ps

abbrev pub owners : List Placed → List Placed
owners ps = filter (λ p. not (is_smb p.node.cold_backend)) ps

module _ (d : Db) (lab : Lab) (f : find_lab lab.id d ≡ some lab)
    (w : Distinct placement_clash d.placements.rows) where
  abbrev Mine : Placed → Type 0
  Mine p = IsEntry d p × ((p.row.lab_id == lab.id) ≡ true)

  list-Mine : All Mine (list_placements lab.id d)
  unfolding list_placements
  list-Mine =
      order_by-All Mine (λ p. p.node.name) _
        (All-zip (IsEntry d) (λ p. (p.row.lab_id == lab.id) ≡ true) _
          (All-filter (IsEntry d) (λ p. p.row.lab_id == lab.id) (place_all d d.placements.rows)
            (placed-IsEntry d d.placements.rows (Distinct-Only d.placements.rows w)))
          (filter-holds (λ (p : Placed). p.row.lab_id == lab.id) (place_all d d.placements.rows)))

  first-Mine : All Mine (clients_first (list_placements lab.id d))
  first-Mine =
      All-append Mine (clients (list_placements lab.id d)) (owners (list_placements lab.id d))
        (All-filter Mine _ (list_placements lab.id d) list-Mine)
        (All-filter Mine _ (list_placements lab.id d) list-Mine)

  Mine-Matching :
      (p : Placed) → Mine p → All (λ r. Matching d.nodes.rows lab.id p r) d.placements.rows
  Mine-Matching p ((n, o), l) =
      All-map (λ r. (r.id == p.row.id) ≡ true → r ≡ p.row) (Matching d.nodes.rows lab.id p)
        d.placements.rows
        (λ r same e. (
          ap (λ (x : Placement). node_at x.node_id d.nodes.rows) (same e) ∙ n,
          ap (λ (x : Placement). x.lab_id) (same e) ∙ (==_iff p.row.lab_id lab.id).0 l,
        ))
        o

  listed :
      (id : ℕ)
      → any (is_listed lab.id id) (place_all d d.placements.rows) ≡ true
      → any (is_listed lab.id id) (clients (list_placements lab.id d)) ≡ true
  unfolding list_placements
  listed id h =
      any-keep (is_listed lab.id id) (λ p. is_smb p.node.cold_backend) _ (λ p k. ground arith)
        (order_by-any (is_listed lab.id id) (λ p. p.node.name) _
          ∙ any-keep (is_listed lab.id id) (λ p. p.row.lab_id == lab.id)
              (place_all d d.placements.rows) (λ p k. ground arith) h)

  -- Before the first step, the SMB clients' placements are to be torn down, and nothing else.
  pub start-Ready :
      Ready d.nodes lab d.labs
        (clients_first (list_placements lab.id d))
        (map (λ (q : Placed). q.row.id) (clients (list_placements lab.id d)))
        d
  start-Ready = record {
    nodes = refl;
    labs = refl;
    pending =
        All-map
          (λ r.
            (r.lab_id == lab.id && smb_node (node_at r.node_id d.nodes.rows)) ≡ true
            → any (is_listed lab.id r.id) (place_all d d.placements.rows) ≡ true)
          _ d.placements.rows (λ r h k. any-mem lab.id r.id _ (listed r.id (h (ground arith))))
          (pending-listed d lab.id lab d.placements.rows f);
    known =
        All-swap (λ p r. Matching d.nodes.rows lab.id p r)
          (clients_first (list_placements lab.id d)) d.placements.rows
          (All-map Mine _ (clients_first (list_placements lab.id d)) Mine-Matching first-Mine);
  }
