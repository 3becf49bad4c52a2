-- ===== src/Telemetry/Hosting.antt =====
-- What a lookup of a placement by lab and node gives (controller/src/lib/ingest.ts).
use docker_mass_deployment.Base.{
  String, ◌≡◌, refl, ap, ◌∙◌, Bool, true, ◌&&◌, ◌||◌, Option, none, some, List, [], ◌∷◌, ◌==◌,
  ==_iff, str_eq, arith, All, any, find?, Bool-cases, Option-cases, inl, inr,
}
use mathlib.Core.Path.{subst}
use docker_mass_deployment.Store.Rows.{Node, Lab, Placement}
use docker_mass_deployment.Store.World.{Db}
use docker_mass_deployment.Placements.Tables.{Placed, find_lab, find_node, place, place_all}
use docker_mass_deployment.Telemetry.Locality.{is_named, is_on}

-- What a lookup by lab and node gives: a row of the table, on the node.
pub record IsThere (n : String) (d : Db) (rows : List Placement) (p : Placed) : Type 1 where
  pub named : is_named n d.nodes.rows p.row.node_id ≡ true
  pub row : is_on n d.nodes.rows rows p.row.id ≡ true
  pub only : (P : Placement → Type 0) → All P rows → P p.row

abbrev at_site : String → String → Placed → Bool
at_site lab n p = str_eq p.lab.name lab && str_eq p.node.name n

no_some : {A : Type 0} {a : A} → none ≡ some a → ⊥
no_some h = ground arith

some_inj : {A : Type 0} {a b : A} → some a ≡ some b → a ≡ b
some_inj h = ground arith

any-find? :
    {A : Type 0} (p q : A → Bool) (xs : List A) (x : A)
    → find? p xs ≡ some x
    → q x ≡ true
    → any (λ y. p y && q y) xs ≡ true
any-find? p q [] x = λ e. absurd (no_some e)
any-find? p q (y ∷ ys) x = elim (Bool-cases (p y)) [
  | inl e ↦ rw e λ k h. rw (ap q (some_inj k) ∙ h) refl
  | inr e ↦ rw e (any-find? p q ys x)
]

IsThere-later :
    (n : String) (d : Db) (r : Placement) (rows : List Placement) (p : Placed)
    → IsThere n d rows p
    → IsThere n d (r ∷ rows) p
IsThere-later n d r rows p t = record {
  named = t.named;
  row = or_true (r.id == p.row.id && is_named n d.nodes.rows r.node_id) _ t.row;
  only = λ P h. t.only P h.1;
}
  where
    or_true : (a b : Bool) → b ≡ true → (a || b) ≡ true
    or_true a b h = ground arith

pub place_all-IsThere :
    (lab n : String) (d : Db) (rows : List Placement) (p : Placed)
    → find? (at_site lab n) (place_all d rows) ≡ some p
    → IsThere n d rows p
unfolding place_all place find_lab find_node
place_all-IsThere lab n d [] p = λ e. absurd (no_some e)
place_all-IsThere lab n d (r ∷ rows) p = elim (Option-cases (find_lab r.lab_id d)) [
  | inl a ↦ rw a λ k. IsThere-later n d r rows p (place_all-IsThere lab n d rows p k)
  | inr (l, a) ↦ elim (Option-cases (find_node r.node_id d)) [
    | inl b ↦ rw (a, b) λ k. IsThere-later n d r rows p (place_all-IsThere lab n d rows p k)
    | inr (m, b) ↦ elim (Bool-cases (str_eq l.name lab && str_eq m.name n)) [
      | inr e ↦ rw (a, b, e) λ k. IsThere-later n d r rows p (place_all-IsThere lab n d rows p k)
      | inl e ↦ rw (a, b, e) λ k. subst (IsThere n d (r ∷ rows)) (some_inj k) (here l m b e)
    ]
  ]
]
  where
    here :
        (l : Lab) (m : Node)
        → find? (λ x. x.id == r.node_id) d.nodes.rows ≡ some m
        → (str_eq l.name lab && str_eq m.name n) ≡ true
        → {o : Option Node}
        → IsThere n d (r ∷ rows) (record { row = r; lab = l; node = m; cold_owner = o })
    here l m b e =
        let named =
          any-find? (λ (x : Node). x.id == r.node_id) (λ x. str_eq x.name n) d.nodes.rows m b
            (ground arith) in
        record {
          named = named;
          row = rw ((==_iff r.id r.id).1 refl, named) refl;
          only = λ P h. h.0;
        }
