-- ===== src/Placements/Owners.antt =====
-- Placements that own the cold storage of SMB clients (`assertNoSmbDependents` of
-- `controller/src/lib/placements.ts`).
use docker_mass_deployment.Base.{
  ℕ, String, ◌≡◌, refl, sym, ap, Bool, true, false, true≢false, not, ◌&&◌, Option, none, some, List,
  [], ◌∷◌, ◌==◌, ==_iff, opt_is, All, filter, ◌⊎◌, arith, Bool-cases, inl, inr,
}
use mathlib.Core.Path.{subst}
use docker_mass_deployment.Json.{str, obj, end, field}
use docker_mass_deployment.Outside.{Outside, Refused}
use docker_mass_deployment.Queue.{enqueue_task}
use docker_mass_deployment.Store.Refusals.{Throws, returning, throwing}
use docker_mass_deployment.Store.Rows.{Backend, local_zfs, smb}
use docker_mass_deployment.Store.World.{Db, World, Action, err, clock, modify, running, ◌>>=◌, ◌>>◌}
use docker_mass_deployment.Placements.Change.{site}
use docker_mass_deployment.Placements.Refusals.{enqueue_task-Throws, audit-Returns}
use docker_mass_deployment.Placements.Tables.{
  Placed, audit, get_placement, place_all, update_placement,
}
use docker_mass_deployment.Placements.Teardown.{
  is_deleting, depends_on, dependents_message, smb_dependents, smb_refusal, torn_down, tear_down,
  destroy_placement, force_delete, force_delete_placement,
}

-- The action throws and changes nothing.
abbrev pub Blocked : {Q : Type 0} → Action Q (Unit {0}) → World Q → Type 0
Blocked m w = (e : String) × (m w ≡ (err e, w))

-- The placement `q` is of the lab of `p`, its node's cold storage is the one of the node of `p`, and
-- it is not being deleted.
pub record Depends (p q : Placed) : Type 0 where
  pub lab : q.row.lab_id ≡ p.row.lab_id
  pub owner : q.node.cold_owner_node_id ≡ some p.row.node_id
  pub stays : is_deleting q.row.state ≡ false

-- The element is in the list.
abbrev pub Among : Placed → List Placed → Type 0
Among q [] = ⊥
Among q (x ∷ xs) = (q ≡ x) ⊎ Among q xs

depends_on-Depends : (p q : Placed) → Depends p q → depends_on p q ≡ true
depends_on-Depends p q h =
    rw
      (
        h.lab,
        h.owner,
        h.stays,
        (==_iff p.row.lab_id p.row.lab_id).1 refl,
        (==_iff p.row.node_id p.row.node_id).1 refl,
      )
      refl

opt_is-some : (o : Option ℕ) (n : ℕ) → opt_is o n ≡ true → o ≡ some n
opt_is-some none n h = absurd (true≢false (sym h))
opt_is-some (some a) n h = ap some ((==_iff a n).0 h)

Depends-found : (p q : Placed) → depends_on p q ≡ true → Depends p q
Depends-found p q h =
    let (a, (b, c)) =
      both (q.row.lab_id == p.row.lab_id) (opt_is q.node.cold_owner_node_id p.row.node_id)
        (is_deleting q.row.state) h in
    record {
      lab = (==_iff q.row.lab_id p.row.lab_id).0 a;
      owner = opt_is-some q.node.cold_owner_node_id p.row.node_id b;
      stays = c;
    }
  where
    both : (a b c : Bool) → (a && b && not c) ≡ true → (a ≡ true) × ((b ≡ true) × (c ≡ false))
    both a b c h = (ground arith, (ground arith, ground arith))

some_left :
    (p q : Placed) (xs : List Placed)
    → Among q xs
    → Depends p q
    → (x : Placed) × ((ys : List Placed) × (filter (depends_on p) xs ≡ x ∷ ys))
some_left p q [] a h = absurd a
some_left p q (x ∷ xs) (inl e) h = (
  x,
  (
    filter (depends_on p) xs,
    rw (subst (λ y. depends_on p y ≡ true) e (depends_on-Depends p q h)) refl,
  ),
)
some_left p q (x ∷ xs) (inr a) h = elim (Bool-cases (depends_on p x)) [
  | inl e ↦ (x, (filter (depends_on p) xs, rw e refl))
  | inr e ↦ rw e (some_left p q xs a h)
]

none_left :
    (p : Placed) (xs : List Placed) → All (λ q. Depends p q → ⊥) xs → filter (depends_on p) xs ≡ []
none_left p [] h = refl
none_left p (x ∷ xs) (h, hs) = elim (Bool-cases (depends_on p x)) [
  | inl e ↦ absurd (h (Depends-found p x e))
  | inr e ↦ rw e (none_left p xs hs)
]

some_message :
    (p q : Placed) (qs : List Placed) → (e : String) × (dependents_message p (q ∷ qs) ≡ some e)
some_message p q qs = (_, refl)

owner_refusal :
    (p q : Placed) (d : Db)
    → p.node.cold_backend ≡ local_zfs
    → Among q (place_all d d.placements.rows)
    → Depends p q
    → (e : String) × (smb_refusal p d ≡ some e)
unfolding smb_refusal smb_dependents
owner_refusal p q d b a h =
    let (x, (ys, e)) = some_left p q (place_all d d.placements.rows) a h in
    rw (b, e) (some_message p x ys)

free_refusal :
    (p : Placed) (d : Db)
    → All (λ q. Depends p q → ⊥) (place_all d d.placements.rows)
    → smb_refusal p d ≡ none
unfolding smb_refusal smb_dependents
free_refusal p d h = backend p.node.cold_backend refl
  where
    backend : (b : Backend) → p.node.cold_backend ≡ b → smb_refusal p d ≡ none
    backend local_zfs e = rw (e, none_left p (place_all d d.placements.rows) h) refl
    backend smb e = rw e refl

module _ {Q : Type 0} (out : Outside Q) where
  destroy-Blocked :
      (id : ℕ) (actor : Option String) (p : Placed) (e : String) (w : World Q)
      → get_placement id w.db ≡ some p
      → smb_refusal p w.db ≡ some e
      → Blocked (destroy_placement out id actor) w
  unfolding destroy_placement tear_down running
  destroy-Blocked id actor p e w f r = rw (f, r) (e, refl)

  force-Blocked :
      (id : ℕ) (actor : Option String) (p : Placed) (e : String) (w : World Q)
      → get_placement id w.db ≡ some p
      → smb_refusal p w.db ≡ some e
      → Blocked (force_delete_placement out id actor) w
  unfolding force_delete_placement force_delete running smb_refusal
  force-Blocked id actor p e w f r = elim (Bool-cases p.node.online) [
    | inl a ↦ rw (f, a) (_, refl)
    | inr a ↦ rw (f, a, r) (e, refl)
  ]

  -- What follows the checks of a destruction.
  begun : ℕ → Option String → Placed → Action Q (Unit {0})
  begun id actor p = do
    now ← clock
    modify (update_placement id (torn_down now))
    enqueue_task out p.node.name "lab.destroy" (obj (field "lab" (str p.lab.name) end)) actor
    audit actor "placement.destroy" (some (site p)) none

  begun-Throws :
      (id : ℕ) (actor : Option String) (p : Placed) → Throws (Refused out) (begun id actor p)
  unfolding begun
  begun-Throws id actor p =
      search (throwing, returning, enqueue_task-Throws, audit-Returns) depth 20

-- While a placement on a node with its own pool has a placement of the same lab that depends on its
-- node's cold storage and is not being deleted, neither its destruction nor its forced deletion goes
-- through: both throw and change nothing.
pub owner-Blocked :
    {Q : Type 0} (out : Outside Q) (id : ℕ) (actor : Option String) (p q : Placed) (w : World Q)
    → get_placement id w.db ≡ some p
    → p.node.cold_backend ≡ local_zfs
    → Among q (place_all w.db w.db.placements.rows)
    → Depends p q
    → Blocked (destroy_placement out id actor) w × Blocked (force_delete_placement out id actor) w
owner-Blocked out id actor p q w f b a h =
    let (e, r) = owner_refusal p q w.db b a h in
    (destroy-Blocked out id actor p e w f r, force-Blocked out id actor p e w f r)

-- The destruction of a placement on which no placement depends throws only with a queue engine that
-- does not take every job: the check refuses nothing else.
pub destroy_placement-Throws :
    {Q : Type 0} (out : Outside Q) (id : ℕ) (actor : Option String) (p : Placed) (w : World Q)
    (e : String)
    → get_placement id w.db ≡ some p
    → All (λ q. Depends p q → ⊥) (place_all w.db w.db.placements.rows)
    → (destroy_placement out id actor w).0 ≡ err e
    → Refused out
unfolding destroy_placement tear_down begun running
destroy_placement-Throws out id actor p w e f h =
    rw (f, free_refusal p w.db h) ((begun-Throws out id actor p).at w e)
