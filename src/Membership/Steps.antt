-- ===== src/Membership/Steps.antt =====
-- One step of tearing a lab down (`destroyLab` of controller/src/lib/labs.ts).
use docker_mass_deployment.Base.{
  ℕ, String, ◌≡◌, refl, sym, ap, ◌∙◌, Bool, true, false, not, ◌&&◌, Option, none, some, List, ◌∷◌,
  arith, Bool-cases, Option-cases, inl, inr,
}
use mathlib.Core.Path.{subst}
use docker_mass_deployment.Json.{str, obj, end, field}
use docker_mass_deployment.Outside.{Outside, Accepts, TaskFrame}
use docker_mass_deployment.Store.Refusals.{Returns, returning, modify-Returns}
use docker_mass_deployment.Store.Keeps.{Keeps, keeping, modify-Keeps}
use docker_mass_deployment.Queue.Keeping.{enqueue_task-Keeps}
use docker_mass_deployment.Placements.Refusals.{enqueue_task-Returns, audit-Returns}
use docker_mass_deployment.Placements.Change.{site}
use docker_mass_deployment.Queue.{enqueue_task, insert_task, queued_row}
use docker_mass_deployment.Store.Rows.{Node, Lab, Table, AuditRow}
use docker_mass_deployment.Store.World.{
  Db, World, ok, Action, ◌>>=◌, ◌>>◌, pure, gets, modify, throw_if, throw_some, running,
}
use docker_mass_deployment.Placements.Tables.{
  Placed, find_lab, get_placement, update_placement, delete_placement, insert_audit, audit,
}
use docker_mass_deployment.Placements.Teardown.{
  online_message, smb_refusal, torn_down, tear_down, destroy_placement, force_delete,
  force_delete_placement,
}
use docker_mass_deployment.Labs.{tear_down_one}
use docker_mass_deployment.Membership.Emptying.{
  Goes, Ready, Ready-mark, Ready-gone, Ready-none, Ready-tail, found_node,
}

then_pure :
    {Q A : Type 0} (m : Action Q A) (k : ℕ) (w : World Q)
    → Goes (m w)
    → (m >> pure k) w ≡ (ok k, (m w).1)
unfolding running
then_pure m k w (a, e) =
    subst (λ x. ◌>>=◌ (λ _. (x, (m w).1)) (λ _. pure k) w ≡ (ok k, (m w).1)) (sym e) refl

-- What holds after the second action holds after both, if the first returns.
then_db :
    {Q A B : Type 0} (P : Db → Type 0) (m : Action Q A) (k : Action Q B) (w : World Q)
    → Returns m
    → P (k (m w).1).1.db
    → P ((m >> k) w).1.db
unfolding running
then_db P m k w h p = subst (λ x. P (◌>>=◌ (λ _. (x, (m w).1)) (λ _. k) w).1.db) (sym (h.at w)) p

Ready-task :
    {ns : Table Node} {lab : Lab} {ls : Table Lab} {ps : List Placed} {todo : List ℕ}
    (node : String) (f : TaskFrame) (job : ℕ) (d : Db)
    → Ready ns lab ls ps todo d
    → Ready ns lab ls ps todo (insert_task (queued_row node f job) d)
unfolding insert_task
Ready-task node f job d r = record {
  nodes = r.nodes;
  labs = r.labs;
  pending = r.pending;
  known = r.known;
}

Ready-audit :
    {ns : Table Node} {lab : Lab} {ls : Table Lab} {ps : List Placed} {todo : List ℕ}
    (row : AuditRow) (d : Db)
    → Ready ns lab ls ps todo d
    → Ready ns lab ls ps todo (insert_audit row d)
unfolding insert_audit
Ready-audit row d r = record {
  nodes = r.nodes;
  labs = r.labs;
  pending = r.pending;
  known = r.known;
}

module _ {Q : Type 0} (out : Outside Q) where
  order : Placed → Option String → Action Q TaskFrame
  order q actor =
      enqueue_task out q.node.name "lab.destroy" (obj (field "lab" (str q.lab.name) end)) actor

  asked : Placed → Option String → Action Q (Unit {0})
  unfolding order
  asked q actor = order q actor >> audit actor "placement.destroy" (some (site q)) none

  asked-Returns : Accepts out → (q : Placed) (actor : Option String) → Returns (asked q actor)
  unfolding asked order
  asked-Returns accepts q actor =
      search (returning, enqueue_task-Returns out accepts, audit-Returns)

  forced : ℕ → Placed → Option String → Action Q (Unit {0})
  unfolding order
  forced id q actor =
      order q actor
      >> (modify (delete_placement id) >> audit actor "placement.force_delete" (some (site q)) none)

  -- On a node that is offline, and without dependents, a forced deletion goes on.
  force-forced :
      (id : ℕ) (q : Placed) (actor : Option String) (w : World Q)
      → q.node.online ≡ false
      → smb_refusal q w.db ≡ none
      → force_delete out id actor (some q) w ≡ forced id q actor w
  unfolding force_delete forced order running
  force-forced id q actor w h k =
      ap
        (λ b.
          (throw_if b (online_message q)
              >> (gets (smb_refusal q) >>= λ problem. throw_some problem >> forced id q actor))
            w)
        h
      ∙ ap (λ o. (throw_some o >> forced id q actor) w) k

  forced-Returns :
      Accepts out → (id : ℕ) (q : Placed) (actor : Option String) → Returns (forced id q actor)
  unfolding forced order
  forced-Returns accepts id q actor =
      search (returning, enqueue_task-Returns out accepts, audit-Returns) depth 8

  order-Returns : Accepts out → (q : Placed) (actor : Option String) → Returns (order q actor)
  unfolding order
  order-Returns accepts q actor = enqueue_task-Returns out accepts _ _ _ actor

module _ {Q : Type 0} (out : Outside Q) {ns : Table Node} {lab : Lab} {ls : Table Lab}
    {ps : List Placed} where
  order-Keeps :
      (todo : List ℕ) (q : Placed) (actor : Option String)
      → Keeps (Ready ns lab ls ps todo) (order out q actor)
  unfolding order
  order-Keeps todo q actor = enqueue_task-Keeps out _ _ _ actor Ready-task

  logged-Keeps :
      (todo : List ℕ) (actor : Option String) (action : String) (target detail : Option String)
      → Keeps {Q = Q} (Ready ns lab ls ps todo) (audit actor action target detail)
  unfolding audit
  logged-Keeps todo actor action target detail = search (keeping, modify-Keeps, Ready-audit)

  asked-Keeps :
      (todo : List ℕ) (q : Placed) (actor : Option String)
      → Keeps (Ready ns lab ls ps todo) (asked out q actor)
  unfolding asked
  asked-Keeps todo q actor = search (keeping, order-Keeps, logged-Keeps)

  forced_db :
      Accepts out
      → (id : ℕ) (todo : List ℕ) (q : Placed) (actor : Option String) (w : World Q)
      → Ready ns lab ls ps (id ∷ todo) w.db
      → Ready ns lab ls ps todo (forced out id q actor w).1.db
  unfolding forced delete_placement modify
  forced_db accepts id todo q actor w r =
      then_db (Ready ns lab ls ps todo) (order out q actor) _ w (order-Returns out accepts q actor)
        (then_db (Ready ns lab ls ps todo) (modify (delete_placement id)) _ (order out q actor w).1
          (modify-Returns _)
          ((logged-Keeps todo actor _ _ _).at
            (modify (delete_placement id) (order out q actor w).1).1
            (modified (order out q actor w).1 ((order-Keeps (id ∷ todo) q actor).at w r))))
    where
      modified :
          (v : World Q)
          → Ready ns lab ls ps (id ∷ todo) v.db
          → Ready ns lab ls ps todo (modify {Q = Q} (delete_placement id) v).1.db
      modified v r = Ready-gone id todo v.db _ refl refl refl r

  module _ (accepts : Accepts out) (actor : Option String) (p : Placed) (todo : List ℕ)
      (w : World Q) (l : find_lab lab.id w.db ≡ some lab)
      (free : (q : Placed) → get_placement p.row.id w.db ≡ some q → smb_refusal q w.db ≡ none)
      (r : Ready ns lab ls (p ∷ ps) (p.row.id ∷ todo) w.db) where
    asked-Ready :
        Goes (destroy_placement out p.row.id actor w)
        × Ready ns lab ls ps todo (destroy_placement out p.row.id actor w).1.db
    unfolding destroy_placement tear_down update_placement asked order running
    asked-Ready = elim (Option-cases (get_placement p.row.id w.db)) [
      | inl g ↦ rw g ((tt, refl), Ready-tail (Ready-none p.row.id todo w.db l g r))
      | inr (q, g) ↦
          rw (g, free q g)
            (
              (
                (asked-Returns out accepts q actor).value (marked w),
                (asked-Returns out accepts q actor).at (marked w),
              ),
              (asked-Keeps todo q actor).at (marked w)
                  (Ready-tail (Ready-mark p.row.id w.now todo w.db _ refl refl refl r)),
            )
    ]
      where
        marked : World Q → World Q
        marked v = record v { db = update_placement p.row.id (torn_down v.now) v.db }

    forced-Ready :
        p.node.online ≡ false
        → Goes (force_delete_placement out p.row.id actor w)
          × Ready ns lab ls ps todo (force_delete_placement out p.row.id actor w).1.db
    unfolding force_delete_placement force_delete ◌>>=◌ gets pure
    forced-Ready o = elim (Option-cases (get_placement p.row.id w.db)) [
      | inl g ↦ rw g ((tt, refl), Ready-tail (Ready-none p.row.id todo w.db l g r))
      | inr (q, g) ↦
          rw (g, force-forced out p.row.id q actor w (offline q g o) (free q g))
            (
              (
                (forced-Returns out accepts p.row.id q actor).value w,
                (forced-Returns out accepts p.row.id q actor).at w,
              ),
              forced_db accepts p.row.id todo q actor w (Ready-tail r),
            )
    ]
      where
        offline :
            (q : Placed)
            → get_placement p.row.id w.db ≡ some q
            → p.node.online ≡ false
            → q.node.online ≡ false
        offline q g o =
            ap (λ (n : Node). n.online) (found_node p q (p.row.id ∷ todo) w.db r g).0 ∙ o

    -- One placement is torn down, if nothing depends on it.
    pub step-Ready :
        (force : Bool)
        → Goes (tear_down_one out force actor p w)
          × Ready ns lab ls ps todo (tear_down_one out force actor p w).1.db
    unfolding tear_down_one
    step-Ready force = elim (Bool-cases (force && not p.node.online)) [
      | inr b ↦
          rw (b, then_pure (destroy_placement out p.row.id actor) 1 w asked-Ready.0)
            ((1, refl), asked-Ready.1)
      | inl b ↦
          let done = forced-Ready (offline p.node.online b) in
          rw (b, then_pure (force_delete_placement out p.row.id actor) 0 w done.0)
            ((0, refl), done.1)
    ]
      where
        offline : (o : Bool) → (force && not o) ≡ true → o ≡ false
        offline o k = ground arith
