-- ===== src/Membership/Destruction.antt =====
-- The end of a lab (`destroyLab` of controller/src/lib/labs.ts): it goes through.
use mathlib.Core.Path.{subst}
use docker_mass_deployment.Base.{
  ℕ, ◌+◌, String, ◌≡◌, refl, sym, ap, ◌∙◌, Bool, true, false, true≢false, not, Option, none, some,
  List, [], ◌∷◌, ltb, ◌==◌, ==_iff, All, any, find?, filter, map, opt_is, Bool-cases, Option-cases,
  inl, inr, arith,
}
use docker_mass_deployment.Outside.{Outside, Accepts}
use docker_mass_deployment.Store.Rows.{Lab, LabMember, Placement, Table, with_rows}
use docker_mass_deployment.Store.World.{
  Db, World, Outcome, ok, ◌>>=◌, ◌>>◌, pure, gets, modify, running,
}
use docker_mass_deployment.Placements.Tables.{
  Placed, find_lab, list_placements, audit, insert_audit,
}
use docker_mass_deployment.Placements.Change.{is_smb}
use docker_mass_deployment.Placements.Invariant.{WellFormed}
use docker_mass_deployment.Labs.Roster.{heads_lab, delete_student, joins}
use docker_mass_deployment.Labs.{
  still_member, drop_orphan, drop_orphans, remove_lab, delete_lab, tear_down_all, clients_first,
  finish_lab, DestroyLabResult, removed_note, destroy_found, destroy_lab,
}
use docker_mass_deployment.Membership.Closed.{drop_orphan-Keeps}
use docker_mass_deployment.Membership.Operations.{tear_down_all-Keeps}
use docker_mass_deployment.Membership.Heads.{Rostered, PiIn}
use docker_mass_deployment.Membership.Invariant.{
  Enrolled, Enrolled-Enrolling, delete_placements-Same,
}
use docker_mass_deployment.Membership.Loops.{bind_at, clients-Goes}
use docker_mass_deployment.Membership.Blocking.{OwnersServed, find?-All}
use docker_mass_deployment.Membership.Emptying.{Goes}
use docker_mass_deployment.Membership.Listing.{filter-holds, clients, owners, start-Ready}

-- A PI is on the roster of the lab, so a student who is on none heads none.
heads_none :
    (id : ℕ) (ms : List LabMember) (ls : List Lab)
    → any (λ (m : LabMember). m.student_id == id) ms ≡ false
    → Rostered ms ls
    → any (λ (l : Lab). opt_is l.pi_student_id id) ls ≡ false
heads_none id ms [] e h = refl
heads_none id ms (l ∷ ls) e (h, hs) = rw (free l.pi_student_id h) (heads_none id ms ls e hs)
  where
    off :
        (s : ℕ) (xs : List LabMember)
        → any (λ (m : LabMember). m.student_id == id) xs ≡ false
        → any (joins l.id s) xs ≡ true
        → (s == id) ≡ false
    off s [] k j = absurd (true≢false (sym j))
    off s (m ∷ xs) k j = ground (arith, off s xs)

    free : (pi : Option ℕ) → PiIn ms l.id pi → opt_is pi id ≡ false
    free none j = refl
    free (some s) j = off s ms e j

orphan_heads : (id : ℕ) (d : Db) → Enrolled d → still_member id d ≡ false → heads_lab id d ≡ false
unfolding heads_lab
orphan_heads id d h e = heads_none id d.lab_members.rows d.labs.rows e h.heads

find?-filter :
    (id : ℕ) (ls : List Lab) → find? (λ l. l.id == id) (filter (λ l. not (l.id == id)) ls) ≡ none
find?-filter id [] = refl
find?-filter id (l ∷ ls) = ground (arith, find?-filter id ls)

gone : (id : ℕ) (d e : Db) → e.labs ≡ (delete_lab id d).labs → find_lab id e ≡ none
unfolding find_lab delete_lab
gone id d e same =
    ap (λ (t : Table Lab). find? (λ l. l.id == id) t.rows)
      (same
        ∙ ap (with_rows (filter (λ (l : Lab). not (l.id == id))))
            (delete_placements-Same (filter (λ (p : Placement). p.lab_id == id) d.placements.rows)
              d).1)
    ∙ find?-filter id d.labs.rows

none_deleted : {A : Type 0} → false ≡ true → A
none_deleted k = absurd (true≢false (sym k))

-- The action returns and leaves the labs.
abbrev Drops : {Q A : Type 0} → Table Lab → Outcome A × World Q → Type 0
Drops t x = Goes x × (x.1.db.labs ≡ t)

-- The destruction of the lab `id` returns, and if it says that the lab is deleted then it is.
abbrev pub Ends : {Q : Type 0} → ℕ → Outcome DestroyLabResult × World Q → Type 0
Ends id (r, w) =
    (a : DestroyLabResult) × ((r ≡ ok a) × (a.deleted ≡ true → find_lab id w.db ≡ none))

module _ {Q : Type 0} where
  drop_orphan-Drops : (id : ℕ) (w : World Q) → Enrolled w.db → Drops w.db.labs (drop_orphan id w)
  unfolding drop_orphan delete_student running
  drop_orphan-Drops id w h = elim (Bool-cases (still_member id w.db)) [
    | inl e ↦ rw e ((0, refl), refl)
    | inr e ↦ rw (e, orphan_heads id w.db h e) ((1, refl), refl)
  ]

  drop_orphans-Drops :
      (ids : List ℕ) (n : ℕ) (w : World Q) → Enrolled w.db → Drops w.db.labs (drop_orphans ids n w)
  unfolding drop_orphans pure
  drop_orphans-Drops [] n w h = ((n, refl), refl)
  drop_orphans-Drops (id ∷ ids) n w h =
      let ((k, e), same) = drop_orphan-Drops id w h in
      let (g, rest) =
        drop_orphans-Drops ids (n + k) (drop_orphan id w).1
          ((drop_orphan-Keeps Enrolled-Enrolling id).at w h) in
      bind_at (Drops w.db.labs) (drop_orphan id) (λ i. drop_orphans ids (n + i)) w k e
        (g, rest ∙ same)

  -- What follows the drops.
  told-Ends :
      (id k : ℕ) (lab : Lab) (actor : Option String) (w : World Q)
      → find_lab id w.db ≡ none
      → Ends id (
          (audit actor "lab.delete" (some lab.name) (removed_note k)
              >> pure (record { deleted = true; teardown_started = 0 }))
            w)
  unfolding audit insert_audit find_lab running
  told-Ends id k lab actor w f = (_, (refl, (λ e. f)))

  remove_lab-Ends :
      (lab : Lab) (actor : Option String) (w : World Q)
      → Enrolled w.db
      → Ends lab.id (remove_lab lab actor w)
  unfolding remove_lab gets modify ◌>>=◌ ◌>>◌
  remove_lab-Ends lab actor w h =
      let v = record w { db = delete_lab lab.id w.db } in
      let ids =
        map (λ (m : LabMember). m.student_id)
          (filter (λ m. m.lab_id == lab.id) w.db.lab_members.rows) in
      let ((k, e), same) = drop_orphans-Drops ids 0 v (Enrolled-Enrolling.no_lab lab.id w.db h) in
      bind_at (Ends lab.id) (drop_orphans ids 0)
        (λ n.
          audit actor "lab.delete" (some lab.name) (removed_note n)
          >> pure (record { deleted = true; teardown_started = 0 }))
        v k e
        (told-Ends lab.id k lab actor (drop_orphans ids 0 v).1
          (gone lab.id w.db (drop_orphans ids 0 v).1.db same))

module _ {Q : Type 0} (out : Outside Q) where
  finish_lab-Ends :
      (lab : Lab) (actor : Option String) (n : ℕ) (w : World Q)
      → Enrolled w.db
      → Ends lab.id (finish_lab out lab actor n w)
  unfolding pure
  finish_lab-Ends lab actor n w h = elim (Bool-cases (ltb 0 n)) [
    | inl e ↦ rw e (record { deleted = false; teardown_started = n }, (refl, none_deleted))
    | inr e ↦ rw e (remove_lab-Ends lab actor w h)
  ]

  found_id : (id : ℕ) (lab : Lab) (d : Db) → find_lab id d ≡ some lab → lab.id ≡ id
  unfolding find_lab
  found_id id lab d f =
      (==_iff lab.id id).0
        (find?-All (λ (l : Lab). l.id ≡ l.id) (λ l. l.id == id) d.labs.rows lab
          (all_same d.labs.rows) f).1
    where
      all_same : (ls : List Lab) → All (λ (l : Lab). l.id ≡ l.id) ls
      all_same [] = tt
      all_same (l ∷ ls) = (refl, all_same ls)

  destroy_found-Ends :
      Accepts out
      → (force : Bool) (actor : Option String) (lab : Lab) (w : World Q)
      → find_lab lab.id w.db ≡ some lab
      → WellFormed w.db
      → Enrolled w.db
      → OwnersServed w.db.nodes.rows
      → Ends lab.id (destroy_found out force actor (some lab) w)
  unfolding find_lab gets ◌>>=◌
  destroy_found-Ends accepts force actor lab w f wf h served =
      let ps = list_placements lab.id w.db in
      let (k, e) =
        clients-Goes out accepts served f force actor (clients ps) (owners ps) 0 w
          (filter-holds (λ (p : Placed). is_smb p.node.cold_backend) ps)
          (start-Ready w.db lab f wf.placements) in
      bind_at (Ends lab.id) (tear_down_all out force actor (clients_first ps) 0)
        (finish_lab out lab actor) w k e
        (finish_lab-Ends lab actor k _
          ((tear_down_all-Keeps Enrolled-Enrolling out force actor (clients_first ps) 0).at w h))

  -- Suppose that the queue engine takes every job, that placements are well-formed, that the PI of each lab is on its roster, and that only
  -- SMB clients name a cold-storage owner. Then the destruction of a lab, forced or not, never
  -- throws, since it tears the SMB clients down before the nodes that own their storage and since a
  -- student who is in no lab any more is no lab's PI; and if it answers that the lab is deleted, no
  -- lab has its id any more.
  pub destroy_lab-Ends :
      Accepts out
      → (id : ℕ) (actor : Option String) (force : Bool) (w : World Q) → WellFormed w.db
      → Enrolled w.db
      → OwnersServed w.db.nodes.rows
      → Ends id (destroy_lab out id actor force w)
  unfolding destroy_lab gets ◌>>=◌ pure
  destroy_lab-Ends accepts id actor force w wf h served = elim (Option-cases (find_lab id w.db)) [
    | inl e ↦ rw e (record { deleted = false; teardown_started = 0 }, (refl, none_deleted))
    | inr (lab, e) ↦
        let same = found_id id lab w.db e in
        rw e (
          subst (λ i. Ends i (destroy_found out force actor (some lab) w)) same
            (destroy_found-Ends accepts force actor lab w (ap (λ i. find_lab i w.db) same ∙ e) wf h
              served))
  ]
