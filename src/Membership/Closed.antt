-- ===== src/Membership/Closed.antt =====
-- Which invariants of the database the operations on labs and students keep: those that are closed
-- under the statements they run.
use docker_mass_deployment.Base.{
  ℕ, ◌+◌, String, ◌≡◌, refl, true, false, Option, none, some, List, [], ◌∷◌, Bool-cases,
  Option-cases, codes, inl, inr, if◌then◌else◌,
}
use docker_mass_deployment.Store.Rows.{Student, Lab}
use docker_mass_deployment.Store.World.{Db, World, modify, running}
use docker_mass_deployment.Store.Keeps.{Keeps, keeping, modify-Keeps}
use docker_mass_deployment.Placements.Tables.{audit}
use docker_mass_deployment.Placements.Closed.{Closed, audit-Keeps}
use docker_mass_deployment.Labs.Roster.{
  insert_student, update_contact, appoint, heads_lab, delete_student, is_lab_member,
  insert_lab_member, delete_lab_member,
}
use docker_mass_deployment.Labs.{
  CreateLabInput, is_valid_lab_name, get_lab_by_name, created_lab, new_lab, insert_lab, update_lab,
  UpdateLabMetaInput, set_pi_name, set_pi_email, touch_lab, delete_lab, create_lab, update_lab_meta,
  still_member, drop_orphan, drop_orphans, remove_lab,
}
use docker_mass_deployment.Students.{
  StudentInput, is_pi_of, add_student, found_or_added, find_or_create_student, enroll, appoint_pi,
}

-- An update that leaves the key and the PI of a lab alone.
pub record IsLabKeyed (f : Lab → Lab) : Type 0 where
  pub id : (l : Lab) → (f l).id ≡ l.id
  pub name : (l : Lab) → (f l).name ≡ l.name
  pub pi : (l : Lab) → (f l).pi_student_id ≡ l.pi_student_id

-- What `appointPi` writes: the contact, the lab's PI, and the membership if it is missing.
abbrev pub seated : ℕ → ℕ → Option String → Option String → ℕ → Db → Db
seated lab student name email now d =
    let d' = appoint lab student name email now (update_contact student email name now d) in
    if is_lab_member lab student d' then d' else insert_lab_member lab student now d'

pub record Enrolling (P : Db → Type 0) : Type 0 where
  pub placements : Closed P
  pub student : (s : Student) (d : Db) → P d → P (insert_student s d)
  pub seat :
      (lab student : ℕ) (name email : Option String) (now : ℕ) (d : Db)
      → P d
      → P (seated lab student name email now d)
  pub join : (lab student now : ℕ) (d : Db) → P d → P (insert_lab_member lab student now d)
  pub leave :
      (lab student : ℕ) (d : Db)
      → is_pi_of lab student d ≡ false
      → P d
      → P (delete_lab_member lab student d)
  pub drop : (id : ℕ) (d : Db) → heads_lab id d ≡ false → P d → P (delete_student id d)
  pub lab :
      (input : CreateLabInput) (now : ℕ) (d : Db)
      → is_valid_lab_name (codes input.name) ≡ true
      → get_lab_by_name input.name d ≡ none
      → P d
      → P (insert_lab (new_lab input now) d)
  pub meta : (id : ℕ) (f : Lab → Lab) → IsLabKeyed f → (d : Db) → P d → P (update_lab id f d)
  pub no_lab : (id : ℕ) (d : Db) → P d → P (delete_lab id d)

set_pi_name-IsLabKeyed : (name : Option (Option String)) → IsLabKeyed (set_pi_name name)
set_pi_name-IsLabKeyed none = record { id = λ l. refl; name = λ l. refl; pi = λ l. refl }
set_pi_name-IsLabKeyed (some name) = record { id = λ l. refl; name = λ l. refl; pi = λ l. refl }

set_pi_email-IsLabKeyed : (email : Option (Option String)) → IsLabKeyed (set_pi_email email)
set_pi_email-IsLabKeyed none = record { id = λ l. refl; name = λ l. refl; pi = λ l. refl }
set_pi_email-IsLabKeyed (some email) = record { id = λ l. refl; name = λ l. refl; pi = λ l. refl }

touch_lab-IsLabKeyed : (now : ℕ) → IsLabKeyed (touch_lab now)
touch_lab-IsLabKeyed now = record { id = λ l. refl; name = λ l. refl; pi = λ l. refl }

module _ {Q : Type 0} {P : Db → Type 0} (c : Enrolling P) where
  insert_student-Keeps : (s : Student) → Keeps {Q = Q} P (modify (insert_student s))
  insert_student-Keeps s = modify-Keeps _ (c.student s)

  insert_lab_member-Keeps :
      (lab student now : ℕ) → Keeps {Q = Q} P (modify (insert_lab_member lab student now))
  insert_lab_member-Keeps lab student now = modify-Keeps _ (c.join lab student now)

  update_lab-Keeps :
      (id : ℕ) (f : Lab → Lab) → IsLabKeyed f → Keeps {Q = Q} P (modify (update_lab id f))
  update_lab-Keeps id f k = modify-Keeps _ (c.meta id f k)

  delete_lab-Keeps : (id : ℕ) → Keeps {Q = Q} P (modify (delete_lab id))
  delete_lab-Keeps id = modify-Keeps _ (c.no_lab id)

  pub lab_audit-Keeps :
      (actor : Option String) (action : String) (target detail : Option String)
      → Keeps {Q = Q} P (audit actor action target detail)
  lab_audit-Keeps actor action target detail = audit-Keeps c.placements actor action target detail

  pub appoint_pi-Keeps :
      (lab student : ℕ) (name email : Option String)
      → Keeps {Q = Q} P (appoint_pi lab student name email)
  unfolding appoint_pi enroll running
  appoint_pi-Keeps lab student name email = record {
    at = λ w h. step w (c.seat lab student name email w.now w.db h);
  }
    where
      step :
          (w : World Q)
          → P (seated lab student name email w.now w.db)
          → P (appoint_pi lab student name email w).1.db
      step w =
          elim (Bool-cases (
            is_lab_member lab student (
              appoint lab student name email w.now
                (update_contact student email name w.now w.db)))) [
                  | inl e ↦ rw e (λ k. k)
                  | inr e ↦ rw e (λ k. k)
                ]

  pub enroll-Keeps : (lab student : ℕ) → Keeps {Q = Q} P (enroll lab student)
  unfolding enroll
  enroll-Keeps lab student = search (keeping, insert_lab_member-Keeps)

  add_student-Keeps : (input : StudentInput) → Keeps {Q = Q} P (add_student input)
  unfolding add_student
  add_student-Keeps input = search (keeping, insert_student-Keeps) depth 20

  found_or_added-Keeps :
      (input : StudentInput) (found : Option Student) → Keeps {Q = Q} P (found_or_added input found)
  unfolding found_or_added
  found_or_added-Keeps input none = add_student-Keeps input
  found_or_added-Keeps input (some s) = search keeping

  pub find_or_create_student-Keeps :
      (input : StudentInput) → Keeps {Q = Q} P (find_or_create_student input)
  unfolding find_or_create_student
  find_or_create_student-Keeps input = search (keeping, found_or_added-Keeps)

  created_lab-Keeps : (input : CreateLabInput) → Keeps {Q = Q} P (created_lab input)
  unfolding created_lab
  created_lab-Keeps input = search (keeping, lab_audit-Keeps) depth 8

  pub create_lab-Keeps : (input : CreateLabInput) → Keeps {Q = Q} P (create_lab input)
  unfolding create_lab running
  create_lab-Keeps input = record { at = λ w. step w }
    where
      step : (w : World Q) → P w.db → P (create_lab input w).1.db
      step w h = elim (Bool-cases (is_valid_lab_name (codes input.name))) [
        | inr v ↦ rw v h
        | inl v ↦ elim (Option-cases (get_lab_by_name input.name w.db)) [
          | inr (l, g) ↦ rw (v, g) h
          | inl g ↦
              rw (v, g)
                ((created_lab-Keeps input).at
                  (record w { db = insert_lab (new_lab input w.now) w.db })
                  (c.lab input w.now w.db v g h))
        ]
      ]

  pub update_lab_meta-Keeps :
      (id : ℕ) (input : UpdateLabMetaInput) (actor : Option String)
      → Keeps {Q = Q} P (update_lab_meta id input actor)
  unfolding update_lab_meta
  update_lab_meta-Keeps id input actor =
      search
        (
          keeping, update_lab-Keeps, lab_audit-Keeps, set_pi_name-IsLabKeyed,
          set_pi_email-IsLabKeyed, touch_lab-IsLabKeyed,
        )
        depth 20

  pub drop_orphan-Keeps : (id : ℕ) → Keeps {Q = Q} P (drop_orphan id)
  unfolding drop_orphan running
  drop_orphan-Keeps id = record { at = λ w. step w }
    where
      step : (w : World Q) → P w.db → P (drop_orphan id w).1.db
      step w h = elim (Bool-cases (still_member id w.db)) [
        | inl e ↦ rw e h
        | inr e ↦ elim (Bool-cases (heads_lab id w.db)) [
          | inl k ↦ rw (e, k) h
          | inr k ↦ rw (e, k) (c.drop id w.db k h)
        ]
      ]

  drop_orphans-Keeps : (ids : List ℕ) (n : ℕ) → Keeps {Q = Q} P (drop_orphans ids n)
  unfolding drop_orphans
  drop_orphans-Keeps [] n = search keeping
  drop_orphans-Keeps (id ∷ ids) n =
      search (keeping, drop_orphan-Keeps, λ (k : ℕ). drop_orphans-Keeps ids (n + k))

  pub remove_lab-Keeps :
      (lab : Lab) (actor : Option String) → Keeps {Q = Q} P (remove_lab lab actor)
  unfolding remove_lab
  remove_lab-Keeps lab actor =
      search (keeping, delete_lab-Keeps, drop_orphans-Keeps, lab_audit-Keeps) depth 20
