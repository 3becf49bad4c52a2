-- ===== src/Membership/Requests.antt =====
-- The requests on labs and students, and what all of them keep: the removal of a student is checked
-- against the lab's PI first.
use docker_mass_deployment.Base.{
  ℕ, String, ◌≡◌, Bool, true, false, ◌&&◌, ◌==◌, any, opt_is, Option, none, some, List, [], ◌∷◌,
  arith, Bool-cases, Option-cases, inl, inr,
}
use docker_mass_deployment.Outside.{Outside}
use docker_mass_deployment.Store.Rows.{Lab, Student, Table, Placement, Member}
use docker_mass_deployment.Store.World.{Db, World, modify, running}
use docker_mass_deployment.Store.Keeps.{Keeps, keeping, modify-Keeps}
use docker_mass_deployment.Queue.{insert_task}
use docker_mass_deployment.Placements.Tables.{
  Placed, find_lab, insert_placement, update_placement, delete_placement, insert_member,
  update_member, delete_member, insert_audit,
}
use docker_mass_deployment.Placements.Closed.{Closed, audit-Keeps}
use docker_mass_deployment.Placements.Closed.Operations.{remove_member_from_placement-Keeps}
use docker_mass_deployment.Labs.Roster.{delete_lab_member}
use docker_mass_deployment.Labs.{
  CreateLabInput, UpdateLabMetaInput, create_lab, update_lab_meta, destroy_lab,
}
use docker_mass_deployment.Students.{
  StudentInput, is_pi_of, lab_member, removal_of, mail_removal, remove_found, ensure_pi_access,
  add_student_to_lab, copy_members, remove_student_from_lab,
}
use docker_mass_deployment.Membership.Closed.{Enrolling, create_lab-Keeps, update_lab_meta-Keeps}
use docker_mass_deployment.Membership.Operations.{
  destroy_lab-Keeps, ensure_pi_access-Keeps, add_student_to_lab-Keeps, copy_members-Keeps,
}

insert_placement-labs : (p : Placement) (d : Db) → (insert_placement p d).labs ≡ d.labs
unfolding insert_placement
insert_placement-labs p d = ground arith

insert_member-labs : (m : Member) (d : Db) → (insert_member m d).labs ≡ d.labs
unfolding insert_member
insert_member-labs m d = ground arith

-- What is said of the labs is kept by all that writes placements.
of_labs-Closed : (R : Table Lab → Type 0) → Closed (λ d. R d.labs)
unfolding insert_task insert_audit update_placement delete_placement update_member delete_member
of_labs-Closed R = record {
  task = λ node f job d h. h;
  log_audit = λ row d h. h;
  new_placement = λ p d h. rw (insert_placement-labs p d) h;
  placement = λ id f k d h. h;
  no_placement = λ id d h. h;
  new_member = λ m d h. rw (insert_member-labs m d) h;
  member = λ id f k d h. h;
  no_member = λ p s d h. h;
}

both-Closed : {P R : Db → Type 0} → Closed P → Closed R → Closed (λ d. P d × R d)
both-Closed p r = record {
  task = λ node f job d h. (p.task node f job d h.0, r.task node f job d h.1);
  log_audit = λ row d h. (p.log_audit row d h.0, r.log_audit row d h.1);
  new_placement = λ x d h. (p.new_placement x d h.0, r.new_placement x d h.1);
  placement = λ id f k d h. (p.placement id f k d h.0, r.placement id f k d h.1);
  no_placement = λ id d h. (p.no_placement id d h.0, r.no_placement id d h.1);
  new_member = λ m d h. (p.new_member m d h.0, r.new_member m d h.1);
  member = λ id f k d h. (p.member id f k d h.0, r.member id f k d h.1);
  no_member = λ x s d h. (p.no_member x s d h.0, r.no_member x s d h.1);
}

module _ {Q : Type 0} {P : Db → Type 0} (c : Enrolling P) (out : Outside Q) where
  -- The lab's PI is another student.
  abbrev Other : ℕ → ℕ → Db → Type 0
  Other lab student d = P d × (is_pi_of lab student d ≡ false)

  Other-Closed : (lab student : ℕ) → Closed (Other lab student)
  unfolding is_pi_of
  Other-Closed lab student =
      both-Closed c.placements (
        of_labs-Closed λ t. any (λ l. l.id == lab && opt_is l.pi_student_id student) t.rows ≡ false)

  delete_lab_member-Keeps :
      (lab student : ℕ) → Keeps {Q = Q} (Other lab student) (modify (delete_lab_member lab student))
  unfolding is_pi_of delete_lab_member
  delete_lab_member-Keeps lab student = modify-Keeps _ λ d h. (c.leave lab student d h.1 h.0, h.1)

  removal_of-Keeps : {R : Db → Type 0} (b : Bool) (ps : List Placed) → Keeps R (removal_of out b ps)
  removal_of-Keeps false ps = search keeping
  removal_of-Keeps true [] = search keeping
  removal_of-Keeps true (p ∷ ps) = search keeping

  mail_removal-Keeps :
      {R : Db → Type 0} (to : Option String) (lab : String) (b : Bool)
      → Keeps {Q = Q} R (mail_removal to lab b)
  mail_removal-Keeps none lab b = search keeping
  mail_removal-Keeps (some to) lab b = search keeping

  remove_found-Keeps :
      (lab : ℕ) (name : String) (student : ℕ) (member : Student) (b : Bool) (actor : Option String)
      → Keeps (Other lab student) (remove_found out lab name student member b actor)
  unfolding remove_found
  remove_found-Keeps lab name student member b actor =
      search
        (
          keeping,
          removal_of-Keeps,
          mail_removal-Keeps,
          delete_lab_member-Keeps,
          remove_member_from_placement-Keeps (Other-Closed lab student) out,
          audit-Keeps (Other-Closed lab student),
        )
        depth 20

  remove_student_from_lab-Keeps :
      (id student : ℕ) (b : Bool) (actor : Option String)
      → Keeps P (remove_student_from_lab out id student b actor)
  unfolding remove_student_from_lab running
  remove_student_from_lab-Keeps id student b actor = record { at = λ w. step w }
    where
      step : (w : World Q) → P w.db → P (remove_student_from_lab out id student b actor w).1.db
      step w h = elim (Option-cases (find_lab id w.db)) [
        | inl e ↦ rw e h
        | inr (lab, e) ↦ elim (Bool-cases (is_pi_of id student w.db)) [
          | inl k ↦ rw (e, k) h
          | inr k ↦ elim (Option-cases (lab_member id student w.db)) [
            | inl m ↦ rw (e, k, m) h
            | inr (s, m) ↦
                rw (e, k, m) ((remove_found-Keeps id lab.name student s b actor).at w (h, k)).0
          ]
        ]
      ]

-- A request on labs and students.
pub data Request : Type 0 where
  new : CreateLabInput → Request
  meta : ℕ → UpdateLabMetaInput → Option String → Request
  pi : ℕ → StudentInput → Option String → Request
  add : ℕ → StudentInput → Option String → Request
  copy : ℕ → ℕ → Option String → Request
  remove : ℕ → ℕ → Bool → Option String → Request
  destroy : ℕ → Option String → Bool → Request

module _ {Q : Type 0} (out : Outside Q) where
  -- The database after the request, whether it returns or throws.
  abbrev pub after : Request → World Q → World Q
  after (new input) w = (create_lab input w).1
  after (meta id input actor) w = (update_lab_meta id input actor w).1
  after (pi id input actor) w = (ensure_pi_access out id input actor w).1
  after (add id input actor) w = (add_student_to_lab out id input actor w).1
  after (copy source to actor) w = (copy_members out source to actor w).1
  after (remove id student b actor) w = (remove_student_from_lab out id student b actor w).1
  after (destroy id actor force) w = (destroy_lab out id actor force w).1

  pub after-Keeps :
      {P : Db → Type 0} → Enrolling P → (r : Request) (w : World Q) → P w.db → P (after r w).db
  after-Keeps c (new input) w = (create_lab-Keeps c input).at w
  after-Keeps c (meta id input actor) w = (update_lab_meta-Keeps c id input actor).at w
  after-Keeps c (pi id input actor) w = (ensure_pi_access-Keeps c out id input actor).at w
  after-Keeps c (add id input actor) w = (add_student_to_lab-Keeps c out id input actor).at w
  after-Keeps c (copy source to actor) w = (copy_members-Keeps c out source to actor).at w
  after-Keeps c (remove id student b actor) w =
      (remove_student_from_lab-Keeps c out id student b actor).at w
  after-Keeps c (destroy id actor force) w = (destroy_lab-Keeps c out id actor force).at w
