-- ===== src/Membership/Operations.antt =====
-- The operations of controller/src/lib/labs.ts and students.ts against the closed invariants.
use docker_mass_deployment.Base.{
  ℕ, ◌+◌, String, Bool, true, false, Option, none, some, List, [], ◌∷◌,
}
use docker_mass_deployment.Outside.{Outside}
use docker_mass_deployment.Store.Rows.{Student, Lab}
use docker_mass_deployment.Store.World.{Db}
use docker_mass_deployment.Store.Keeps.{Keeps, keeping, >>=-Keeps}
use docker_mass_deployment.Placements.Tables.{Placed}
use docker_mass_deployment.Placements.Closed.Operations.{
  provision_member_on_placement-Keeps, destroy_placement-Keeps, force_delete_placement-Keeps,
}
use docker_mass_deployment.Labs.{tear_down_one, tear_down_all, destroy_found, destroy_lab}
use docker_mass_deployment.Students.{
  StudentInput, provision_on, provision_everywhere, ensure_pi_access, add_student_to_lab,
  CopyMembersResult, copy_one, copy_all, copy_members,
}
use docker_mass_deployment.Membership.Closed.{
  Enrolling, lab_audit-Keeps, appoint_pi-Keeps, enroll-Keeps, find_or_create_student-Keeps,
  remove_lab-Keeps,
}

module _ {Q : Type 0} {P : Db → Type 0} (c : Enrolling P) (out : Outside Q) where
  provision_on-Keeps :
      (s : Student) (actor : Option String) (ps : List Placed) (done : List String)
      → Keeps P (provision_on out s actor ps done)
  unfolding provision_on
  provision_on-Keeps s actor [] done = search keeping
  provision_on-Keeps s actor (p ∷ ps) done =
      >>=-Keeps _ _ (provision_member_on_placement-Keeps c.placements out p s actor)
        λ res. provision_on-Keeps s actor ps _

  provision_everywhere-Keeps :
      (lab : ℕ) (s : Student) (actor : Option String)
      → Keeps P (provision_everywhere out lab s actor)
  unfolding provision_everywhere
  provision_everywhere-Keeps lab s actor = search (keeping, provision_on-Keeps) depth 8

  pub ensure_pi_access-Keeps :
      (id : ℕ) (input : StudentInput) (actor : Option String)
      → Keeps P (ensure_pi_access out id input actor)
  unfolding ensure_pi_access
  ensure_pi_access-Keeps id input actor =
      search
        (
          keeping, find_or_create_student-Keeps, appoint_pi-Keeps, lab_audit-Keeps,
          provision_everywhere-Keeps,
        )
        depth 30

  pub add_student_to_lab-Keeps :
      (id : ℕ) (input : StudentInput) (actor : Option String)
      → Keeps P (add_student_to_lab out id input actor)
  unfolding add_student_to_lab
  add_student_to_lab-Keeps id input actor =
      search
        (
          keeping, find_or_create_student-Keeps, enroll-Keeps, lab_audit-Keeps,
          provision_everywhere-Keeps,
        )
        depth 30

  copy_one-Keeps :
      (b : Bool) (to : ℕ) (s : Student) (actor : Option String) (n : CopyMembersResult)
      → Keeps P (copy_one out b to s actor n)
  copy_one-Keeps true to s actor n = search keeping
  copy_one-Keeps false to s actor n = search (keeping, add_student_to_lab-Keeps)

  copy_all-Keeps :
      (to : ℕ) (actor : Option String) (ss : List Student) (n : CopyMembersResult)
      → Keeps P (copy_all out to actor ss n)
  unfolding copy_all
  copy_all-Keeps to actor [] n = search keeping
  copy_all-Keeps to actor (s ∷ ss) n =
      search (keeping, copy_one-Keeps, λ (n' : CopyMembersResult). copy_all-Keeps to actor ss n')
        depth 8

  pub copy_members-Keeps :
      (source to : ℕ) (actor : Option String) → Keeps P (copy_members out source to actor)
  unfolding copy_members
  copy_members-Keeps source to actor = search (keeping, copy_all-Keeps)

  tear_down_one-Keeps :
      (force : Bool) (actor : Option String) (p : Placed)
      → Keeps P (tear_down_one out force actor p)
  unfolding tear_down_one
  tear_down_one-Keeps force actor p = search (
    keeping,
    destroy_placement-Keeps c.placements out,
    force_delete_placement-Keeps c.placements out,
  )

  pub tear_down_all-Keeps :
      (force : Bool) (actor : Option String) (ps : List Placed) (n : ℕ)
      → Keeps P (tear_down_all out force actor ps n)
  unfolding tear_down_all
  tear_down_all-Keeps force actor [] n = search keeping
  tear_down_all-Keeps force actor (p ∷ ps) n =
      search (keeping, tear_down_one-Keeps, λ (k : ℕ). tear_down_all-Keeps force actor ps (n + k))

  destroy_found-Keeps :
      (force : Bool) (actor : Option String) (found : Option Lab)
      → Keeps P (destroy_found out force actor found)
  destroy_found-Keeps force actor none = search keeping
  destroy_found-Keeps force actor (some lab) =
      search (keeping, tear_down_all-Keeps, remove_lab-Keeps) depth 8

  pub destroy_lab-Keeps :
      (id : ℕ) (actor : Option String) (force : Bool) → Keeps P (destroy_lab out id actor force)
  unfolding destroy_lab
  destroy_lab-Keeps id actor force = search (keeping, destroy_found-Keeps)
