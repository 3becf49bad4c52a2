-- ===== src/Membership/Sequences.antt =====
-- Sequences of requests on labs and students (controller/src/lib/labs.ts and students.ts) and the
-- invariants they keep.
use docker_mass_deployment.Base.{List, [], ◌∷◌}
use docker_mass_deployment.Outside.{Outside}
use docker_mass_deployment.Store.World.{Db, World}
use docker_mass_deployment.Membership.Closed.{Enrolling}
use docker_mass_deployment.Membership.Requests.{Request, after, after-Keeps}
use docker_mass_deployment.Membership.Invariant.{Enrolled, Enrolled-Enrolling}

abbrev pub after_all : {Q : Type 0} → Outside Q → List Request → World Q → World Q
after_all out [] w = w
after_all out (r ∷ rs) w = after_all out rs (after out r w)

module _ {Q : Type 0} (out : Outside Q) where
  after_all-Keeps :
      {P : Db → Type 0}
      → Enrolling P
      → (rs : List Request) (w : World Q) → P w.db
      → P (after_all out rs w).db
  after_all-Keeps c [] w h = h
  after_all-Keeps c (r ∷ rs) w h = after_all-Keeps c rs (after out r w) (after-Keeps out c r w h)

  -- After any sequence of requests on labs and students (a new lab, new contact data of a PI, a PI's
  -- appointment, a student added, a roster copied, a student removed, a lab destroyed), whether each
  -- of them returns or throws: if students have distinct ids, student ids, user names and UIDs, and
  -- UIDs from 10000 to 59999, labs have distinct and valid names, and the PI of each lab is on its
  -- roster, then all this still holds.
  pub requests-Enrolled :
      (rs : List Request) (w : World Q) → Enrolled w.db → Enrolled (after_all out rs w).db
  requests-Enrolled rs w = after_all-Keeps Enrolled-Enrolling rs w
