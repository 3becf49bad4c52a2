-- ===== src/Tests/Rosters.antt =====
-- The theorems on labs and students at the campus, whose lab has a PI here.
use docker_mass_deployment.Base.{length, refl, true, none, some, List, [], ◌∷◌}
use docker_mass_deployment.Outside.{TaskFrame, Accepts}
use docker_mass_deployment.Store.World.{Db, World}
use docker_mass_deployment.Labs.{is_valid_lab_name, destroy_lab}
use docker_mass_deployment.Students.{StudentInput}
use docker_mass_deployment.Membership.Blocking.{OwnersServed}
use docker_mass_deployment.Membership.Requests.{Request, new, pi, add, remove, destroy}
use docker_mass_deployment.Membership.Invariant.{Enrolled}
use docker_mass_deployment.Membership.Sequences.{after_all, requests-Enrolled}
use docker_mass_deployment.Membership.Destruction.{Ends, destroy_lab-Ends}
use docker_mass_deployment.Tests.{toy, smith, campus, campus_db}
use docker_mass_deployment.Tests.Runs.{campus-WellFormed}

abbrev headed_db : Db
headed_db = record campus_db {
  labs = record { rows = record smith { pi_student_id = some 1 } ∷ []; last_id = 1 };
  lab_members = record {
    rows = record { id = 1; lab_id = 1; student_id = 1; created_at = 0 } ∷ [];
    last_id = 1;
  };
}

abbrev headed_campus : World (List TaskFrame)
headed_campus = record campus { db = headed_db }

abbrev bob : StudentInput
bob = record { username = " Bob "; email = some "Bob@Campus"; name = none; student_id = none }

abbrev requests : List Request
requests =
    add 1 bob none
    ∷ pi 1 bob none
    ∷ remove 1 1 true (some "root")
    ∷ new (record { name = "reed"; pi_name = none; pi_email = none; actor = none })
    ∷ destroy 1 none true
    ∷ []

headed-Enrolled : Enrolled headed_db
unfolding is_valid_lab_name
headed-Enrolled = record {
  students = (refl, tt);
  uids = (refl, tt);
  labs = (refl, tt);
  names = (refl, tt);
  heads = (refl, tt);
}

headed-OwnersServed : OwnersServed headed_db.nodes.rows
headed-OwnersServed = (tt, (refl, tt))

requests-Enrolled_example : Enrolled (after_all toy requests headed_campus).db
requests-Enrolled_example = requests-Enrolled toy requests headed_campus headed-Enrolled

toy-Accepts : Accepts toy
toy-Accepts name p q = (length q, refl)

destroy_lab-Ends_example : Ends 1 (destroy_lab toy 1 (some "root") true headed_campus)
destroy_lab-Ends_example =
    destroy_lab-Ends toy toy-Accepts 1 (some "root") true headed_campus campus-WellFormed
      headed-Enrolled headed-OwnersServed
