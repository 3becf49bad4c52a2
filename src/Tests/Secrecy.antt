-- ===== src/Tests/Secrecy.antt =====
-- The theorem on logged passwords at the campus: `ann` comes to `pond`, and anew to `lake`.
use docker_mass_deployment.Base.{◌≡◌, refl, none, some, [], ◌∷◌, ◌++◌}
use docker_mass_deployment.Format.{decimal}
use docker_mass_deployment.Queue.{enqueue_task, queued_job}
use docker_mass_deployment.Secrets.{encrypt_secret}
use docker_mass_deployment.Secrets.Password.{generate_password}
use docker_mass_deployment.Store.World.{ok, running}
use docker_mass_deployment.Placements.Tables.{Placed, member_refused}
use docker_mass_deployment.Placements.Members.{add_member, provision_new, reprovision_member}
use docker_mass_deployment.Placements.Secrecy.{logged, account, provisioning-Logged}
use docker_mass_deployment.Tests.{toy, ann, ann_on_lake, lake, pond, smith, on_pond, campus}

abbrev pond_placed : Placed
pond_placed = record { row = on_pond; lab = smith; node = pond; cold_owner = some lake }

new_runs : (provision_new toy pond_placed ann none campus).0 ≡ ok (some "pond")
unfolding provision_new add_member member_refused enqueue_task queued_job encrypt_secret
    generate_password decimal running
new_runs = refl

anew_runs : (reprovision_member toy pond_placed none (ann_on_lake, ann) campus).0 ≡ ok tt
unfolding reprovision_member enqueue_task queued_job encrypt_secret generate_password decimal
    running
anew_runs = refl

provisioning-Logged_example :
    (logged (provision_new toy pond_placed ann none campus).1.db
      ≡ logged campus.db ++ account pond_placed ann ∷ [])
    × (logged (reprovision_member toy pond_placed none (ann_on_lake, ann) campus).1.db
        ≡ logged campus.db ++ account pond_placed ann ∷ [])
provisioning-Logged_example =
    provisioning-Logged toy pond_placed ann ann_on_lake none campus campus (some "pond") new_runs
      anew_runs
