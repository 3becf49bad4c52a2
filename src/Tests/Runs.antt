-- ===== src/Tests/Runs.antt =====
-- The theorems on placements and ports at the campus.
use docker_mass_deployment.Base.{
  ℕ, Option, true, String, ◌≡◌, refl, none, some, List, [], ◌∷◌, ◌⊎◌, inl, inr, All, arith,
}
use docker_mass_deployment.Outside.{Outside, TaskFrame, Refused}
use docker_mass_deployment.Format.{decimal}
use docker_mass_deployment.Store.Rows.{PlacementState}
use docker_mass_deployment.Store.World.{World, ok, err, running}
use docker_mass_deployment.Nodes.Cold.{set_node_cold_storage, delete_node}
use docker_mass_deployment.Nodes.Cold.Owners.{IsOwned, set_node_cold_storage-IsOwned}
use docker_mass_deployment.Nodes.Cold.Deletion.{delete_node-IsOwned}
use docker_mass_deployment.Store.Rows.{smb}
use docker_mass_deployment.Placements.Tables.{
  Placed, get_placement, place_all, place, find_lab, find_node, find_student, update_member,
  update_placement, audit,
}
use docker_mass_deployment.Placements.Ports.{used_ports, free_port}
use docker_mass_deployment.Placements.Ports.Least.{IsLeastFree, free_port-IsLeastFree}
use docker_mass_deployment.Placements.Teardown.{
  smb_refusal, tear_down, destroy_placement, force_delete_placement, confirm_placement_destroyed,
  mark_placement_state_by_lab_node,
}
use docker_mass_deployment.Placements.Change.{retry_placement}
use docker_mass_deployment.Queue.{enqueue_task, queued_job}
use docker_mass_deployment.Placements.Credentials.{consume_placement_credential, reveal_row}
use docker_mass_deployment.Placements.Credentials.Once.{consume_placement_credential_once}
use docker_mass_deployment.Placements.Invariant.{WellFormed}
use docker_mass_deployment.Placements.Refusals.{again, answer, answer-unchanged}
use docker_mass_deployment.Placements.Owners.{
  Blocked, Depends, Among, owner-Blocked, destroy_placement-Throws,
}
use docker_mass_deployment.Placements.Destruction.{confirm_after_mark}
use docker_mass_deployment.Secrets.{
  encrypt_secret, decrypt_secret, strip_prefix, split_cipher, cut_colon,
}
use docker_mass_deployment.Tests.{toy, lake, pond, smith, on_lake, on_pond, campus, campus_db}

pub campus-WellFormed : WellFormed campus_db
campus-WellFormed = record {
  placements = (refl, (refl, tt));
  members = (refl, tt);
  placed = (refl, tt);
}

retry_refused : (answer toy (again 1 none) campus).0 ≡ err "Only a failed placement can be retried"
unfolding retry_placement get_placement place_all place find_lab find_node running
retry_refused = refl

answer-unchanged_example : (answer toy (again 1 none) campus).1 ≡ campus ⊎ Refused toy
answer-unchanged_example =
    answer-unchanged toy (again 1 none) campus "Only a failed placement can be retried"
      retry_refused

abbrev lake_placed : Placed
lake_placed = record { row = on_lake; lab = smith; node = lake; cold_owner = none }

abbrev pond_placed : Placed
pond_placed = record { row = on_pond; lab = smith; node = pond; cold_owner = some lake }

lake_found : get_placement 1 campus_db ≡ some lake_placed
unfolding get_placement place_all place find_lab find_node
lake_found = refl

pond_listed : Among pond_placed (place_all campus_db campus_db.placements.rows)
unfolding place_all place find_lab find_node
pond_listed = inr (inl refl)

owner-Blocked_example :
    Blocked (destroy_placement toy 1 none) campus
    × Blocked (force_delete_placement toy 1 none) campus
owner-Blocked_example =
    owner-Blocked toy 1 none lake_placed pond_placed campus lake_found refl pond_listed
      (record { lab = refl; owner = refl; stays = refl })

-- A queue engine that takes no job.
abbrev full : Outside (List TaskFrame)
full = record toy { enqueue = λ name p q. (none, q) }

pond_found : get_placement 2 campus_db ≡ some pond_placed
unfolding get_placement place_all place find_lab find_node
pond_found = refl

pond_full : (destroy_placement full 2 none campus).0 ≡ err "the queue engine failed"
unfolding destroy_placement tear_down enqueue_task queued_job encrypt_secret smb_refusal
    get_placement place_all place find_lab find_node update_placement decimal running
pond_full = refl

pond_free : All (λ q. Depends pond_placed q → ⊥) (place_all campus_db campus_db.placements.rows)
unfolding place_all place find_lab find_node
pond_free = ((λ h. absurd (other h.owner)), ((λ h. absurd (self h.owner)), tt))
  where
    other : ◌≡◌ {A = Option ℕ} none (some 2) → ⊥
    other e = ground arith

    self : ◌≡◌ {A = Option ℕ} (some 1) (some 2) → ⊥
    self e = ground arith

destroy_placement-Throws_example : Refused full
destroy_placement-Throws_example =
    destroy_placement-Throws full 2 none pond_placed campus "the queue engine failed" pond_found
      pond_free pond_full

-- The campus while its placement on `lake` is being deleted.
abbrev ending : World (List TaskFrame)
ending = record campus {
  db = record campus_db {
    placements = record {
      rows = record on_lake { state = PlacementState.deleting } ∷ on_pond ∷ [];
      last_id = 2;
    };
  };
}

-- The late result of the creation of a placement that is being deleted.
abbrev revived : World (List TaskFrame)
revived = (mark_placement_state_by_lab_node "smith" "lake" PlacementState.active none ending).1

confirm_after_mark_example : confirm_placement_destroyed "smith" "lake" revived ≡ (ok tt, revived)
confirm_after_mark_example =
    confirm_after_mark "smith" "lake" PlacementState.active none ending refl

free_port-IsLeastFree_example :
    IsLeastFree (used_ports 1 campus_db) 30000 30002 (free_port 1 campus_db)
free_port-IsLeastFree_example = free_port-IsLeastFree 1 campus_db

revealed : (consume_placement_credential toy 1 1 (some "root") campus).0 ≡ ok ("ann", "pw")
unfolding consume_placement_credential reveal_row get_placement place_all place find_lab find_node
    find_student update_member audit decrypt_secret strip_prefix split_cipher cut_colon running
revealed = refl

consume_placement_credential_once_example :
    (e : String) × ((consume_placement_credential toy 1 1 none
        (consume_placement_credential toy 1 1 (some "root") campus).1).0
      ≡ err e)
consume_placement_credential_once_example =
    consume_placement_credential_once toy 1 1 (some "root") none campus
      (consume_placement_credential toy 1 1 (some "root") campus).1 ("ann", "pw") revealed refl

campus-IsOwned : IsOwned campus_db
campus-IsOwned = (tt, (refl, tt))

-- The campus before any lab came.
abbrev empty_campus : World (List TaskFrame)
empty_campus = record campus {
  db = record campus_db { placements = record { rows = []; last_id = 2 } };
}

set_node_cold_storage-IsOwned_example :
    IsOwned (set_node_cold_storage "pond" smb (some "lake") "root" empty_campus).1.db
set_node_cold_storage-IsOwned_example =
    set_node_cold_storage-IsOwned "pond" smb (some "lake") "root" empty_campus campus-IsOwned

delete_node-IsOwned_example : IsOwned (delete_node "lake" "root" true campus).1.db
delete_node-IsOwned_example = delete_node-IsOwned "lake" "root" true campus campus-IsOwned
