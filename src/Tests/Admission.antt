-- ===== src/Tests/Admission.antt =====
-- A placement of the lab `smith` on `lake` that `createPlacement` lets in.
use docker_mass_deployment.Base.{none, some, List, []}
use docker_mass_deployment.Outside.{TaskFrame}
use docker_mass_deployment.Store.World.{World}
use docker_mass_deployment.Placements.Tables.{Placed}
use docker_mass_deployment.Placements.Create.{CreatePlacementInput, new_placement}
use docker_mass_deployment.Tests.{lake, smith, campus, campus_db}

abbrev bare : World (List TaskFrame)
bare = record campus { db = record campus_db { placements = record { rows = []; last_id = 2 } } }

abbrev input : CreatePlacementInput
input = record {
  lab_id = 1;
  node_id = 1;
  fast_quota_bytes = 1000;
  cold_quota_bytes = some 1000;
  student_fast_quota_bytes = some 500;
  student_cold_quota_bytes = none;
  ssh_port = 30000;
  image = "ubuntu";
  container_options = record {
    cpus = "4";
    memory = "8g";
    shm_size = "1g";
    rootfs_quota = "300g";
    restart = "no";
  };
  actor = none;
}

abbrev placed : Placed
placed = record {
  row = record (new_placement input lake 1000) { id = 3 };
  lab = smith;
  node = lake;
  cold_owner = none;
}
