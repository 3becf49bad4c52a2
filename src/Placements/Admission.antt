-- ===== src/Placements/Admission.antt =====
-- What a placement that `createPlacement` of controller/src/lib/placements.ts lets in has to meet.
use docker_mass_deployment.Base.{ℕ, ◌≤◌, ◌<◌, ◌≡◌, true, Option, none, some}
use docker_mass_deployment.Outside.{Outside}
use docker_mass_deployment.Store.Rows.{Node, Backend, local_zfs, smb, Placement, PlacementState}
use docker_mass_deployment.Store.World.{Db, World}
use docker_mass_deployment.Placements.Config.{validate_container_config}
use docker_mass_deployment.Placements.Tables.{find_node}
use docker_mass_deployment.Placements.Create.{CreatePlacementInput, mapping, owner_placement}

-- A student's quota, if there is one, is positive and within the placement's, if that has one.
abbrev pub Fits : Option ℕ → Option ℕ → Type 0
Fits none cap = Unit
Fits (some q) none = Unit
Fits (some q) (some cap) = (0 < q) × (q ≤ cap)

-- The owner of a client's cold storage hosts the lab already, the mount is live, and both nodes
-- report the same mapping of user ids.
pub record Served (lab : ℕ) (node : Node) (d : Db) : Type 0 where
  pub id : ℕ
  pub owner : Node
  pub placement : Placement
  pub owned : node.cold_owner_node_id ≡ some id
  pub known : find_node id d ≡ some owner
  pub hosts : owner_placement lab id d ≡ some placement
  pub active : placement.state ≡ PlacementState.active
  pub mounted : node.cold_ready ≡ true
  pub start : ℕ
  pub size : ℕ
  pub client_mapping : mapping node.capabilities ≡ some (start, size)
  pub owner_mapping : mapping owner.capabilities ≡ some (start, size)

abbrev pub ColdFits : CreatePlacementInput → Node → Db → Backend → Type 0
ColdFits input node d smb = Served input.lab_id node d
ColdFits input node d local_zfs =
    (cap : ℕ) × ((input.cold_quota_bytes ≡ some cap)
      × Fits input.student_cold_quota_bytes (some cap))

pub record Admitted (input : CreatePlacementInput) (d : Db) : Type 0 where
  pub node : Node
  pub known : find_node input.node_id d ≡ some node
  pub config : validate_container_config input.image input.container_options ≡ none
  pub fast : Fits input.student_fast_quota_bytes (some input.fast_quota_bytes)
  pub cold : ColdFits input node d node.cold_backend
