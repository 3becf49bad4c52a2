-- ===== src/Placements/Create.antt =====
-- `createPlacement` of controller/src/lib/placements.ts.
use docker_mass_deployment.Base.{
  ℕ, ◌+◌, String, Bool, true, false, not, ◌&&◌, ◌||◌, Option, none, some, List, [], ◌∷◌, ◌==◌, ◌⧺◌,
  ltb, find?, filter, if◌then◌else◌, is_some,
}
use docker_mass_deployment.Json.{Json, num, member_of}
use docker_mass_deployment.Outside.{Outside}
use docker_mass_deployment.Store.Rows.{
  Node, Backend, local_zfs, smb, Student, LabMember, ContainerOptions, Placement, PlacementState,
}
use docker_mass_deployment.Store.World.{
  Db, Action, pure, gets, or_throw, modify, clock, throw_if, throw_some, for_each, ◌>>=◌, ◌>>◌,
}
use docker_mass_deployment.Placements.Config.{validate_container_config, stored_options}
use docker_mass_deployment.Placements.Tables.{
  Placed, find_node, get_placement, placement_refused, insert_placement, order_by, find_student,
  audit,
}
use docker_mass_deployment.Placements.Tasks.{enqueue_placement_create}
use docker_mass_deployment.Placements.Members.{provision_member_on_placement}

pub record CreatePlacementInput : Type 0 where
  pub lab_id : ℕ
  pub node_id : ℕ
  pub fast_quota_bytes : ℕ
  pub cold_quota_bytes : Option ℕ
  pub student_fast_quota_bytes : Option ℕ
  pub student_cold_quota_bytes : Option ℕ
  pub ssh_port : ℕ
  pub image : String
  pub container_options : ContainerOptions
  pub actor : Option String

abbrev pub state_name : PlacementState → String
state_name PlacementState.queued = "queued"
state_name PlacementState.provisioning = "provisioning"
state_name PlacementState.active = "active"
state_name PlacementState.failed = "failed"
state_name PlacementState.deleting = "deleting"

abbrev pub is_active : PlacementState → Bool
is_active PlacementState.active = true
is_active _ = false

abbrev num_of : Option Json → Option ℕ
num_of (some (num n)) = some n
num_of _ = none

abbrev both : Option ℕ → Option ℕ → Option (ℕ × ℕ)
both (some a) (some b) = some (a, b)
both _ _ = none

abbrev runtime_mapping : Option Json → Option (ℕ × ℕ)
runtime_mapping none = none
runtime_mapping (some r) =
    both (num_of (member_of "userns_start" r)) (num_of (member_of "userns_size" r))

-- The Docker userns mapping that a node reports, `start:size`, if both are integers.
unfoldable pub mapping : Option Json → Option (ℕ × ℕ)
unfolding member_of
mapping none = none
mapping (some caps) = runtime_mapping (member_of "runtime" caps)

-- `!clientMapping || !ownerMapping || clientMapping !== ownerMapping`
abbrev pub mappings_differ : Option (ℕ × ℕ) → Option (ℕ × ℕ) → Bool
mappings_differ (some (a, b)) (some (c, d)) = not (a == c && b == d)
mappings_differ _ _ = true

-- `quota != null && (quota <= 0 || quota > cap)`
abbrev pub exceeds : Option ℕ → ℕ → Bool
exceeds none cap = false
exceeds (some q) cap = q == 0 || ltb cap q

abbrev pub exceeds_some : Option ℕ → Option ℕ → Bool
exceeds_some q none = false
exceeds_some q (some cap) = exceeds q cap

unfoldable pub owner_placement : ℕ → ℕ → Db → Option Placement
owner_placement lab node d = find? (λ p. p.lab_id == lab && p.node_id == node) d.placements.rows

-- The rules for an SMB client: the message of the first that fails.
unfoldable pub smb_problem : Node → Node → Option Placement → Option String
unfolding mapping
smb_problem node owner none = some (
    "grant the cold-storage owner '"
    ⧺ (owner.name
        ⧺ "' access to this lab first (its cold dataset must exist before an SMB client)"))
smb_problem node owner (some p) =
    if not (is_active p.state)
    then some (
        "the owner '"
        ⧺ (owner.name
            ⧺ ("' placement is '"
                ⧺ (state_name p.state
                    ⧺ "'; wait until it is active before adding the SMB client"))))
    else if not node.cold_ready
    then some ("the SMB cold-storage mount on '" ⧺ (node.name ⧺ "' is not an active mount yet"))
    else if mappings_differ (mapping node.capabilities) (mapping owner.capabilities)
    then some (
        "SMB client '"
        ⧺ (node.name
            ⧺ ("' and owner '"
                ⧺ (owner.name ⧺ "' must report the same Docker userns numeric mapping"))))
    else none

abbrev pub smb_client : ℕ → Node → Option ℕ → Db → Option String
smb_client lab node none d = some (
    "node '"
    ⧺ (node.name
        ⧺ "' is an SMB client without a cold-storage owner — configure it on the Nodes page"))
smb_client lab node (some owner) d = elim (find_node owner d) [
  | none ↦ some "Cannot read properties of undefined"
  | some o ↦ smb_problem node o (owner_placement lab owner d)
]

-- The first rule of the cold-storage backend that the input breaks.
unfoldable pub cold_problem : CreatePlacementInput → Node → Db → Option String
unfolding smb_problem owner_placement find_node
cold_problem input node d = elim node.cold_backend [
  | smb ↦ smb_client input.lab_id node node.cold_owner_node_id d
  | local_zfs ↦
      if is_some input.cold_quota_bytes
      then none
      else some "a local-ZFS placement requires a cold quota"
]

-- An SMB client carries no cold quotas of its own.
abbrev pub unless_smb : Backend → Option ℕ → Option ℕ
unless_smb smb q = none
unless_smb local_zfs q = q

abbrev pub new_placement : CreatePlacementInput → Node → ℕ → Placement
new_placement input node now = record {
  id = 0;
  lab_id = input.lab_id;
  node_id = input.node_id;
  fast_quota_bytes = input.fast_quota_bytes;
  cold_quota_bytes = unless_smb node.cold_backend input.cold_quota_bytes;
  student_fast_quota_bytes = input.student_fast_quota_bytes;
  student_cold_quota_bytes = unless_smb node.cold_backend input.student_cold_quota_bytes;
  ssh_port = input.ssh_port;
  image = input.image;
  container_options = some (stored_options input.container_options);
  state = PlacementState.provisioning;
  last_error = none;
  usage_scanned_at = none;
  last_usage_scan = none;
  completion_email_sent_at = none;
  created_at = now;
  updated_at = now;
}

-- `lab_members JOIN students`, in the order of their user names.
abbrev add_student : Option Student → List Student → List Student
add_student none rest = rest
add_student (some s) rest = s ∷ rest

unfoldable pub students_of : Db → List LabMember → List Student
unfolding find_student
students_of d [] = []
students_of d (m ∷ ms) = add_student (find_student m.student_id d) (students_of d ms)

unfoldable pub roster : ℕ → Db → List Student
unfolding students_of order_by
roster lab d =
    order_by (λ s. s.username) (students_of d (filter (λ m. m.lab_id == lab) d.lab_members.rows))

module _ {Q : Type 0} (out : Outside Q) where
  unfoldable pub add_placement : Placement → Action Q Placed
  add_placement p = do
    refused ← gets (λ d. placement_refused (record p { id = d.placements.last_id + 1 }) d)
    throw_if refused "constraint failed"
    modify (insert_placement p)
    placed ← gets (λ d. get_placement d.placements.last_id d)
    or_throw placed "Cannot read properties of undefined"

  unfoldable pub provision_student : Placed → Option String → Student → Action Q (Unit {0})
  provision_student p actor s = do provision_member_on_placement out p s actor; pure tt

  unfoldable pub create_placement : CreatePlacementInput → Action Q Placed
  create_placement input = do
    found ← gets (find_node input.node_id)
    node ← or_throw found "Unknown node"
    throw_some (validate_container_config input.image input.container_options)
    problem ← gets (cold_problem input node)
    throw_some problem
    throw_if (exceeds input.student_fast_quota_bytes input.fast_quota_bytes)
        "Per-student fast quota must be positive and cannot exceed the placement fast quota"
    throw_if
        (exceeds_some (unless_smb node.cold_backend input.student_cold_quota_bytes)
          (unless_smb node.cold_backend input.cold_quota_bytes))
        "Per-student cold quota must be positive and cannot exceed the placement cold quota"
    now ← clock
    placement ← add_placement (new_placement input node now)
    enqueue_placement_create out placement input.actor
    audit input.actor "placement.create" (some (placement.lab.name ⧺ ("@" ⧺ placement.node.name)))
        none
    students ← gets (roster input.lab_id)
    for_each students (provision_student placement input.actor)
    pure placement
