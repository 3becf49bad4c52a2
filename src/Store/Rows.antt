-- ===== src/Store/Rows.antt =====
-- Table rows: the schema that the migrations of controller/src/lib/db.ts add up to.
use docker_mass_deployment.Base.{ℕ, String, Bool, Option, List, [], ◌∷◌, ◌++◌, ◌+◌}
use docker_mass_deployment.Base.Int.{ℤ}
use docker_mass_deployment.Json.{Json}

pub data Backend : Type 0 where
  local_zfs smb : Backend

pub record Node : Type 0 where
  pub id : ℕ
  pub name : String
  pub alias : Option String
  pub last_seen : Option ℕ
  pub online : Bool
  pub capabilities : Option Json
  pub pools : Option Json
  pub scrub_status : Option Json
  pub allowed : Bool
  pub token_hash : Option String
  pub cold_backend : Backend
  pub cold_owner_node_id : Option ℕ
  pub cold_mount_path : Option String
  pub cold_ready : Bool
  pub created_at : ℕ

pub record Lab : Type 0 where
  pub id : ℕ
  pub name : String
  pub pi_name : Option String
  pub pi_email : Option String
  pub pi_student_id : Option ℕ
  pub created_at : ℕ
  pub updated_at : ℕ

pub record Student : Type 0 where
  pub id : ℕ
  pub student_id : Option String
  pub username : String
  pub email : Option String
  pub name : Option String
  pub linux_uid : ℕ
  pub created_at : ℕ
  pub updated_at : ℕ

pub record LabMember : Type 0 where
  pub id : ℕ
  pub lab_id : ℕ
  pub student_id : ℕ
  pub created_at : ℕ

pub record ContainerOptions : Type 0 where
  pub cpus : String
  pub memory : String
  pub shm_size : String
  pub rootfs_quota : String
  pub restart : String

-- A `container_options` column that parses; a key may be missing.
pub record PartialOptions : Type 0 where
  pub cpus : Option String
  pub memory : Option String
  pub shm_size : Option String
  pub rootfs_quota : Option String
  pub restart : Option String

pub data PlacementState : Type 0 where
  queued provisioning active failed deleting : PlacementState

pub data MemberState : Type 0 where
  queued provisioning active failed removing : MemberState

pub record Placement : Type 0 where
  pub id : ℕ
  pub lab_id : ℕ
  pub node_id : ℕ
  pub fast_quota_bytes : ℕ
  pub cold_quota_bytes : Option ℕ
  pub student_fast_quota_bytes : Option ℕ
  pub student_cold_quota_bytes : Option ℕ
  pub ssh_port : ℕ
  pub image : String
  pub container_options : Option PartialOptions
  pub state : PlacementState
  pub last_error : Option String
  pub usage_scanned_at : Option ℕ
  pub last_usage_scan : Option ℕ
  pub completion_email_sent_at : Option ℤ
  pub created_at : ℕ
  pub updated_at : ℕ

pub record Member : Type 0 where
  pub id : ℕ
  pub placement_id : ℕ
  pub student_id : ℕ
  pub state : MemberState
  pub last_error : Option String
  pub credential_secret : Option String
  pub credential_delivered_at : Option ℕ
  pub created_at : ℕ
  pub updated_at : ℕ

pub data TaskState : Type 0 where
  queued sent ok failed : TaskState

pub record TaskRow : Type 0 where
  pub task_uuid : String
  pub job_id : ℕ
  pub node : String
  pub action : String
  pub params : Json
  pub requested_by : Option String
  pub state : TaskState
  pub result : Option Json
  pub error : Option String
  pub received_at : Option ℕ
  pub attempts : ℕ
  pub result_cached : Bool
  pub created_at : ℕ
  pub updated_at : ℕ

pub record LogRow : Type 0 where
  pub id : ℕ
  pub ts : ℕ
  pub node : Option String
  pub level : String
  pub source : Option String
  pub lab : Option String
  pub user : Option String
  pub task_id : Option String
  pub msg : String
  pub detail : Option String

pub record AuditRow : Type 0 where
  pub ts : ℕ
  pub actor : Option String
  pub action : String
  pub target : Option String
  pub detail : Option String

pub record GpuEvent : Type 0 where
  pub id : ℕ
  pub node : String
  pub pid : Option ℕ
  pub user : Option String
  pub lab : Option String
  pub placement_id : Option ℕ
  pub vram_bytes : Option ℕ
  pub state : String
  pub ts : ℕ
  pub cmd : Option String
  pub idle_s : Option ℕ

-- A row of `gpu_snapshot`. `util` is a REAL and is kept as the agent wrote it.
pub record Snapshot : Type 0 where
  pub node : String
  pub pid : ℕ
  pub user : Option String
  pub lab : Option String
  pub placement_id : Option ℕ
  pub vram_bytes : Option ℕ
  pub util : Option Json
  pub ts : ℕ
  pub cmd : Option String
  pub started_at : Option ℕ

pub record QuotaAlert : Type 0 where
  pub placement_id : ℕ
  pub lab_id : ℕ
  pub pool : String
  pub pct : ℕ
  pub ts : ℕ

pub record StudentQuotaAlert : Type 0 where
  pub placement_id : ℕ
  pub student_id : ℕ
  pub pool : String
  pub pct : ℕ
  pub ts : ℕ

pub record NodeGroup : Type 0 where
  pub id : ℕ
  pub name : String
  pub created_at : ℕ

-- A row of `node_group_members`.
pub record GroupMember : Type 0 where
  pub group_id : ℕ
  pub node_id : ℕ

pub record Admin : Type 0 where
  pub email : String
  pub is_active : Bool

pub record Sample : Type 0 where
  pub placement_id : ℕ
  pub lab_id : ℕ
  pub student_id : Option ℕ
  pub pool : String
  pub used_bytes : ℕ
  pub quota_bytes : Option ℕ
  pub ts : ℕ

-- A table with its AUTOINCREMENT counter, the last id given out.
pub record Table {ℓ} (A : Type ℓ) : Type ℓ where
  pub rows : List A
  pub last_id : ℕ

module _ {ℓ} {A : Type ℓ} where
  -- `INSERT`, with the row made from its id.
  unfoldable pub insert_row : (ℕ → A) → Table A → Table A
  insert_row make t = record { rows = t.rows ++ make (t.last_id + 1) ∷ []; last_id = t.last_id + 1 }

  abbrev pub with_rows : (List A → List A) → Table A → Table A
  with_rows f t = record t { rows = f t.rows }
