-- ===== src/Tests.antt =====
-- A small campus to run the models on: two nodes, one lab with a placement on each, one student.
-- The outside is a toy: a queue of frames, and a cipher that only hides colons.
pub mod Runs
pub mod Frames
pub mod Texts
pub mod Rosters
pub mod Admission
pub mod Secrecy
pub mod RateLimit
pub mod Csv
pub mod Telemetry
use Prim.Native.Char.{code}
use docker_mass_deployment.Base.{
  ℕ, ◌+◌, String, Bool, true, false, Option, none, some, List, [], ◌∷◌, ◌++◌, ◌⧺◌, ◌==◌, length,
  if◌then◌else◌,
}
use docker_mass_deployment.Base.Int.{pos}
use docker_mass_deployment.Format.{decimal}
use docker_mass_deployment.Json.{Json, obj, end, field, str}
use docker_mass_deployment.Outside.{Outside, TaskFrame, Cipher, plain}
use docker_mass_deployment.Store.Rows.{
  Node, Lab, Student, Placement, PlacementState, Member, MemberState, Backend, local_zfs, smb,
  TaskRow, TaskState,
}
use docker_mass_deployment.Store.World.{Settings, Db, World}
use docker_mass_deployment.Hub.Session.{Conn, Hub, Socket}

-- A colon becomes `;1`, any other character gets a `0`.
abbrev pub veil : String → String
veil String.[] = ""
veil (String.◌∷◌ c s) =
    if code c == b':' then ";1" ⧺ veil s else String.◌∷◌ c (String.◌∷◌ "0" (veil s))

abbrev pub unveil : String → String
unveil String.[] = ""
unveil (String.◌∷◌ c String.[]) = ""
unveil (String.◌∷◌ c (String.◌∷◌ d s)) =
    if code d == b'1' then ":" ⧺ unveil s else String.◌∷◌ c (unveil s)

abbrev pub frame_of : String → TaskFrame
frame_of id = record {
  id = id;
  action = "lab.create";
  params = obj end;
  requested_by = none;
  ts = 7;
}

abbrev pub toy : Outside (List TaskFrame)
toy = record {
  enqueue = λ name p q. (some (length q), q ++ frame_of name ∷ []);
  notify = λ name q. q;
  claim_one =
      λ name worker q. elim q [ [] ↦ (some none, []) | f ∷ fs ↦ (some (some (1, plain f)), fs) ];
  ack_batch = λ name jobs worker q. (true, q);
  retry = λ name job worker delay error q. q;
  stringify = λ f. f.id;
  parse = λ s. some (frame_of s);
  json_text = λ j. "{}";
  aes_encrypt = λ n s. record { iv = "iv"; tag = "tag"; ct = veil s };
  aes_decrypt = λ c. some (unveil c.ct);
  random_uuid = λ n. decimal n;
  random_bytes = λ n k. n ∷ (n + 57) ∷ (n + 200) ∷ [];
  hmac_sha256 = λ key text. key ⧺ text;
  mail_sent = λ m. true;
}

abbrev pub lake : Node
lake = record {
  id = 1;
  name = "lake";
  alias = none;
  last_seen = none;
  online = false;
  capabilities = none;
  pools = none;
  scrub_status = none;
  allowed = true;
  token_hash = some "key-lake\0token";
  cold_backend = local_zfs;
  cold_owner_node_id = none;
  cold_mount_path = none;
  cold_ready = true;
  created_at = 0;
}

abbrev pub pond : Node
pond = record lake { id = 2; name = "pond"; cold_backend = smb; cold_owner_node_id = some 1 }

abbrev pub smith : Lab
smith = record {
  id = 1;
  name = "smith";
  pi_name = none;
  pi_email = none;
  pi_student_id = none;
  created_at = 0;
  updated_at = 0;
}

abbrev pub ann : Student
ann = record {
  id = 1;
  student_id = none;
  username = "ann";
  email = none;
  name = none;
  linux_uid = 20001;
  created_at = 0;
  updated_at = 0;
}

abbrev pub on_lake : Placement
on_lake = record {
  id = 1;
  lab_id = 1;
  node_id = 1;
  fast_quota_bytes = 1000;
  cold_quota_bytes = some 1000;
  student_fast_quota_bytes = none;
  student_cold_quota_bytes = none;
  ssh_port = 30000;
  image = "ubuntu";
  container_options = none;
  state = PlacementState.active;
  last_error = none;
  usage_scanned_at = none;
  last_usage_scan = none;
  completion_email_sent_at = none;
  created_at = 0;
  updated_at = 0;
}

abbrev pub on_pond : Placement
on_pond = record on_lake { id = 2; node_id = 2; cold_quota_bytes = none }

abbrev pub ann_on_lake : Member
ann_on_lake = record {
  id = 1;
  placement_id = 1;
  student_id = 1;
  state = MemberState.active;
  last_error = none;
  credential_secret = some "enc:v1:iv:tag:p0w0";
  credential_delivered_at = none;
  created_at = 0;
  updated_at = 0;
}

-- A task of the other node, still open.
abbrev pub pond_task : TaskRow
pond_task = record {
  task_uuid = "t1";
  job_id = 1;
  node = "pond";
  action = "lab.create";
  params = obj (field "lab" (str "smith") end);
  requested_by = none;
  state = TaskState.sent;
  result = none;
  error = none;
  received_at = none;
  attempts = 1;
  result_cached = false;
  created_at = 0;
  updated_at = 0;
}

abbrev pub lake_task : TaskRow
lake_task = record pond_task { task_uuid = "t2"; node = "lake" }

abbrev pub campus_db : Db
campus_db = record {
  settings = record {
    ssh_port_start = 30000;
    ssh_port_end = 30001;
    node_offline_grace_seconds = 60;
    gpu_grace_minutes = 10;
    alerts_enabled = true;
    alert_dedup_minutes = 15;
    alert_level = "ERROR";
    quota_alert_pct = 90;
    student_quota_alerts_enabled = true;
    student_quota_alert_pct = 90;
    student_quota_notify_admins = false;
  };
  nodes = record { rows = lake ∷ pond ∷ []; last_id = 2 };
  labs = record { rows = smith ∷ []; last_id = 1 };
  students = record { rows = ann ∷ []; last_id = 1 };
  lab_members = record { rows = []; last_id = 0 };
  placements = record { rows = on_lake ∷ on_pond ∷ []; last_id = 2 };
  members = record { rows = ann_on_lake ∷ []; last_id = 1 };
  task_log = pond_task ∷ lake_task ∷ [];
  logs = record { rows = []; last_id = 0 };
  audit_log = [];
  gpu_events = record { rows = []; last_id = 0 };
  gpu_snapshot = [];
  storage_samples = [];
  quota_alerts = [];
  student_quota_alerts = [];
  node_groups = record { rows = []; last_id = 0 };
  node_group_members = [];
  admins = record { email = "root@campus"; is_active = true } ∷ [];
}

abbrev pub campus : World (List TaskFrame)
campus = record {
  db = campus_db;
  queue = frame_of "t2" ∷ [];
  mails = [];
  alert_state = [];
  gpu_mail_state = [];
  seed = 5;
  now = 1000;
}

abbrev pub lake_conn : Conn
lake_conn = record { socket = 4; node = "lake"; token_hash = "key-lake\0token"; is_alive = true }

-- The node `lake` is connected over the socket 4.
abbrev pub joined_hub : Hub
joined_hub = record {
  connections = lake_conn ∷ [];
  pending_offline_alerts = [];
  open_sockets = 4 ∷ [];
  closed = [];
}

abbrev pub stale_socket : Socket
stale_socket = record { id = 3; node = some "lake"; tokens = pos 2000; last_refill = 0 }
