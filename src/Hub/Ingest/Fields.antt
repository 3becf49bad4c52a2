-- ===== src/Hub/Ingest/Fields.antt =====
-- The fields of results, logs and GPU events, and the mail for a GPU event, in
-- controller/src/lib/hub.ts.
use Prim.Native.Char.{code}
use Prim.Native.Nat.{zero, suc}
use docker_mass_deployment.Base.{
  ℕ, ◌*◌, String, Bool, true, false, not, ◌&&◌, ◌||◌, Option, none, some, [], ◌∷◌, ◌++◌, ◌⧺◌, ◌==◌,
  leb, str_eq, any, find?, or_else, if◌then◌else◌,
}
use docker_mass_deployment.Json.{Json, null, num, str, member_of, str_member}
use docker_mass_deployment.Format.{decimal}
use docker_mass_deployment.Protocol.{Result}
use docker_mass_deployment.Base.Int.{ltb_ℤ, sub_ℕ, pos}
use docker_mass_deployment.Alerts.{get, put}
use docker_mass_deployment.Store.Rows.{
  TaskState, LogRow, GpuEvent, Node, LabMember, Student, insert_row,
}
use docker_mass_deployment.Store.World.{Db, Mail, World, Action, ok}
use docker_mass_deployment.Placements.Tables.{Placed, get_placement_by_lab_node, place_all}

unfoldable pub insert_log : LogRow → Db → Db
insert_log row d = record d { logs = insert_row (λ id. record row { id = id }) d.logs }

unfoldable pub insert_gpu_event : GpuEvent → Db → Db
insert_gpu_event e d = record d {
  gpu_events = insert_row (λ id. record e { id = id }) d.gpu_events;
}

-- The first `n` characters.
unfoldable pub cut : ℕ → String → String
cut zero s = ""
cut (suc n) String.[] = ""
cut (suc n) (String.◌∷◌ c s) = String.◌∷◌ c (cut n s)

-- Without control characters.
unfoldable pub printable : String → String
printable String.[] = ""
printable (String.◌∷◌ c s) =
    if leb 32 (code c) && not (code c == 127) then String.◌∷◌ c (printable s) else printable s

-- `boundedStr` of a text or null; an empty result is null.
unfoldable pub bounded_str : Option String → ℕ → Option String
unfolding printable cut
bounded_str none max = none
bounded_str (some s) max =
    let clean = cut max (printable s) in if str_eq clean "" then none else some clean

-- `clampText`
unfoldable pub clamp_text : Option String → ℕ → Option String
unfolding cut
clamp_text none max = none
clamp_text (some s) max = some (cut max s)

-- `intOrNull`
abbrev pub int_or_null : Option Json → Option ℕ
int_or_null (some (num n)) = some n
int_or_null _ = none

abbrev pub task_state : Bool → TaskState
task_state true = TaskState.ok
task_state false = TaskState.failed

abbrev pub unless : {A : Type 0} → Bool → Option A → Option A
unless true x = none
unless false x = x

-- A text that counts as true in a condition.
abbrev pub truthy : Option String → Option String
truthy none = none
truthy (some s) = if str_eq s "" then none else some s

-- `j?.k`, where null counts as missing.
abbrev nullish : Option Json → Option Json
nullish none = none
nullish (some null) = none
nullish (some j) = some j

abbrev pub first : Option Json → Option Json → Option Json
first none b = b
first (some a) b = some a

abbrev result_member : Option Json → Option Json
result_member none = none
result_member (some j) = member_of "lab" j

-- `frame.result?.lab ?? params.lab`, of any type.
unfoldable pub result_lab : Option Json → Json → Option Json
unfolding member_of
result_lab result params = first (nullish (result_member result)) (nullish (member_of "lab" params))

-- What the driver compares a name column with: a number is bound as a real, and any value but a text
-- or a number makes it throw.
abbrev pub bound_text : Json → Option String
bound_text (str s) = some s
bound_text (num n) = some (decimal n ⧺ ".0")
bound_text j = none

abbrev pub set_capabilities : Json → ℕ → Node → Node
set_capabilities caps now n = record n { capabilities = some caps; last_seen = some now }

-- `frame.result` and `frame.result?.health`, where they count as true; 0 and "" do not.
abbrev pub truthy_json : Option Json → Option Json
truthy_json none = none
truthy_json (some null) = none
truthy_json (some (Json.bool false)) = none
truthy_json (some (num n)) = if n == 0 then none else some (num n)
truthy_json (some (str s)) = if str_eq s "" then none else some (str s)
truthy_json (some j) = some j

abbrev pub health_of : Option Json → Option Json
health_of none = none
health_of (some j) = truthy_json (member_of "health" j)

abbrev pub failure : Bool → Option String → String → Option String
failure done error default = if done then none else some (or_else error default)

abbrev pub result_log : Result → String → ℕ → LogRow
result_log f text now = record {
  id = 0;
  ts = now;
  node = none;
  level = if f.ok then "INFO" else "ERROR";
  source = some "task";
  lab = none;
  user = none;
  task_id = some f.id;
  msg = if f.ok then "task ok" else "task failed";
  detail = some text;
}

abbrev pub gpu_state : Option String → String
gpu_state (some s) = if str_eq s "idle" || str_eq s "warned" || str_eq s "killed" then s else "idle"
gpu_state none = "idle"

abbrev pub placed_id : Option Placed → Option ℕ
placed_id none = none
placed_id (some p) = some p.row.id

abbrev pub gpu_placement : Option String → String → Db → Option ℕ
gpu_placement none node d = none
gpu_placement (some lab) node d = placed_id (get_placement_by_lab_node lab node d)

unfoldable pub gpu_event : String → Json → Option ℕ → ℕ → Db → GpuEvent
gpu_event node raw ts now d =
    let lab = bounded_str (str_member "lab" raw) 40 in
    record {
      id = 0;
      node = node;
      pid = int_or_null (member_of "pid" raw);
      user = bounded_str (str_member "user" raw) 32;
      lab = lab;
      placement_id = gpu_placement lab node d;
      vram_bytes = int_or_null (member_of "vram_bytes" raw);
      state = gpu_state (str_member "state" raw);
      ts = or_else ts now;
      cmd = bounded_str (str_member "cmd" raw) 200;
      idle_s = int_or_null (member_of "idle_s" raw);
    }

-- The node hosts a lab that the student is a member of.
unfoldable pub hosts_student : String → String → Db → Bool
unfolding place_all
hosts_student node username d =
    any
      (λ (s : Student).
        str_eq s.username username
        && any
            (λ (m : LabMember).
              m.student_id == s.id
              && any (λ (p : Placed). p.row.lab_id == m.lab_id && str_eq p.node.name node)
                  (place_all d d.placements.rows))
            d.lab_members.rows)
      d.students.rows

abbrev pub address_of : Option Student → Option String
address_of none = none
address_of (some s) = truthy s.email

unfoldable pub student_address : String → Db → Option String
student_address username d = address_of (find? (λ s. str_eq s.username username) d.students.rows)

abbrev pub gpu_mail_window : ℕ
gpu_mail_window = 10 * 60 * 1000

abbrev pub is_throttled : ℕ → Option ℕ → Bool
is_throttled now last = ltb_ℤ (sub_ℕ now (or_else last 0)) (pos gpu_mail_window)

abbrev pub is_mailed : String → Bool
is_mailed state = str_eq state "warned" || str_eq state "killed"

abbrev pub gpu_mail : GpuEvent → String → String → Mail
gpu_mail e to username = record {
  to = to;
  template = if str_eq e.state "warned" then "gpu-warning" else "gpu-kill";
  values = ("username", username) ∷ ("lab", or_else e.lab "") ∷ ("node", e.node) ∷ [];
}

unfoldable pub gpu_mail_key : String → String → String → String
gpu_mail_key node user state = node ⧺ (":" ⧺ (user ⧺ (":" ⧺ state)))

-- The mail to `to`, unless one with the same key went out within the window.
unfoldable pub mail_gpu_event : {Q : Type 0} → GpuEvent → String → String → World Q → World Q
unfolding gpu_mail_key
mail_gpu_event e username to w =
    let key = gpu_mail_key e.node username e.state in
    if is_throttled w.now (get key w.gpu_mail_state) then w else record w {
      gpu_mail_state = put key w.now w.gpu_mail_state;
      mails = w.mails ++ gpu_mail e to username ∷ [];
    }

abbrev pub mail_address : {Q : Type 0} → GpuEvent → String → Option String → World Q → World Q
mail_address e username none w = w
mail_address e username (some to) w = mail_gpu_event e username to w

abbrev pub mail_user : {Q : Type 0} → GpuEvent → Option String → World Q → World Q
mail_user e none w = w
mail_user e (some username) w =
    if is_mailed e.state && hosts_student e.node username w.db
    then mail_address e username (student_address username w.db) w
    else w

-- `emailGpuEvent`
unfoldable pub email_gpu_event : {Q : Type 0} → GpuEvent → Action Q (Unit {0})
unfolding hosts_student student_address mail_gpu_event
email_gpu_event e w = (ok tt, mail_user e e.user w)
