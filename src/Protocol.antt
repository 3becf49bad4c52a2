-- ===== src/Protocol.antt =====
-- controller/src/lib/protocol.ts: the frames an agent may send, and their validation. Lengths are
-- counted in code points.
use docker_mass_deployment.Base.{
  ℕ, String, Bool, ◌&&◌, Option, none, some, leb, ◌==◌, str_eq, codes, length, if◌then◌else◌,
  or_else,
}
use docker_mass_deployment.Json.{Json, null, bool, num, str, obj, Fields, member}

abbrev pub protocol_version : ℕ
protocol_version = 2

pub record Hello : Type 0 where
  pub v : Option ℕ
  pub node : String
  pub token : String
  pub capabilities : Option Json

pub record Result : Type 0 where
  pub id : String
  pub ok : Bool
  pub result : Option Json
  pub error : Option String
  pub logs : Option String
  pub cached : Option Bool

pub record LogMsg : Type 0 where
  pub level : Option String
  pub source : Option String
  pub lab : Option String
  pub user : Option String
  pub task_id : Option String
  pub msg : Option String
  pub detail : Option String
  pub ts : Option ℕ

pub record Event : Type 0 where
  pub kind : String
  pub payload : Option Json
  pub ts : Option ℕ

pub data InboundFrame : Type 0 where
  hello : Hello → InboundFrame
  result : Result → InboundFrame
  receipt : String → InboundFrame
  log : LogMsg → InboundFrame
  event : Event → InboundFrame
  telemetry : Option Json → InboundFrame

infixl 5 ◌>>=◌
abbrev ◌>>=◌ : {A B : Type 0} → Option A → (A → Option B) → Option B
none >>= f = none
some a >>= f = f a

abbrev within : ℕ → ℕ → String → Bool
within lo hi s = let n = length (codes s) in leb lo n && leb n hi

-- `z.string().min(lo).max(hi)`
abbrev text : ℕ → ℕ → Option Json → Option String
text lo hi (some (str s)) = if within lo hi s then some s else none
text lo hi _ = none

-- `.optional()`: the inner `none` is an absent value.
abbrev opt_text : ℕ → Option Json → Option (Option String)
opt_text hi none = some none
opt_text hi (some (str s)) = if within 0 hi s then some (some s) else none
opt_text hi (some _) = none

-- `.nullish()`
abbrev nullish_text : ℕ → Option Json → Option (Option String)
nullish_text hi (some null) = some none
nullish_text hi j = opt_text hi j

abbrev opt_num : Option Json → Option (Option ℕ)
opt_num none = some none
opt_num (some (num n)) = some (some n)
opt_num (some _) = none

abbrev flag : Option Json → Option Bool
flag (some (bool b)) = some b
flag _ = none

abbrev opt_flag : Option Json → Option (Option Bool)
opt_flag none = some none
opt_flag (some (bool b)) = some (some b)
opt_flag (some _) = none

-- `z.record(z.string(), z.unknown()).optional()`
abbrev opt_record : Option Json → Option (Option Json)
opt_record none = some none
opt_record (some (obj fs)) = some (some (obj fs))
opt_record (some _) = none

parse_hello : Fields → Option InboundFrame
parse_hello fs = do
  v ← opt_num (member "v" fs)
  node ← text 1 63 (member "node" fs)
  token ← text 1 512 (member "token" fs)
  capabilities ← opt_record (member "capabilities" fs)
  ts ← opt_num (member "ts" fs)
  some (hello (record { v = v; node = node; token = token; capabilities = capabilities }))

parse_result : Fields → Option InboundFrame
parse_result fs = do
  id ← text 1 64 (member "id" fs)
  done ← flag (member "ok" fs)
  error ← nullish_text 20000 (member "error" fs)
  logs ← nullish_text 20000 (member "logs" fs)
  cached ← opt_flag (member "cached" fs)
  ts ← opt_num (member "ts" fs)
  some (
      result (record {
        id = id;
        ok = done;
        result = member "result" fs;
        error = error;
        logs = logs;
        cached = cached;
      }))

parse_receipt : Fields → Option InboundFrame
parse_receipt fs = do
  id ← text 1 64 (member "id" fs)
  ts ← opt_num (member "ts" fs)
  some (receipt id)

parse_log : Fields → Option InboundFrame
parse_log fs = do
  level ← opt_text 16 (member "level" fs)
  source ← nullish_text 64 (member "source" fs)
  lab ← nullish_text 64 (member "lab" fs)
  user ← nullish_text 64 (member "user" fs)
  task_id ← nullish_text 64 (member "task_id" fs)
  msg ← opt_text 20000 (member "msg" fs)
  detail ← nullish_text 20000 (member "detail" fs)
  ts ← opt_num (member "ts" fs)
  some (
      log (record {
        level = level;
        source = source;
        lab = lab;
        user = user;
        task_id = task_id;
        msg = msg;
        detail = detail;
        ts = ts;
      }))

parse_event : Fields → Option InboundFrame
parse_event fs = do
  kind ← text 0 32 (member "kind" fs)
  payload ← opt_record (member "payload" fs)
  ts ← opt_num (member "ts" fs)
  some (event (record { kind = kind; payload = payload; ts = ts }))

parse_telemetry : Fields → Option InboundFrame
parse_telemetry fs = do
  payload ← opt_record (member "payload" fs)
  ts ← opt_num (member "ts" fs)
  some (telemetry payload)

parse_typed : String → Fields → Option InboundFrame
unfolding parse_hello parse_result parse_receipt parse_log parse_event parse_telemetry
parse_typed t fs =
    if str_eq t "hello"
    then parse_hello fs
    else if str_eq t "result"
    then parse_result fs
    else if str_eq t "receipt"
    then parse_receipt fs
    else if str_eq t "log"
    then parse_log fs
    else if str_eq t "event"
    then parse_event fs
    else if str_eq t "telemetry"
    then parse_telemetry fs
    else none

abbrev parse_fields : Option Json → Fields → Option InboundFrame
parse_fields (some (str t)) fs = parse_typed t fs
parse_fields _ fs = none

-- `parseInboundFrame`: `none` if the value is no known frame. Other fields are dropped.
unfoldable pub parse_inbound_frame : Json → Option InboundFrame
unfolding parse_typed member
parse_inbound_frame (obj fs) = parse_fields (member "type" fs) fs
parse_inbound_frame _ = none

unfoldable pub is_protocol_compatible : Option ℕ → Bool
is_protocol_compatible v = or_else v 0 == protocol_version
