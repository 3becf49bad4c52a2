-- ===== src/Telemetry/Snapshots.antt =====
-- The GPU snapshot of a node in controller/src/lib/ingest.ts: replaced as a whole, or not at all.
use docker_mass_deployment.Base.{
  ℕ, String, Bool, ◌&&◌, not, Option, none, some, List, [], ◌∷◌, ◌++◌, ◌==◌, str_eq, filter,
  if◌then◌else◌,
}
use docker_mass_deployment.Hub.Ingest.Fields.{cut, gpu_placement}
use docker_mass_deployment.Json.{Json, null, num, str, member_of, str_member}
use docker_mass_deployment.Store.Rows.{Snapshot}
use docker_mass_deployment.Store.World.{Db, Action, gets, or_throw, modify, ◌>>=◌}
use docker_mass_deployment.Telemetry.Fields.{num_member}

-- The value of a column, if the driver binds it: it throws on booleans, lists and objects. That it
-- would convert a number to a text or a text to a number is left out.
abbrev num_column : Option Json → Option (Option ℕ)
num_column none = some none
num_column (some null) = some none
num_column (some (num n)) = some (some n)
num_column (some _) = none

abbrev text_column : Option Json → Option (Option String)
text_column none = some none
text_column (some null) = some none
text_column (some (str s)) = some (some s)
text_column (some _) = none

abbrev real_column : Option Json → Option (Option Json)
real_column none = some none
real_column (some null) = some none
real_column (some (num n)) = some (some (num n))
real_column (some _) = none

abbrev cut_command : Option String → Option String
cut_command none = none
cut_command (some s) = some (cut 200 s)

-- The label of a process: an empty one names no placement.
abbrev labelled : Option String → Option String
labelled none = none
labelled (some s) = if str_eq s "" then none else some s

abbrev pub snapshot_row :
    String
    → ℕ
    → Json
    → Option ℕ
    → Option (Option ℕ)
    → Option (Option String)
    → Option (Option ℕ)
    → Option (Option Json)
    → Option Snapshot
snapshot_row node now p placement (some (some pid)) (some user) (some vram) (some util) =
    some (record {
      node = node;
      pid = pid;
      user = user;
      lab = str_member "lab" p;
      placement_id = placement;
      vram_bytes = vram;
      util = util;
      ts = now;
      cmd = cut_command (str_member "cmd" p);
      started_at = num_member "started_at" p;
    })
snapshot_row node now p placement _ _ _ _ = none

-- The row of a process; a process without a pid is refused.
unfoldable pub snapshot_of : String → ℕ → Json → Db → Option Snapshot
unfolding member_of str_member cut
snapshot_of node now p d =
    snapshot_row node now p (gpu_placement (labelled (str_member "lab" p)) node d)
      (num_column (member_of "pid" p)) (text_column (member_of "user" p))
      (num_column (member_of "vram_bytes" p)) (real_column (member_of "util" p))

-- `INSERT OR REPLACE`: a row of the same node and pid goes.
abbrev pub same_process : Snapshot → Snapshot → Bool
same_process s t = str_eq s.node t.node && s.pid == t.pid

abbrev pub replace_row : Snapshot → List Snapshot → List Snapshot
replace_row s rows = filter (λ t. not (same_process s t)) rows ++ s ∷ []

abbrev pub add_row : Option Snapshot → List Snapshot → Option (List Snapshot)
add_row none rows = none
add_row (some s) rows = some (replace_row s rows)

-- The rows of the table after the loop, or nothing if a row is refused.
unfoldable pub insert_rows : String → ℕ → List Json → Db → List Snapshot → Option (List Snapshot)
unfolding snapshot_of
insert_rows node now [] d rows = some rows
insert_rows node now (p ∷ ps) d rows = elim (add_row (snapshot_of node now p d) rows) [
  | none ↦ none
  | some rows' ↦ insert_rows node now ps d rows'
]

unfoldable pub snapshot_rows : String → ℕ → List Json → Db → Option (List Snapshot)
unfolding insert_rows
snapshot_rows node now ps d =
    insert_rows node now ps d (filter (λ (s : Snapshot). not (str_eq s.node node)) d.gpu_snapshot)

unfoldable pub set_snapshot : List Snapshot → Db → Db
set_snapshot rows d = record d { gpu_snapshot = rows }

-- The transaction: a throw in it rolls all of it back.
unfoldable pub ingest_snapshot : {Q : Type 0} → String → ℕ → List Json → Action Q (Unit {0})
ingest_snapshot node now ps = do
  found ← gets (snapshot_rows node now ps)
  rows ← or_throw found "a GPU process cannot be stored"
  modify (set_snapshot rows)
