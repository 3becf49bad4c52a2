-- ===== src/Telemetry/Scrub.antt =====
-- Cold storage and ZFS scrubs in controller/src/lib/ingest.ts.
use docker_mass_deployment.Base.{
  ℕ, String, Bool, true, false, ◌&&◌, not, Option, none, some, List, [], ◌⧺◌, str_eq, any, map,
  or_else, if◌then◌else◌,
}
use docker_mass_deployment.Alerts.{alert_admins}
use docker_mass_deployment.Format.{decimal}
use docker_mass_deployment.Hub.Ingest.Fields.{insert_log, cut}
use docker_mass_deployment.Json.{Json, bool, arr, obj, Items, member_of, str_member}
use docker_mass_deployment.Nodes.{update_node}
use docker_mass_deployment.Placements.Tables.{find_node_by_name}
use docker_mass_deployment.Store.Rows.{Node, LogRow}
use docker_mass_deployment.Store.World.{
  Db, Action, pure, gets, modify, throw_if, for_each, when, ◌>>=◌, ◌>>◌,
}
use docker_mass_deployment.Telemetry.Fields.{items, ScrubEntry, is_nothing, scrub_of, is_bad_scrub}

abbrev cut_path : Option String → Option String
cut_path none = none
cut_path (some s) = some (cut 512 s)

abbrev is_true : Option Json → Bool
is_true (some (bool true)) = true
is_true _ = false

abbrev pub mounted : Json → Node → Node
mounted cold n = record n {
  cold_mount_path = cut_path (str_member "mount_path" cold);
  cold_ready = is_true (member_of "ready" cold);
}

-- `typeof v === "object"`, and not null
abbrev is_object : Json → Bool
is_object (obj fs) = true
is_object (arr js) = true
is_object _ = false

abbrev opt_str_eq : Option String → Option String → Bool
opt_str_eq none none = true
opt_str_eq (some a) (some b) = str_eq a b
opt_str_eq _ _ = false

abbrev stored_entries : Option Json → List Json
stored_entries (some (arr js)) = items js
stored_entries _ = []

abbrev stored_scrub : Option Node → List Json
stored_scrub none = []
stored_scrub (some n) = stored_entries n.scrub_status

-- The entries of the status that the node has.
unfoldable pub previous_scrub : String → Db → List Json
previous_scrub node d = stored_scrub (find_node_by_name node d)

abbrev pub scrubbed : Items → Node → Node
scrubbed js n = record n { scrub_status = some (arr js) }

unfoldable pub scrub_message : String → ScrubEntry → String
scrub_message node p =
    "ZFS scrub on " ⧺ (node ⧺ (": pool '" ⧺ (or_else p.pool "undefined" ⧺ "' reports errors")))

abbrev error_count : Option ℕ → String
error_count none = "?"
error_count (some n) = decimal n

unfoldable pub scrub_detail : ScrubEntry → String
scrub_detail p = or_else p.detail (
    "state="
    ⧺ (or_else p.state "?"
        ⧺ ("; errors=" ⧺ (error_count p.errors ⧺ ("; scan=" ⧺ or_else p.last_scrub "n/a")))))

abbrev scrub_log : String → ScrubEntry → ℕ → LogRow
scrub_log node p now = record {
  id = 0;
  ts = now;
  node = some node;
  level = "ERROR";
  source = some "scrub";
  lab = none;
  user = none;
  task_id = none;
  msg = scrub_message node p;
  detail = some (scrub_detail p);
}

-- `prevBad.has(p.pool)`
abbrev was_bad : List ScrubEntry → ScrubEntry → Bool
was_bad prev p = any (λ (q : ScrubEntry). is_bad_scrub q && opt_str_eq q.pool p.pool) prev

module _ {Q : Type 0} where
  unfoldable pub report_scrub : String → ScrubEntry → ℕ → Action Q (Unit {0})
  report_scrub node p now = do
    modify (insert_log (scrub_log node p now))
    alert_admins ("scrub:" ⧺ (node ⧺ (":" ⧺ or_else p.pool "undefined")))
        ("ZFS scrub errors on " ⧺ node) (scrub_message node p ⧺ ("\n\n" ⧺ scrub_detail p))

  unfoldable pub check_entry : String → List ScrubEntry → ℕ → Json → Action Q (Unit {0})
  check_entry node prev now j = do
    throw_if (is_nothing j) "Cannot read properties of null"
    let p = scrub_of j
    when (is_bad_scrub p && not (was_bad prev p)) (report_scrub node p now)

  abbrev pub ingest_entries : String → Items → ℕ → Action Q (Unit {0})
  ingest_entries node js now = do
    prev ← gets (previous_scrub node)
    throw_if (any is_nothing prev) "Cannot read properties of null"
    modify (update_node node (scrubbed js))
    for_each (items js) (check_entry node (map scrub_of prev) now)

  unfoldable pub ingest_scrub : String → Option Json → ℕ → Action Q (Unit {0})
  ingest_scrub node (some (arr js)) now = ingest_entries node js now
  ingest_scrub node _ now = pure tt

  unfoldable pub ingest_cold_storage : String → Option Json → Action Q (Unit {0})
  ingest_cold_storage node none = pure tt
  ingest_cold_storage node (some cold) =
      if is_object cold then modify (update_node node (mounted cold)) else pure tt
