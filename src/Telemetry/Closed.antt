-- ===== src/Telemetry/Closed.antt =====
-- Which invariants of the database telemetry keeps (controller/src/lib/ingest.ts): those that are
-- closed under the statements it runs, each with what the code has checked before it.
use docker_mass_deployment.Base.{
  ℕ, String, ◌≡◌, refl, false, Option, none, some, List, Option-cases, inl, inr,
}
use docker_mass_deployment.Json.{Json, Items, null, bool, num, str, arr, obj}
use docker_mass_deployment.Nodes.{update_node}
use docker_mass_deployment.Hub.Ingest.Fields.{insert_log}
use docker_mass_deployment.Alerts.Database.{alert_admins-Keeps}
use docker_mass_deployment.Store.Rows.{Node, LogRow, Snapshot, QuotaAlert, StudentQuotaAlert}
use docker_mass_deployment.Store.World.{Db, World, modify, running}
use docker_mass_deployment.Store.Keeps.{Keeps, keeping, modify-Keeps}
use docker_mass_deployment.Placements.Tables.{Placed, get_placement_by_lab_node, update_placement}
use docker_mass_deployment.Telemetry.{reported}
use docker_mass_deployment.Telemetry.Fields.{ScrubEntry, StorageUsage}
use docker_mass_deployment.Telemetry.Quota.{
  alerted, student_alerted, insert_quota_alert, insert_student_quota_alert,
}
use docker_mass_deployment.Telemetry.Scrub.{
  mounted, scrubbed, report_scrub, check_entry, ingest_scrub, ingest_cold_storage,
}
use docker_mass_deployment.Telemetry.Storage.{
  insert_sample, scanned, store_scan, scan_placed, ingest_usage_scan, sample_of,
}
use docker_mass_deployment.Telemetry.Snapshots.{snapshot_rows, set_snapshot, ingest_snapshot}

-- An update that leaves the keys of a node alone.
pub record IsNodeKeyed (f : Node → Node) : Type 0 where
  pub id : (n : Node) → (f n).id ≡ n.id
  pub name : (n : Node) → (f n).name ≡ n.name

-- The placement stands on the node: it is the one of a lab there.
abbrev pub Hosted : String → Placed → Db → Type 0
Hosted n p d = (lab : String) × (get_placement_by_lab_node lab n d ≡ some p)

pub record Measured (n : String) (P : Db → Type 0) : Type 0 where
  pub node_row : (f : Node → Node) → IsNodeKeyed f → (d : Db) → P d → P (update_node n f d)
  pub log_row : (row : LogRow) (d : Db) → P d → P (insert_log row d)
  pub sample :
      (p : Placed) (u : StorageUsage) (student : Option ℕ) (now : ℕ) (d : Db)
      → Hosted n p d
      → P d
      → P (insert_sample (sample_of p.row u student now) d)
  pub quota_alert :
      (p : Placed) (a : QuotaAlert) (d : Db)
      → Hosted n p d
      → a.placement_id ≡ p.row.id
      → alerted a.placement_id a.pool a.ts d ≡ false
      → P d
      → P (insert_quota_alert a d)
  pub student_alert :
      (p : Placed) (a : StudentQuotaAlert) (d : Db)
      → Hosted n p d
      → a.placement_id ≡ p.row.id
      → student_alerted a.placement_id a.student_id a.pool a.ts d ≡ false
      → P d
      → P (insert_student_quota_alert a d)
  pub scan :
      (p : Placed) (at : ℕ) (d : Db)
      → Hosted n p d
      → P d
      → P (update_placement p.row.id (scanned at) d)
  pub snapshot :
      (now : ℕ) (ps : List Json) (rows : List Snapshot) (d : Db)
      → snapshot_rows n now ps d ≡ some rows
      → P d
      → P (set_snapshot rows d)

pub reported-IsNodeKeyed : (pools : Json) (now : ℕ) → IsNodeKeyed (reported pools now)
reported-IsNodeKeyed pools now = record { id = λ n. refl; name = λ n. refl }

mounted-IsNodeKeyed : (cold : Json) → IsNodeKeyed (mounted cold)
mounted-IsNodeKeyed cold = record { id = λ n. refl; name = λ n. refl }

scrubbed-IsNodeKeyed : (js : Items) → IsNodeKeyed (scrubbed js)
scrubbed-IsNodeKeyed js = record { id = λ n. refl; name = λ n. refl }

module _ {Q : Type 0} {n : String} {P : Db → Type 0} (c : Measured n P) where
  pub update_node-Keeps :
      (f : Node → Node) → IsNodeKeyed f → Keeps {Q = Q} P (modify (update_node n f))
  update_node-Keeps f k = modify-Keeps _ (c.node_row f k)

  insert_log-Keeps : (row : LogRow) → Keeps {Q = Q} P (modify (insert_log row))
  insert_log-Keeps row = modify-Keeps _ (c.log_row row)

  report_scrub-Keeps : (p : ScrubEntry) (now : ℕ) → Keeps {Q = Q} P (report_scrub n p now)
  unfolding report_scrub
  report_scrub-Keeps p now = search (keeping, insert_log-Keeps, alert_admins-Keeps)

  check_entry-Keeps :
      (prev : List ScrubEntry) (now : ℕ) (j : Json) → Keeps {Q = Q} P (check_entry n prev now j)
  unfolding check_entry
  check_entry-Keeps prev now j = search (keeping, report_scrub-Keeps)

  pub ingest_scrub-Keeps :
      (scrub : Option Json) (now : ℕ) → Keeps {Q = Q} P (ingest_scrub n scrub now)
  unfolding ingest_scrub
  ingest_scrub-Keeps none now = search keeping
  ingest_scrub-Keeps (some null) now = search keeping
  ingest_scrub-Keeps (some (bool b)) now = search keeping
  ingest_scrub-Keeps (some (num k)) now = search keeping
  ingest_scrub-Keeps (some (str s)) now = search keeping
  ingest_scrub-Keeps (some (obj fs)) now = search keeping
  ingest_scrub-Keeps (some (arr js)) now =
      search (keeping, update_node-Keeps, scrubbed-IsNodeKeyed, check_entry-Keeps) depth 10

  pub ingest_cold_storage-Keeps :
      (cold : Option Json) → Keeps {Q = Q} P (ingest_cold_storage n cold)
  unfolding ingest_cold_storage
  ingest_cold_storage-Keeps none = search keeping
  ingest_cold_storage-Keeps (some cold) = search (keeping, update_node-Keeps, mounted-IsNodeKeyed)

  pub ingest_snapshot-Keeps :
      (now : ℕ) (ps : List Json) → Keeps {Q = Q} P (ingest_snapshot n now ps)
  unfolding ingest_snapshot running
  ingest_snapshot-Keeps now ps = record { at = λ w. step w }
    where
      step : (w : World Q) → P w.db → P (ingest_snapshot n now ps w).1.db
      step w h = elim (Option-cases (snapshot_rows n now ps w.db)) [
        | inl e ↦ rw e h
        | inr (rows, e) ↦ rw e (c.snapshot now ps rows w.db e h)
      ]

  store_scan-Keeps : (lab : String) (at : ℕ) → Keeps {Q = Q} P (scan_placed n (some (lab, at)))
  unfolding store_scan running
  store_scan-Keeps lab at = record { at = λ w. step w }
    where
      step : (w : World Q) → P w.db → P (scan_placed n (some (lab, at)) w).1.db
      step w h = elim (Option-cases (get_placement_by_lab_node lab n w.db)) [
        | inl e ↦ rw e h
        | inr (p, e) ↦ rw e (c.scan p at w.db (lab, e) h)
      ]

  scan_placed-Keeps : (found : Option (String × ℕ)) → Keeps {Q = Q} P (scan_placed n found)
  scan_placed-Keeps none = search keeping
  scan_placed-Keeps (some (lab, at)) = store_scan-Keeps lab at

  pub ingest_usage_scan-Keeps : (j : Json) → Keeps {Q = Q} P (ingest_usage_scan n j)
  unfolding ingest_usage_scan
  ingest_usage_scan-Keeps j = search (keeping, scan_placed-Keeps)
