-- ===== src/Telemetry.antt =====
-- controller/src/lib/ingest.ts: the telemetry of a node.
pub mod Fields
pub mod Quota
pub mod Scrub
pub mod Storage
pub mod Snapshots
pub mod Closed
pub mod Operations
pub mod Locality
pub mod Processes
pub mod Hosting
pub mod Isolation
pub mod Latest
pub mod Spacing
use docker_mass_deployment.Base.{ℕ, String, List, [], Option, none, some, or_else}
use docker_mass_deployment.Json.{Json, Items, arr, nil, member_of}
use docker_mass_deployment.Nodes.{update_node}
use docker_mass_deployment.Store.Rows.{Node}
use docker_mass_deployment.Store.World.{Action, modify, clock, for_each, or_throw, ◌>>=◌, ◌>>◌}
use docker_mass_deployment.Telemetry.Fields.{present, elements, processes}
use docker_mass_deployment.Telemetry.Scrub.{ingest_cold_storage, ingest_scrub}
use docker_mass_deployment.Telemetry.Storage.{ingest_storage, ingest_usage_scan}
use docker_mass_deployment.Telemetry.Snapshots.{ingest_snapshot}

abbrev pub reported : Json → ℕ → Node → Node
reported pools now n = record n { pools = some pools; last_seen = some now }

module _ {Q : Type 0} where
  unfoldable pub ingest_telemetry : String → Json → Action Q (Unit {0})
  ingest_telemetry node payload = do
    now ← clock
    modify
        (update_node node (reported (or_else (present (member_of "pools" payload)) (arr nil)) now))
    ingest_cold_storage node (member_of "cold" payload)
    ingest_scrub node (member_of "scrub" payload) now
    storage ← or_throw (elements (member_of "storage" payload)) "storage is not iterable"
    for_each storage (ingest_storage node now)
    scans ← or_throw (elements (member_of "usage_scans" payload)) "usage_scans is not iterable"
    for_each scans (ingest_usage_scan node)
    gpu ← or_throw (processes (member_of "gpu_processes" payload)) "gpu is not iterable"
    ingest_snapshot node now gpu
