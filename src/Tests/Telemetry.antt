-- ===== src/Tests/Telemetry.antt =====
-- The theorem on telemetry at the campus: `lake` reports on its lab and on one it does not host.
use docker_mass_deployment.Base.{ℕ, String, ◌≡◌, List, [], ◌∷◌}
use docker_mass_deployment.Json.{Json, obj, arr, str, num, cons, nil, field, end}
use docker_mass_deployment.Telemetry.{ingest_telemetry}
use docker_mass_deployment.Telemetry.Locality.{IsLocal}
use docker_mass_deployment.Telemetry.Isolation.{ingest_telemetry-IsLocal}
use docker_mass_deployment.Telemetry.Spacing.{
  Report, Spaced, after_reports, ingest_telemetry-Spaced,
}
use docker_mass_deployment.Telemetry.Snapshots.{snapshot_rows}
use docker_mass_deployment.Telemetry.Latest.{latest, refreshed, snapshot_rows-latest}
use docker_mass_deployment.Tests.{campus, campus_db}
use docker_mass_deployment.Tests.Runs.{campus-WellFormed}

abbrev usage : String → ℕ → Json
usage lab used = obj (
    field "lab" (str lab) (
      field "tier" (str "fast")
        (field "used_bytes" (num used) (field "quota_bytes" (num 100) end))))

abbrev payload : Json
payload = obj (
    field "storage" (arr (cons (usage "smith" 95) (cons (usage "jones" 95) nil))) (
      field "usage_scans"
        (arr (cons (obj (field "lab" (str "smith") (field "scanned_at" (num 900) end))) nil))
        (field "gpu_processes"
          (arr (cons (obj (field "pid" (num 7) (field "lab" (str "smith") end))) nil)) end)))

ingest_telemetry-IsLocal_example :
    IsLocal "lake" campus.db (ingest_telemetry "lake" payload campus).1.db
ingest_telemetry-IsLocal_example = ingest_telemetry-IsLocal "lake" payload campus campus-WellFormed

-- The same usage three times: the second report is within six hours of the first.
abbrev reports : List Report
reports =
    record { at = 1000; node = "lake"; payload = payload }
    ∷ record { at = 600000; node = "lake"; payload = payload }
    ∷ record { at = 30000000; node = "lake"; payload = payload }
    ∷ []

ingest_telemetry-Spaced_example : Spaced (after_reports reports campus).db
ingest_telemetry-Spaced_example =
    ingest_telemetry-Spaced reports campus (record { labs = tt; students = tt })

-- The process 7 twice, the second time with a user.
abbrev gpu : List Json
gpu =
    obj (field "pid" (num 7) end)
    ∷ obj (field "pid" (num 8) end)
    ∷ obj (field "pid" (num 7) (field "user" (str "ann") end))
    ∷ []

snapshot_rows-latest_example :
    snapshot_rows "lake" 1000 gpu campus_db
    ≡ refreshed "lake" campus_db.gpu_snapshot (latest "lake" 1000 campus_db gpu)
snapshot_rows-latest_example = snapshot_rows-latest "lake" 1000 gpu campus_db
