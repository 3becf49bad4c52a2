-- ===== src/Telemetry/Spacing.antt =====
-- How often a quota alert goes out (controller/src/lib/ingest.ts), over reports of any nodes.
use docker_mass_deployment.Base.{
  ℕ, ◌+◌, String, ◌≡◌, refl, Bool, false, ◌&&◌, List, [], ◌∷◌, ◌++◌, ◌==◌, str_eq, ltb, any,
  any-append, arith, Distinct,
}
use docker_mass_deployment.Json.{Json}
use docker_mass_deployment.Nodes.{update_node}
use docker_mass_deployment.Hub.Ingest.Fields.{insert_log}
use docker_mass_deployment.Placements.Tables.{update_placement}
use docker_mass_deployment.Store.Rows.{QuotaAlert, StudentQuotaAlert}
use docker_mass_deployment.Store.World.{Db, World}
use docker_mass_deployment.Telemetry.{ingest_telemetry}
use docker_mass_deployment.Telemetry.Closed.{Measured}
use docker_mass_deployment.Telemetry.Operations.{ingest_telemetry-Keeps}
use docker_mass_deployment.Telemetry.Quota.{
  alerted, student_alerted, insert_quota_alert, insert_student_quota_alert,
}
use docker_mass_deployment.Telemetry.Snapshots.{set_snapshot}
use docker_mass_deployment.Telemetry.Storage.{insert_sample}

-- The second alert is on the same pool of the same placement, less than six hours after the first.
abbrev pub too_soon : QuotaAlert → QuotaAlert → Bool
too_soon a b =
    (a.placement_id == b.placement_id && str_eq a.pool b.pool) && ltb b.ts (a.ts + 21600000)

-- The same for alerts on a student, with a day.
abbrev pub student_too_soon : StudentQuotaAlert → StudentQuotaAlert → Bool
student_too_soon a b =
    (a.placement_id == b.placement_id && a.student_id == b.student_id && str_eq a.pool b.pool)
    && ltb b.ts (a.ts + 86400000)

-- No alert follows another too soon.
pub record Spaced (d : Db) : Type 0 where
  pub labs : Distinct too_soon d.quota_alerts
  pub students : Distinct student_too_soon d.student_quota_alerts

Distinct-behind :
    {A : Type 0} (clash : A → A → Bool) (xs : List A) (y : A)
    → any (λ x. clash x y) xs ≡ false
    → Distinct clash xs
    → Distinct clash (xs ++ y ∷ [])
Distinct-behind clash [] y h hs = (refl, tt)
Distinct-behind clash (x ∷ xs) y h (k, ks) =
    (ground (arith, any-append (clash x) xs (y ∷ [])), Distinct-behind clash xs y (ground arith) ks)

Spaced-Measured : (n : String) → Measured n Spaced
unfolding update_node insert_log update_placement insert_sample insert_quota_alert
    insert_student_quota_alert set_snapshot alerted student_alerted
Spaced-Measured n = record {
  node_row = λ f k d s. record { labs = s.labs; students = s.students };
  log_row = λ row d s. record { labs = s.labs; students = s.students };
  sample = λ p u student now d h s. record { labs = s.labs; students = s.students };
  quota_alert = λ p a d h i fresh s. record {
    labs = Distinct-behind too_soon d.quota_alerts a fresh s.labs;
    students = s.students;
  };
  student_alert = λ p a d h i fresh s. record {
    labs = s.labs;
    students = Distinct-behind student_too_soon d.student_quota_alerts a fresh s.students;
  };
  scan = λ p at d h s. record { labs = s.labs; students = s.students };
  snapshot = λ now ps rows d e s. record { labs = s.labs; students = s.students };
}

-- A report that a node sends at a time.
pub record Report : Type 0 where
  pub at : ℕ
  pub node : String
  pub payload : Json

module _ {Q : Type 0} where
  -- The reports one after another, whether or not one of them throws.
  unfoldable pub after_reports : List Report → World Q → World Q
  after_reports [] w = w
  after_reports (r ∷ rs) w =
      after_reports rs (ingest_telemetry r.node r.payload (record w { now = r.at })).1

  -- After any reports of any nodes, in any order and at any times, no quota alert on a pool of a
  -- placement follows another within six hours, and none on a student's use of it within a day, if
  -- it was so before.
  pub ingest_telemetry-Spaced :
      (reports : List Report) (w : World Q) → Spaced w.db → Spaced (after_reports reports w).db
  unfolding after_reports
  ingest_telemetry-Spaced [] w s = s
  ingest_telemetry-Spaced (r ∷ rs) w s =
      ingest_telemetry-Spaced rs (ingest_telemetry r.node r.payload (record w { now = r.at })).1
        ((ingest_telemetry-Keeps (Spaced-Measured r.node) r.payload).at (record w { now = r.at }) s)
