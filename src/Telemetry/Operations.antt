-- ===== src/Telemetry/Operations.antt =====
-- Samples and quota alerts of controller/src/lib/ingest.ts, and telemetry as a whole, against the
-- closed invariants.
use docker_mass_deployment.Base.{
  ℕ, String, ◌≡◌, refl, ◌∙◌, Bool, true, false, not, ◌||◌, Option, none, some, List, ltb, leb,
  Bool-cases, Option-cases, inl, inr, filled_text,
}
use docker_mass_deployment.Json.{Json}
use docker_mass_deployment.Store.Rows.{Node, Lab, Student, Sample, Admin}
use docker_mass_deployment.Store.World.{Db, Mail, World, pure, running}
use docker_mass_deployment.Store.Keeps.{Keeps, keeping}
use docker_mass_deployment.Placements.Tables.{Placed, find_lab, get_placement_by_lab_node}
use docker_mass_deployment.Placements.Lookup.{get_placement_by_lab_node-same}
use docker_mass_deployment.Telemetry.{ingest_telemetry}
use docker_mass_deployment.Telemetry.Fields.{StorageUsage, usage_of, is_rootfs, tier_name}
use docker_mass_deployment.Telemetry.Quota.{
  tell_student, Usage, alerted, student_alerted, insert_quota_alert, insert_student_quota_alert,
  tell_pi, alert_pi, alert_pi_unless, maybe_quota_alert, tell_admins, alert_student,
  alert_student_unless, recipient, maybe_student_quota_alert, percent, quota_alert_row,
  student_alert_row, addressed,
}
use docker_mass_deployment.Telemetry.Storage.{
  should_sample, insert_sample, Holder, whole, member, unknown, store_sample, store_known,
  store_placed, store_usage, ingest_storage, usage_at, alert_member, alert_whole, alert_holder,
  sample_of, holder_id, holder_of,
}
use docker_mass_deployment.Telemetry.Closed.{
  reported-IsNodeKeyed, Hosted, Measured, update_node-Keeps, ingest_scrub-Keeps,
  ingest_cold_storage-Keeps, ingest_snapshot-Keeps, ingest_usage_scan-Keeps,
}

insert_sample-Hosted :
    (n : String) (p : Placed) (s : Sample) (d : Db) → Hosted n p d → Hosted n p (insert_sample s d)
unfolding insert_sample
insert_sample-Hosted n p s d (lab, h) =
    (lab, get_placement_by_lab_node-same (insert_sample s d) d lab n refl refl refl ∙ h)

abbrev Both : (Db → Type 0) → String → Placed → Db → Type 0
Both P n p d = P d × Hosted n p d

-- Where the check for an earlier alert has passed.
abbrev Clear : (Db → Type 0) → String → Placed → Usage → ℕ → Db → Type 0
Clear P n p u now d = Both P n p d × (alerted u.placement_id u.pool now d ≡ false)

module _ {Q : Type 0} {n : String} {P : Db → Type 0} (c : Measured n P) where
  tell_pi-Keeps :
      {R : Db → Type 0} (u : Usage) (pct now : ℕ) (lab : Lab) (to : Option String)
      → Keeps {Q = Q} R (tell_pi u pct now lab to)
  unfolding tell_pi
  tell_pi-Keeps u pct now lab none = search keeping
  tell_pi-Keeps u pct now lab (some to) = search keeping

  module _ (p : Placed) (u : Usage) (same : u.placement_id ≡ p.row.id) (now : ℕ) where
    alert_pi-Keeps :
        (pct : ℕ) (lab : Option Lab) (w : World Q)
        → Clear P n p u now w.db
        → P (alert_pi u pct now lab w).1.db
    unfolding alert_pi running
    alert_pi-Keeps pct none w ((h, k), e) = h
    alert_pi-Keeps pct (some lab) w ((h, k), e) =
        (tell_pi-Keeps {R = P} u pct now lab (filled_text lab.pi_email)).at
          (record w { db = insert_quota_alert (quota_alert_row u pct now) w.db })
          (c.quota_alert p (quota_alert_row u pct now) w.db k same e h)

    maybe_quota_alert-Keeps : (w : World Q) → Both P n p w.db → P (maybe_quota_alert u now w).1.db
    unfolding maybe_quota_alert alert_pi_unless running
    maybe_quota_alert-Keeps w (h, k) =
        elim (Bool-cases (ltb (percent u.used u.quota) w.db.settings.quota_alert_pct)) [
          | inl b ↦ rw b h
          | inr b ↦ elim (Bool-cases (alerted u.placement_id u.pool now w.db)) [
            | inl e ↦ rw (b, e) h
            | inr e ↦
                rw (b, e)
                  (alert_pi-Keeps (percent u.used u.quota) (find_lab u.lab_id w.db) w ((h, k), e))
          ]
        ]

  tell_admins-Keeps :
      {R : Db → Type 0} (b : Bool) (admins : List Admin) (mail : String → Mail)
      → Keeps {Q = Q} R (tell_admins b admins mail)
  tell_admins-Keeps false admins mail = search keeping
  tell_admins-Keeps true admins mail = search keeping

  tell_student-Keeps :
      {R : Db → Type 0} (u : Usage) (pct : ℕ) (to : String) (info : Student × Lab × Node)
      → Keeps {Q = Q} R (tell_student u pct to info)
  unfolding tell_student
  tell_student-Keeps u pct to info = search (keeping, tell_admins-Keeps) depth 8

  module _ (p : Placed) (u : Usage) (same : u.placement_id ≡ p.row.id) (student now : ℕ) where
    alert_student-Keeps :
        (pct : ℕ) (to : Option (String × Student × Lab × Node)) (w : World Q)
        → Both P n p w.db
        → student_alerted u.placement_id student u.pool now w.db ≡ false
        → P (alert_student u student pct now to w).1.db
    unfolding alert_student running
    alert_student-Keeps pct none w (h, k) e = h
    alert_student-Keeps pct (some (to, s, l, m)) w (h, k) e =
        (tell_student-Keeps {R = P} u pct to (s, l, m)).at
          (record w { db = insert_student_quota_alert (student_alert_row u student pct now) w.db })
          (c.student_alert p (student_alert_row u student pct now) w.db k same e h)

    maybe_student_quota_alert-Keeps :
        (node : String) (w : World Q)
        → Both P n p w.db
        → P (maybe_student_quota_alert u student node now w).1.db
    unfolding maybe_student_quota_alert alert_student_unless running
    maybe_student_quota_alert-Keeps node w (h, k) =
        elim (Bool-cases (
          not w.db.settings.student_quota_alerts_enabled
          || leb (percent u.used u.quota) w.db.settings.student_quota_alert_pct)) [
            | inl b ↦ rw b h
            | inr b ↦ elim (Bool-cases (student_alerted u.placement_id student u.pool now w.db)) [
              | inl e ↦ rw (b, e) h
              | inr e ↦
                  rw (b, e)
                    (alert_student-Keeps (percent u.used u.quota)
                      (addressed (recipient student u.lab_id node w.db)) w (h, k) e)
            ]
          ]

  module _ (p : Placed) (u : StorageUsage) (node : String) (now : ℕ) where
    alert_whole-Keeps :
        (quota : Option ℕ) (w : World Q)
        → Both P n p w.db
        → P (alert_whole p.row u now quota w).1.db
    unfolding pure
    alert_whole-Keeps none w (h, k) = h
    alert_whole-Keeps (some quota) w (h, k) = elim (Bool-cases (is_rootfs u.tier)) [
      | inl e ↦ rw e h
      | inr e ↦ rw e (maybe_quota_alert-Keeps p (usage_at p.row u quota) refl now w (h, k))
    ]

    alert_member-Keeps :
        (student : ℕ) (quota : Option ℕ) (w : World Q)
        → Both P n p w.db
        → P (alert_member p.row u student node now quota w).1.db
    unfolding pure
    alert_member-Keeps student none w (h, k) = h
    alert_member-Keeps student (some quota) w b =
        maybe_student_quota_alert-Keeps p (usage_at p.row u quota) refl student now node w b

    alert_holder-Keeps :
        (holder : Holder) (w : World Q)
        → Both P n p w.db
        → P (alert_holder p.row u node now holder w).1.db
    unfolding pure
    alert_holder-Keeps whole w b = alert_whole-Keeps _ w b
    alert_holder-Keeps (member id) w b = alert_member-Keeps id _ w b
    alert_holder-Keeps unknown w (h, k) = h

    store_sample-Keeps :
        (holder : Holder) (w : World Q)
        → Both P n p w.db
        → P (store_sample node now p.row u holder w).1.db
    unfolding store_sample running
    store_sample-Keeps holder w (h, k) =
        elim (Bool-cases (
          should_sample p.row.id (holder_id holder) (tier_name u.tier) u.used_bytes now
            (is_rootfs u.tier || not u.is_null_user) w.db)) [
              | inr e ↦ rw e h
              | inl e ↦ rw e (
                  alert_holder-Keeps holder
                    (record w {
                      db = insert_sample (sample_of p.row u (holder_id holder) now) w.db;
                    })
                    (
                      c.sample p u (holder_id holder) now w.db k h,
                      insert_sample-Hosted n p (sample_of p.row u (holder_id holder) now) w.db k,
                    ))
            ]

    store_known-Keeps :
        (holder : Holder) (w : World Q)
        → Both P n p w.db
        → P (store_known node now p.row u holder w).1.db
    unfolding store_known pure
    store_known-Keeps unknown w (h, k) = h
    store_known-Keeps whole w b = store_sample-Keeps whole w b
    store_known-Keeps (member id) w b = store_sample-Keeps (member id) w b

  store_usage-Keeps :
      (now : ℕ) (found : Option StorageUsage) → Keeps {Q = Q} P (store_usage n now found)
  unfolding store_placed running
  store_usage-Keeps now none = record { at = λ w h. h }
  store_usage-Keeps now (some u) = record { at = λ w. step w }
    where
      step : (w : World Q) → P w.db → P (store_usage n now (some u) w).1.db
      step w h = elim (Option-cases (get_placement_by_lab_node u.lab n w.db)) [
        | inl e ↦ rw e h
        | inr (p, e) ↦
            rw e
              (store_known-Keeps p u n now (holder_of p.row.lab_id u.user w.db) w (h, (u.lab, e)))
      ]

  ingest_storage-Keeps : (now : ℕ) (j : Json) → Keeps {Q = Q} P (ingest_storage n now j)
  unfolding ingest_storage
  ingest_storage-Keeps now j = store_usage-Keeps now (usage_of j)

  pub ingest_telemetry-Keeps : (payload : Json) → Keeps {Q = Q} P (ingest_telemetry n payload)
  unfolding ingest_telemetry
  ingest_telemetry-Keeps payload =
      search
        (
          keeping, update_node-Keeps, reported-IsNodeKeyed, ingest_cold_storage-Keeps,
          ingest_scrub-Keeps, ingest_storage-Keeps, ingest_usage_scan-Keeps, ingest_snapshot-Keeps,
        )
        depth 30
