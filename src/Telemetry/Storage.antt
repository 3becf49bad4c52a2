-- ===== src/Telemetry/Storage.antt =====
-- Storage samples and scan times in controller/src/lib/ingest.ts.
use docker_mass_deployment.Base.{
  ℕ, ◌+◌, ◌*◌, String, Bool, true, false, ◌&&◌, ◌||◌, not, Option, none, some, [], ◌∷◌, ◌++◌, ◌==◌,
  str_eq, leb, ltb, find?, or_else, reverse, if◌then◌else◌,
}
use docker_mass_deployment.Json.{Json}
use docker_mass_deployment.Placements.Tables.{
  Placed, find_student, get_placement_by_lab_node, update_placement,
}
use docker_mass_deployment.Store.Rows.{Placement, Student, LabMember, Sample}
use docker_mass_deployment.Store.World.{Db, Action, pure, gets, modify, throw_if, when, ◌>>=◌, ◌>>◌}
use docker_mass_deployment.Telemetry.Fields.{
  fast, cold, rootfs, tier_name, is_rootfs, StorageUsage, usage_of, scan_of, is_nothing,
}
use docker_mass_deployment.Telemetry.Quota.{Usage, maybe_quota_alert, maybe_student_quota_alert}

-- A member of the lab with this user name.
abbrev named_member : String → Option Student → Bool
named_member name none = false
named_member name (some s) = str_eq s.username name

abbrev member_id : Option LabMember → Option ℕ
member_id none = none
member_id (some m) = some m.student_id

unfoldable pub student_id_in_lab : ℕ → String → Db → Option ℕ
unfolding find_student
student_id_in_lab lab name d = member_id (
    find? (λ (m : LabMember). m.lab_id == lab && named_member name (find_student m.student_id d))
      d.lab_members.rows)

abbrev same_opt : Option ℕ → Option ℕ → Bool
same_opt none none = true
same_opt (some a) (some b) = a == b
same_opt _ _ = false

-- The last sample of a student, or of the placement as a whole, in a pool.
unfoldable pub last_sample : ℕ → Option ℕ → String → Db → Option Sample
last_sample placement student pool d =
    find?
      (λ (s : Sample).
        s.placement_id == placement && same_opt s.student_id student && str_eq s.pool pool)
      (reverse d.storage_samples)

-- At most one sample in five minutes; a scanned value also when it has changed.
abbrev is_due : Option Sample → ℕ → ℕ → Bool → Bool
is_due none used now scan_derived = true
is_due (some s) used now scan_derived =
    leb (s.ts + 5 * 60 * 1000) now || (scan_derived && not (s.used_bytes == used))

unfoldable pub should_sample : ℕ → Option ℕ → String → ℕ → ℕ → Bool → Db → Bool
unfolding last_sample
should_sample placement student pool used now scan_derived d =
    is_due (last_sample placement student pool d) used now scan_derived

unfoldable pub insert_sample : Sample → Db → Db
insert_sample s d = record d { storage_samples = d.storage_samples ++ s ∷ [] }

abbrev first_of : Option ℕ → Option ℕ → Option ℕ
first_of none b = b
first_of (some a) b = some a

-- The quota that an account's use of a pool counts against.
abbrev pub user_quota : StorageUsage → Placement → Option ℕ
user_quota u p = elim u.tier [
  | fast ↦ some (or_else u.quota_bytes (or_else p.student_fast_quota_bytes p.fast_quota_bytes))
  | cold ↦ first_of u.quota_bytes (first_of p.student_cold_quota_bytes p.cold_quota_bytes)
  | rootfs ↦ none
]

-- A quota that counts as true.
abbrev nonzero : Option ℕ → Option ℕ
nonzero none = none
nonzero (some q) = if q == 0 then none else some q

abbrev pub usage_at : Placement → StorageUsage → ℕ → Usage
usage_at p u quota = record {
  placement_id = p.id;
  lab_id = p.lab_id;
  pool = tier_name u.tier;
  used = u.used_bytes;
  quota = quota;
}

-- Whom the usage is of: the placement, or one of the lab's members. An unknown user is skipped.
pub data Holder : Type 0 where
  whole : Holder
  member : ℕ → Holder
  unknown : Holder

abbrev found_member : Option ℕ → Holder
found_member none = unknown
found_member (some id) = member id

unfoldable pub holder_of : ℕ → Option String → Db → Holder
unfolding student_id_in_lab
holder_of lab none d = whole
holder_of lab (some name) d = found_member (student_id_in_lab lab name d)

abbrev pub holder_id : Holder → Option ℕ
holder_id (member id) = some id
holder_id _ = none

abbrev pub sample_of : Placement → StorageUsage → Option ℕ → ℕ → Sample
sample_of p u student now = record {
  placement_id = p.id;
  lab_id = p.lab_id;
  student_id = student;
  pool = tier_name u.tier;
  used_bytes = u.used_bytes;
  quota_bytes = u.quota_bytes;
  ts = now;
}

module _ {Q : Type 0} where
  abbrev pub alert_member :
      Placement → StorageUsage → ℕ → String → ℕ → Option ℕ → Action Q (Unit {0})
  alert_member p u student node now none = pure tt
  alert_member p u student node now (some quota) =
      maybe_student_quota_alert (usage_at p u quota) student node now

  abbrev pub alert_whole : Placement → StorageUsage → ℕ → Option ℕ → Action Q (Unit {0})
  alert_whole p u now none = pure tt
  alert_whole p u now (some quota) =
      if is_rootfs u.tier then pure tt else maybe_quota_alert (usage_at p u quota) now

  abbrev pub alert_holder : Placement → StorageUsage → String → ℕ → Holder → Action Q (Unit {0})
  alert_holder p u node now whole = alert_whole p u now (nonzero u.quota_bytes)
  alert_holder p u node now (member id) = alert_member p u id node now (nonzero (user_quota u p))
  alert_holder p u node now unknown = pure tt

  unfoldable pub store_sample : String → ℕ → Placement → StorageUsage → Holder → Action Q (Unit {0})
  store_sample node now p u holder = do
    due ← gets (
        should_sample p.id (holder_id holder) (tier_name u.tier) u.used_bytes now
          (is_rootfs u.tier || not u.is_null_user))
    when due (
        modify (insert_sample (sample_of p u (holder_id holder) now))
        >> alert_holder p u node now holder)

  unfoldable pub store_known : String → ℕ → Placement → StorageUsage → Holder → Action Q (Unit {0})
  store_known node now p u unknown = pure tt
  store_known node now p u holder = store_sample node now p u holder

  -- A lab that the node does not host is foreign telemetry.
  unfoldable pub store_placed : String → ℕ → StorageUsage → Option Placed → Action Q (Unit {0})
  store_placed node now u none = pure tt
  store_placed node now u (some p) = do
    holder ← gets (holder_of p.row.lab_id u.user)
    store_known node now p.row u holder

  abbrev pub store_usage : String → ℕ → Option StorageUsage → Action Q (Unit {0})
  store_usage node now none = pure tt
  store_usage node now (some u) = do
    placed ← gets (get_placement_by_lab_node u.lab node)
    store_placed node now u placed

  unfoldable pub ingest_storage : String → ℕ → Json → Action Q (Unit {0})
  ingest_storage node now j = store_usage node now (usage_of j)

-- Only ever forward.
abbrev pub scanned : ℕ → Placement → Placement
scanned at p = elim p.usage_scanned_at [
  | none ↦ record p { usage_scanned_at = some at }
  | some before ↦ if ltb before at then record p { usage_scanned_at = some at } else p
]

module _ {Q : Type 0} where
  unfoldable pub store_scan : ℕ → Option Placed → Action Q (Unit {0})
  store_scan at none = pure tt
  store_scan at (some p) = modify (update_placement p.row.id (scanned at))

  abbrev pub scan_placed : String → Option (String × ℕ) → Action Q (Unit {0})
  scan_placed node none = pure tt
  scan_placed node (some (lab, at)) = do
    placed ← gets (get_placement_by_lab_node lab node)
    store_scan at placed

  unfoldable pub ingest_usage_scan : String → Json → Action Q (Unit {0})
  ingest_usage_scan node j = do
    throw_if (is_nothing j) "Cannot read properties of null"
    scan_placed node (scan_of j)
