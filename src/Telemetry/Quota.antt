-- ===== src/Telemetry/Quota.antt =====
-- Quota alerts in controller/src/lib/ingest.ts, to students and to PIs.
use docker_mass_deployment.Base.{
  ℕ, zero, suc, ◌+◌, ◌*◌, ◌-◌, String, Bool, true, false, ◌&&◌, ◌||◌, not, Option, none, some, List,
  [], ◌∷◌, ◌++◌, ◌⧺◌, ◌==◌, str_eq, ltb, leb, any, filter, length, codes, opt_is, or_else,
  filled_text, trim_opt, if◌then◌else◌,
}
use docker_mass_deployment.Format.{decimal, fmt_bytes, round_div}
use docker_mass_deployment.Placements.Tables.{find_lab, find_student, find_node_by_name}
use docker_mass_deployment.Store.Rows.{
  Node, Lab, Student, Sample, QuotaAlert, StudentQuotaAlert, Admin,
}
use docker_mass_deployment.Store.World.{
  Db, Mail, Action, pure, gets, modify, send_mail, for_each, ◌>>=◌, ◌>>◌,
}

-- `Math.round((used / quota) * 100)`, of the exact quotient.
unfoldable pub percent : ℕ → ℕ → ℕ
unfolding round_div
percent used quota = round_div (100 * used) quota

abbrev pub hours : ℕ → ℕ
hours n = n * 60 * 60 * 1000

-- An alert at `ts` is still recent: `now - ts < window`.
abbrev pub is_recent : ℕ → ℕ → ℕ → Bool
is_recent now window ts = ltb now (ts + window)

-- An earlier alert for the same pool within six hours. Only the latest is compared, and it is the
-- last to pass out of the window.
unfoldable pub alerted : ℕ → String → ℕ → Db → Bool
alerted placement pool now d =
    any
      (λ (a : QuotaAlert).
        (a.placement_id == placement && str_eq a.pool pool) && is_recent now (hours 6) a.ts)
      d.quota_alerts

-- The same for a student, within a day.
unfoldable pub student_alerted : ℕ → ℕ → String → ℕ → Db → Bool
student_alerted placement student pool now d =
    any
      (λ (a : StudentQuotaAlert).
        (a.placement_id == placement && a.student_id == student && str_eq a.pool pool)
        && is_recent now (hours 24) a.ts)
      d.student_quota_alerts

unfoldable pub insert_quota_alert : QuotaAlert → Db → Db
insert_quota_alert a d = record d { quota_alerts = d.quota_alerts ++ a ∷ [] }

unfoldable pub insert_student_quota_alert : StudentQuotaAlert → Db → Db
insert_student_quota_alert a d = record d {
  student_quota_alerts = d.student_quota_alerts ++ a ∷ [];
}

-- The latest sample of a student in a pool of a placement. Of two at the same time the first one
-- counts; the query leaves that open.
abbrev newer : Option Sample → Sample → Option Sample
newer none s = some s
newer (some t) s = if ltb t.ts s.ts then some s else some t

abbrev newest : Option Sample → List Sample → Option Sample
newest best [] = best
newest best (s ∷ ss) = newest (newer best s) ss

unfoldable pub latest_use : ℕ → String → Db → ℕ → Option Sample
latest_use placement pool d student = newest none (
    filter
      (λ (s : Sample).
        s.placement_id == placement && opt_is s.student_id student && str_eq s.pool pool)
      d.storage_samples)

-- `ORDER BY used DESC`
abbrev insert_use : String × ℕ → List (String × ℕ) → List (String × ℕ)
insert_use u [] = u ∷ []
insert_use u (v ∷ vs) = let later = insert_use u vs in if ltb u.1 v.1 then v ∷ later else u ∷ v ∷ vs

abbrev add_use : String → Option Sample → List (String × ℕ) → List (String × ℕ)
add_use name none us = us
add_use name (some s) us = insert_use (name, s.used_bytes) us

abbrev uses_of : ℕ → String → Db → List Student → List (String × ℕ)
uses_of placement pool d [] = []
uses_of placement pool d (s ∷ ss) =
    add_use s.username (latest_use placement pool d s.id) (uses_of placement pool d ss)

-- The students with samples in the pool, by their latest use.
unfoldable pub breakdown : ℕ → String → Db → List (String × ℕ)
unfolding latest_use
breakdown placement pool d = uses_of placement pool d d.students.rows

abbrev spaces : ℕ → String
spaces zero = ""
spaces (suc n) = " " ⧺ spaces n

-- `padEnd(20)`
abbrev padded : String → String
padded s = s ⧺ spaces (20 - length (codes s))

abbrev use_line : String × ℕ → String
use_line (name, used) = "  " ⧺ (padded name ⧺ (" " ⧺ fmt_bytes (some used)))

abbrev use_lines : List (String × ℕ) → String
use_lines [] = "  (no per-student usage reported yet)"
use_lines (u ∷ []) = use_line u
use_lines (u ∷ us) = use_line u ⧺ ("\n" ⧺ use_lines us)

unfoldable pub quota_mail : String → String → String → ℕ → ℕ → ℕ → List (String × ℕ) → Mail
quota_mail to lab pool pct used quota uses = record {
  to = to;
  template = "quota";
  values =
      ("lab", lab)
      ∷ ("pool", pool)
      ∷ ("pct", decimal pct)
      ∷ ("used", fmt_bytes (some used))
      ∷ ("quota", fmt_bytes (some quota))
      ∷ ("breakdown", use_lines uses)
      ∷ [];
}

-- The student, the lab and the node of an alert.
abbrev recipient_from : Option Student → Option Lab → Option Node → Option (Student × Lab × Node)
recipient_from (some s) (some l) (some n) = some (s, l, n)
recipient_from _ _ _ = none

unfoldable pub recipient : ℕ → ℕ → String → Db → Option (Student × Lab × Node)
unfolding find_student find_lab find_node_by_name
recipient student lab node d =
    recipient_from (find_student student d) (find_lab lab d) (find_node_by_name node d)

unfoldable pub student_quota_mail : String → Student × Lab × Node → String → ℕ → ℕ → ℕ → Mail
student_quota_mail to (s, l, n) pool pct used quota = record {
  to = to;
  template = "student-quota";
  values =
      ("name", or_else (filled_text s.name) s.username)
      ∷ ("username", s.username)
      ∷ ("lab", l.name)
      ∷ ("node", or_else (trim_opt n.alias) n.name)
      ∷ ("pool", pool)
      ∷ ("pct", decimal pct)
      ∷ ("used", fmt_bytes (some used))
      ∷ ("quota", fmt_bytes (some quota))
      ∷ [];
}

-- The recipient's address, if there is one.
abbrev pub addressed : Option (Student × Lab × Node) → Option (String × Student × Lab × Node)
addressed none = none
addressed (some (s, l, n)) = elim (filled_text s.email) [
  | none ↦ none
  | some to ↦ some (to, s, l, n)
]

-- A usage of a pool of a placement, against a quota.
pub record Usage : Type 0 where
  pub placement_id : ℕ
  pub lab_id : ℕ
  pub pool : String
  pub used : ℕ
  pub quota : ℕ

abbrev pub quota_alert_row : Usage → ℕ → ℕ → QuotaAlert
quota_alert_row u pct now = record {
  placement_id = u.placement_id;
  lab_id = u.lab_id;
  pool = u.pool;
  pct = pct;
  ts = now;
}

abbrev pub student_alert_row : Usage → ℕ → ℕ → ℕ → StudentQuotaAlert
student_alert_row u student pct now = record {
  placement_id = u.placement_id;
  student_id = student;
  pool = u.pool;
  pct = pct;
  ts = now;
}

module _ {Q : Type 0} where
  unfoldable pub tell_pi : Usage → ℕ → ℕ → Lab → Option String → Action Q (Unit {0})
  tell_pi u pct now lab none = pure tt
  tell_pi u pct now lab (some to) = do
    uses ← gets (breakdown u.placement_id u.pool)
    send_mail (quota_mail to lab.name u.pool pct u.used u.quota uses)

  unfoldable pub alert_pi : Usage → ℕ → ℕ → Option Lab → Action Q (Unit {0})
  alert_pi u pct now none = pure tt
  alert_pi u pct now (some lab) = do
    modify (insert_quota_alert (quota_alert_row u pct now))
    tell_pi u pct now lab (filled_text lab.pi_email)

  -- Not again for the same pool within six hours.
  unfoldable pub alert_pi_unless : Bool → Usage → ℕ → ℕ → Action Q (Unit {0})
  alert_pi_unless true u pct now = pure tt
  alert_pi_unless false u pct now = do lab ← gets (find_lab u.lab_id); alert_pi u pct now lab

  unfoldable pub maybe_quota_alert : Usage → ℕ → Action Q (Unit {0})
  maybe_quota_alert u now = do
    let pct = percent u.used u.quota
    limit ← gets (λ d. d.settings.quota_alert_pct)
    recent ← gets (alerted u.placement_id u.pool now)
    if ltb pct limit then pure tt else alert_pi_unless recent u pct now

  abbrev pub tell_admins : Bool → List Admin → (String → Mail) → Action Q (Unit {0})
  tell_admins false admins mail = pure tt
  tell_admins true admins mail =
      for_each (filter (λ a. a.is_active) admins) (λ (a : Admin). send_mail (mail a.email))

  -- The student, and the administrators if they want to know.
  unfoldable pub tell_student : Usage → ℕ → String → Student × Lab × Node → Action Q (Unit {0})
  tell_student u pct to info = do
    send_mail (student_quota_mail to info u.pool pct u.used u.quota)
    notify ← gets (λ d. d.settings.student_quota_notify_admins)
    admins ← gets (λ d. d.admins)
    tell_admins notify admins (λ a. student_quota_mail a info u.pool pct u.used u.quota)

  unfoldable pub alert_student :
      Usage → ℕ → ℕ → ℕ → Option (String × Student × Lab × Node) → Action Q (Unit {0})
  alert_student u student pct now none = pure tt
  alert_student u student pct now (some (to, s, l, n)) = do
    modify (insert_student_quota_alert (student_alert_row u student pct now))
    tell_student u pct to (s, l, n)

  unfoldable pub alert_student_unless : Bool → Usage → ℕ → String → ℕ → ℕ → Action Q (Unit {0})
  alert_student_unless true u student node pct now = pure tt
  alert_student_unless false u student node pct now = do
    found ← gets (recipient student u.lab_id node)
    alert_student u student pct now (addressed found)

  unfoldable pub maybe_student_quota_alert : Usage → ℕ → String → ℕ → Action Q (Unit {0})
  maybe_student_quota_alert u student node now = do
    let pct = percent u.used u.quota
    enabled ← gets (λ d. d.settings.student_quota_alerts_enabled)
    limit ← gets (λ d. d.settings.student_quota_alert_pct)
    recent ← gets (student_alerted u.placement_id student u.pool now)
    if not enabled || leb pct limit
        then pure tt
        else alert_student_unless recent u student node pct now
