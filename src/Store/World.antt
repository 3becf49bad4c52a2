-- ===== src/Store/World.antt =====
-- The state of the controller and the actions over it. An action is synchronous code of the
-- source: it returns or throws, and what it wrote before a throw stays written. The clock is read
-- from `now`, which stands still within one action.
use docker_mass_deployment.Base.{
  ℕ, String, Bool, true, false, Option, none, some, List, [], ◌∷◌, ◌++◌, ◌+◌,
}
use docker_mass_deployment.Store.Rows.{
  Node, Lab, Student, LabMember, Placement, Member, TaskRow, LogRow, AuditRow, GpuEvent, Snapshot,
  QuotaAlert, StudentQuotaAlert, NodeGroup, GroupMember, Admin, Sample, Table,
}

-- The numbers of controller/src/lib/settings.ts that the modelled code reads.
pub record Settings : Type 0 where
  pub ssh_port_start : ℕ
  pub ssh_port_end : ℕ
  pub node_offline_grace_seconds : ℕ
  pub gpu_grace_minutes : ℕ
  pub alerts_enabled : Bool
  pub alert_dedup_minutes : ℕ
  pub alert_level : String
  pub quota_alert_pct : ℕ
  pub student_quota_alerts_enabled : Bool
  pub student_quota_alert_pct : ℕ
  pub student_quota_notify_admins : Bool

pub record Db : Type 0 where
  pub settings : Settings
  pub nodes : Table Node
  pub labs : Table Lab
  pub students : Table Student
  pub lab_members : Table LabMember
  pub placements : Table Placement
  pub members : Table Member
  pub task_log : List TaskRow
  pub logs : Table LogRow
  pub audit_log : List AuditRow
  pub gpu_events : Table GpuEvent
  pub gpu_snapshot : List Snapshot
  pub storage_samples : List Sample
  pub quota_alerts : List QuotaAlert
  pub student_quota_alerts : List StudentQuotaAlert
  pub node_groups : Table NodeGroup
  pub node_group_members : List GroupMember
  pub admins : List Admin

-- A message handed to controller/src/lib/mailer.ts: who gets it, which template, what it says.
pub record Mail : Type 0 where
  pub to : String
  pub template : String
  pub values : List (String × String)

-- An entry of the alert throttle (controller/src/lib/alerts.ts).
pub record KeyState : Type 0 where
  pub last_sent : ℕ
  pub suppressed : ℕ

-- `Q` is the state of the honker queue; `seed` counts the draws of randomness. `alert_state` and
-- `gpu_mail_state` are the in-memory maps of alerts.ts and hub.ts.
pub record World (Q : Type 0) : Type 0 where
  pub db : Db
  pub queue : Q
  pub mails : List Mail
  pub alert_state : List (String × KeyState)
  pub gpu_mail_state : List (String × ℕ)
  pub seed : ℕ
  pub now : ℕ

pub data Outcome (A : Type 0) : Type 0 where
  ok : A → Outcome A
  err : String → Outcome A

abbrev pub Action : Type 0 → Type 0 → Type 0
Action Q A = World Q → Outcome A × World Q

module _ {Q A : Type 0} where
  unfoldable pub pure : A → Action Q A
  pure a w = (ok a, w)

  unfoldable pub throw : String → Action Q A
  throw e w = (err e, w)

  unfoldable pub gets : (Db → A) → Action Q A
  gets f w = (ok (f w.db), w)

  unfoldable pub or_throw : Option A → String → Action Q A
  or_throw none e w = (err e, w)
  or_throw (some a) e w = (ok a, w)

module _ {Q : Type 0} where
  unfoldable pub modify : (Db → Db) → Action Q (Unit {0})
  modify f w = (ok tt, record w { db = f w.db })

  unfoldable pub clock : Action Q ℕ
  clock w = (ok w.now, w)

  -- A fresh draw of randomness, by its number.
  unfoldable pub draw : Action Q ℕ
  draw w = (ok w.seed, record w { seed = w.seed + 1 })

  unfoldable pub throw_if : Bool → String → Action Q (Unit {0})
  throw_if true e w = (err e, w)
  throw_if false e w = (ok tt, w)

  -- Throws the message of a check that failed.
  unfoldable pub throw_some : Option String → Action Q (Unit {0})
  throw_some none w = (ok tt, w)
  throw_some (some e) w = (err e, w)

  unfoldable pub send_mail : Mail → Action Q (Unit {0})
  send_mail m w = (ok tt, record w { mails = w.mails ++ m ∷ [] })

-- A call of the queue engine.
unfoldable pub with_queue : {Q A : Type 0} → (Q → A × Q) → Action Q A
with_queue f w = let (a, q) = f w.queue in (ok a, record w { queue = q })

infixl 5 ◌>>=◌ ◌>>◌
unfoldable pub ◌>>=◌ : {Q A B : Type 0} → Action Q A → (A → Action Q B) → Action Q B
◌>>=◌ m f w = let (r, w') = m w in elim r [ ok a ↦ f a w' | err e ↦ (err e, w') ]

unfoldable pub ◌>>◌ : {Q A B : Type 0} → Action Q A → Action Q B → Action Q B
unfolding ◌>>=◌
m >> k = m >>= λ _. k

-- `if (c) { ... }`
unfoldable pub when : {Q : Type 0} → Bool → Action Q (Unit {0}) → Action Q (Unit {0})
when true m w = m w
when false m w = (ok tt, w)

-- `try { m } catch { k }`; what `m` wrote before it threw stays written.
unfoldable pub catching : {Q A : Type 0} → Action Q A → Action Q A → Action Q A
catching m k w = let (r, w') = m w in elim r [ ok a ↦ (ok a, w') | err e ↦ k w' ]

-- `for (const x of xs) { ... }`; a throw leaves the loop.
unfoldable pub for_each : {Q A : Type 0} → List A → (A → Action Q (Unit {0})) → Action Q (Unit {0})
for_each [] f = pure tt
for_each (x ∷ xs) f = f x >> for_each xs f

-- Unfolding this opens every way that actions are put together: what a run of one needs.
unfoldable pub running : Unit {0}
unfolding pure throw gets or_throw modify clock draw throw_if throw_some send_mail with_queue ◌>>=◌
    ◌>>◌ when catching for_each
running = tt
