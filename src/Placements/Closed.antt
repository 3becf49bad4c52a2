-- ===== src/Placements/Closed.antt =====
-- Which invariants of the database the operations on placements keep: those that are closed under
-- the statements they run.
pub mod Operations
use docker_mass_deployment.Base.{ℕ, String, ◌≡◌, refl, Bool, Option, none, some, arith}
use docker_mass_deployment.Json.{Json}
use docker_mass_deployment.Outside.{Outside, TaskFrame}
use docker_mass_deployment.Queue.{queued_row, insert_task, enqueue_task}
use docker_mass_deployment.Queue.Keeping.{enqueue_task-Keeps as enqueue_task_if}
use docker_mass_deployment.Store.Rows.{Placement, PlacementState, Member, MemberState, AuditRow}
use docker_mass_deployment.Store.World.{Db, modify}
use docker_mass_deployment.Store.Keeps.{Keeps, keeping, modify-Keeps}
use docker_mass_deployment.Placements.Tables.{
  insert_placement, update_placement, delete_placement, insert_member, update_member, delete_member,
  insert_audit, audit,
}
use docker_mass_deployment.Placements.Members.{reset_member}
use docker_mass_deployment.Placements.Change.{set_fast, set_cold, retried, RecreateInput, recreated}
use docker_mass_deployment.Placements.Teardown.{with_state, torn_down, with_member_state}

-- An update that leaves the keys of a placement alone.
pub record IsKeyed (f : Placement → Placement) : Type 0 where
  pub id : (p : Placement) → (f p).id ≡ p.id
  pub lab : (p : Placement) → (f p).lab_id ≡ p.lab_id
  pub node : (p : Placement) → (f p).node_id ≡ p.node_id
  pub port : (p : Placement) → (f p).ssh_port ≡ p.ssh_port

pub record IsMemberKeyed (f : Member → Member) : Type 0 where
  pub id : (m : Member) → (f m).id ≡ m.id
  pub placement : (m : Member) → (f m).placement_id ≡ m.placement_id
  pub student : (m : Member) → (f m).student_id ≡ m.student_id

pub record Closed (P : Db → Type 0) : Type 0 where
  pub task :
      (node : String) (f : TaskFrame) (job : ℕ) (d : Db)
      → P d
      → P (insert_task (queued_row node f job) d)
  pub log_audit : (row : AuditRow) (d : Db) → P d → P (insert_audit row d)
  pub new_placement : (p : Placement) (d : Db) → P d → P (insert_placement p d)
  pub placement :
      (id : ℕ) (f : Placement → Placement)
      → IsKeyed f
      → (d : Db) → P d
      → P (update_placement id f d)
  pub no_placement : (id : ℕ) (d : Db) → P d → P (delete_placement id d)
  pub new_member : (m : Member) (d : Db) → P d → P (insert_member m d)
  pub member :
      (id : ℕ) (f : Member → Member) → IsMemberKeyed f → (d : Db) → P d → P (update_member id f d)
  pub no_member : (placement student : ℕ) (d : Db) → P d → P (delete_member placement student d)

pub set_fast-IsKeyed : (q : Option ℕ) → IsKeyed (set_fast q)
set_fast-IsKeyed none = record {
  id = λ p. refl;
  lab = λ p. refl;
  node = λ p. refl;
  port = λ p. refl;
}
set_fast-IsKeyed (some q) = record {
  id = λ p. refl;
  lab = λ p. refl;
  node = λ p. refl;
  port = λ p. refl;
}

pub set_cold-IsKeyed : (q : Option (Option ℕ)) → IsKeyed (set_cold q)
set_cold-IsKeyed none = record {
  id = λ p. refl;
  lab = λ p. refl;
  node = λ p. refl;
  port = λ p. refl;
}
set_cold-IsKeyed (some q) = record {
  id = λ p. refl;
  lab = λ p. refl;
  node = λ p. refl;
  port = λ p. refl;
}

pub touched-IsKeyed : (now : ℕ) → IsKeyed (λ r. record r { updated_at = now })
touched-IsKeyed now = record { id = λ p. refl; lab = λ p. refl; node = λ p. refl; port = λ p. refl }

pub retried-IsKeyed : (now : ℕ) → IsKeyed (retried now)
retried-IsKeyed now = record { id = λ p. refl; lab = λ p. refl; node = λ p. refl; port = λ p. refl }

pub recreated-IsKeyed : (input : RecreateInput) (now : ℕ) → IsKeyed (recreated input now)
recreated-IsKeyed input now = record {
  id = λ p. ground arith;
  lab = λ p. ground arith;
  node = λ p. ground arith;
  port = λ p. ground arith;
}

pub with_state-IsKeyed :
    (s : PlacementState) (e : Option String) (now : ℕ) → IsKeyed (with_state s e now)
with_state-IsKeyed s e now = record {
  id = λ p. refl;
  lab = λ p. refl;
  node = λ p. refl;
  port = λ p. refl;
}

pub torn_down-IsKeyed : (now : ℕ) → IsKeyed (torn_down now)
torn_down-IsKeyed now = record {
  id = λ p. refl;
  lab = λ p. refl;
  node = λ p. refl;
  port = λ p. refl;
}

pub reset_member-IsMemberKeyed : (s : String) (now : ℕ) → IsMemberKeyed (reset_member s now)
reset_member-IsMemberKeyed s now = record {
  id = λ m. refl;
  placement = λ m. refl;
  student = λ m. refl;
}

pub with_member_state-IsMemberKeyed :
    (s : MemberState) (e : Option String) (now : ℕ) → IsMemberKeyed (with_member_state s e now)
with_member_state-IsMemberKeyed s e now = record {
  id = λ m. refl;
  placement = λ m. refl;
  student = λ m. refl;
}

module _ {Q : Type 0} {P : Db → Type 0} (c : Closed P) where
  pub enqueue_task-Keeps :
      (out : Outside Q) (node action : String) (params : Json) (by : Option String)
      → Keeps P (enqueue_task out node action params by)
  enqueue_task-Keeps out node action params by = enqueue_task_if out node action params by c.task

  pub audit-Keeps :
      (actor : Option String) (action : String) (target detail : Option String)
      → Keeps {Q = Q} P (audit actor action target detail)
  unfolding audit
  audit-Keeps actor action target detail = search (keeping, modify-Keeps, c.log_audit)

  pub insert_placement-Keeps : (p : Placement) → Keeps {Q = Q} P (modify (insert_placement p))
  insert_placement-Keeps p = modify-Keeps _ (c.new_placement p)

  pub update_placement-Keeps :
      (id : ℕ) (f : Placement → Placement)
      → IsKeyed f
      → Keeps {Q = Q} P (modify (update_placement id f))
  update_placement-Keeps id f k = modify-Keeps _ (c.placement id f k)

  pub delete_placement-Keeps : (id : ℕ) → Keeps {Q = Q} P (modify (delete_placement id))
  delete_placement-Keeps id = modify-Keeps _ (c.no_placement id)

  pub insert_member-Keeps : (m : Member) → Keeps {Q = Q} P (modify (insert_member m))
  insert_member-Keeps m = modify-Keeps _ (c.new_member m)

  pub update_member-Keeps :
      (id : ℕ) (f : Member → Member)
      → IsMemberKeyed f
      → Keeps {Q = Q} P (modify (update_member id f))
  update_member-Keeps id f k = modify-Keeps _ (c.member id f k)

  pub delete_member-Keeps :
      (placement student : ℕ) → Keeps {Q = Q} P (modify (delete_member placement student))
  delete_member-Keeps placement student = modify-Keeps _ (c.no_member placement student)

pub ruleset placing = (
  keeping, enqueue_task-Keeps, audit-Keeps, insert_placement-Keeps, update_placement-Keeps,
  delete_placement-Keeps, insert_member-Keeps, update_member-Keeps, delete_member-Keeps,
  set_fast-IsKeyed, set_cold-IsKeyed, touched-IsKeyed, retried-IsKeyed, recreated-IsKeyed,
  with_state-IsKeyed, torn_down-IsKeyed, reset_member-IsMemberKeyed,
  with_member_state-IsMemberKeyed,
)
