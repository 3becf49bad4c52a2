-- ===== src/Telemetry/Isolation.antt =====
-- The telemetry of a node stays within the node's own rows (controller/src/lib/ingest.ts).
use docker_mass_deployment.Base.{
  ℕ, String, ◌≡◌, refl, sym, ap, ◌∙◌, true, ◌&&◌, ◌||◌, List, [], ◌∷◌, ◌==◌, str_eq, arith, All,
  All-map, update_where, Distinct, Distinct-update_where, Bool-cases, inl, inr, if◌then◌else◌,
}
use docker_mass_deployment.Json.{Json}
use docker_mass_deployment.Store.Rows.{Node, Placement}
use docker_mass_deployment.Store.World.{Db, World}
use docker_mass_deployment.Nodes.{update_node}
use docker_mass_deployment.Hub.Ingest.Fields.{insert_log}
use docker_mass_deployment.Placements.Tables.{
  Placed, get_placement_by_lab_node, update_placement, placement_clash,
}
use docker_mass_deployment.Placements.Only.{Only, Distinct-Only}
use docker_mass_deployment.Placements.Invariant.{WellFormed}
use docker_mass_deployment.Telemetry.{ingest_telemetry}
use docker_mass_deployment.Telemetry.Closed.{IsNodeKeyed, Hosted, Measured}
use docker_mass_deployment.Telemetry.Operations.{ingest_telemetry-Keeps}
use docker_mass_deployment.Telemetry.Storage.{scanned, sample_of, insert_sample}
use docker_mass_deployment.Telemetry.Quota.{insert_quota_alert, insert_student_quota_alert}
use docker_mass_deployment.Telemetry.Snapshots.{set_snapshot}
use docker_mass_deployment.Telemetry.Processes.{snapshot_rows-others}
use docker_mass_deployment.Telemetry.Locality.{
  is_named, AllScanned, Scanned, is_on, Grown-concat, others, IsLocal, IsLocal-refl, Scanned-step,
}
use docker_mass_deployment.Telemetry.Hosting.{IsThere, place_all-IsThere}

AllScanned-is_on :
    (n : String) (ns ms : List Node) (ps qs : List Placement) (id : ℕ)
    → ((i : ℕ) → is_named n ms i ≡ is_named n ns i)
    → AllScanned n ns ps qs
    → is_on n ms qs id ≡ is_on n ns ps id
AllScanned-is_on n ns ms [] [] id k h = refl
AllScanned-is_on n ns ms [] (q ∷ qs) id k h = absurd h
AllScanned-is_on n ns ms (p ∷ ps) [] id k h = absurd h
AllScanned-is_on n ns ms (p ∷ ps) (q ∷ qs) id k (s, h) =
    ap (λ (x : Placement). x.id == id && is_named n ms x.node_id || is_on n ms qs id) s.only
    ∙ rw (k p.node_id, AllScanned-is_on n ns ms ps qs id k h) refl

-- The rows of the id are scanned, where each of them is on the node.
AllScanned-scan :
    (n : String) (ns : List Node) (id at : ℕ) (ps qs : List Placement)
    → All (λ (r : Placement). (r.id == id) ≡ true → is_named n ns r.node_id ≡ true) qs
    → AllScanned n ns ps qs
    → AllScanned n ns ps (update_where (λ r. r.id == id) (scanned at) qs)
AllScanned-scan n ns id at [] [] k h = tt
AllScanned-scan n ns id at [] (q ∷ qs) k h = absurd h
AllScanned-scan n ns id at (p ∷ ps) [] k h = absurd h
AllScanned-scan n ns id at (p ∷ ps) (q ∷ qs) (k, ks) (s, h) =
    (first, AllScanned-scan n ns id at ps qs ks h)
  where
    first : Scanned n ns p (if q.id == id then scanned at q else q)
    first = elim (Bool-cases (q.id == id)) [
      | inl e ↦ rw e (Scanned-step n ns p q at (k e) s)
      | inr e ↦ rw e s
    ]

update_where-others :
    (n : String) (f : Node → Node) (k : IsNodeKeyed f) (ns : List Node)
    → others n (update_where (λ m. str_eq m.name n) f ns) ≡ others n ns
update_where-others n f k [] = refl
update_where-others n f k (m ∷ ns) = elim (Bool-cases (str_eq m.name n)) [
  | inl e ↦ rw (e, k.name m, e) (update_where-others n f k ns)
  | inr e ↦ rw (e, e) (ap (λ ms. m ∷ ms) (update_where-others n f k ns))
]

update_where-is_named :
    (n : String) (f : Node → Node) (k : IsNodeKeyed f) (ns : List Node) (id : ℕ)
    → is_named n (update_where (λ m. str_eq m.name n) f ns) id ≡ is_named n ns id
update_where-is_named n f k [] id = refl
update_where-is_named n f k (m ∷ ns) id = elim (Bool-cases (str_eq m.name n)) [
  | inl e ↦ rw (e, k.id m, k.name m, e, update_where-is_named n f k ns id) refl
  | inr e ↦ rw (e, e, update_where-is_named n f k ns id) refl
]

abbrev Kept : String → Db → Db → Type 0
Kept n d e = IsLocal n d e × Distinct placement_clash e.placements.rows

Hosted-IsThere : (n : String) (p : Placed) (d : Db) → Hosted n p d → IsThere n d d.placements.rows p
unfolding get_placement_by_lab_node
Hosted-IsThere n p d (lab, e) = place_all-IsThere lab n d d.placements.rows p e

-- A row of the node now was one at the start.
Hosted-is_on :
    (n : String) (p : Placed) (d e : Db)
    → Hosted n p e
    → IsLocal n d e
    → is_on n d.nodes.rows d.placements.rows p.row.id ≡ true
Hosted-is_on n p d e h l =
    sym (
      AllScanned-is_on n d.nodes.rows e.nodes.rows d.placements.rows e.placements.rows p.row.id
        l.names l.placements)
    ∙ (Hosted-IsThere n p e h).row

update_placement-IsLocal :
    (n : String) (d e : Db) (p : Placed) (at : ℕ)
    → Hosted n p e
    → Kept n d e
    → Kept n d (update_placement p.row.id (scanned at) e)
unfolding update_placement
update_placement-IsLocal n d e p at h (l, u) = (
  record {
    nodes = l.nodes;
    names = l.names;
    placements =
        AllScanned-scan n d.nodes.rows p.row.id at d.placements.rows e.placements.rows
          (All-map (λ r. (r.id == p.row.id) ≡ true → r ≡ p.row) _ e.placements.rows
            (λ r k same.
              ap (λ (x : Placement). is_named n d.nodes.rows x.node_id) (k same)
              ∙ sym (l.names p.row.node_id)
              ∙ there.named)
            (there.only (Only e.placements.rows) (Distinct-Only e.placements.rows u)))
          l.placements;
    samples = l.samples;
    quota_alerts = l.quota_alerts;
    student_quota_alerts = l.student_quota_alerts;
    processes = l.processes;
    labs = l.labs;
    students = l.students;
    lab_members = l.lab_members;
    members = l.members;
    task_log = l.task_log;
  },
  Distinct-update_where placement_clash (scanned at) (λ r. r.id == p.row.id) (λ x y. ground arith)
      (λ x y. ground arith) e.placements.rows u,
)
  where
    there : IsThere n e e.placements.rows p
    there = Hosted-IsThere n p e h

Kept-Measured : (n : String) (d : Db) → Measured n (Kept n d)
unfolding update_node insert_log insert_sample insert_quota_alert insert_student_quota_alert
    set_snapshot
Kept-Measured n d = record {
  node_row = λ f k e (l, u). (
    record {
      nodes = update_where-others n f k e.nodes.rows ∙ l.nodes;
      names = λ id. update_where-is_named n f k e.nodes.rows id ∙ l.names id;
      placements = l.placements;
      samples = l.samples;
      quota_alerts = l.quota_alerts;
      student_quota_alerts = l.student_quota_alerts;
      processes = l.processes;
      labs = l.labs;
      students = l.students;
      lab_members = l.lab_members;
      members = l.members;
      task_log = l.task_log;
    },
    u,
  );
  log_row = λ row e (l, u). (
    record {
      nodes = l.nodes;
      names = l.names;
      placements = l.placements;
      samples = l.samples;
      quota_alerts = l.quota_alerts;
      student_quota_alerts = l.student_quota_alerts;
      processes = l.processes;
      labs = l.labs;
      students = l.students;
      lab_members = l.lab_members;
      members = l.members;
      task_log = l.task_log;
    },
    u,
  );
  sample = λ p s student now e h (l, u). (
    record {
      nodes = l.nodes;
      names = l.names;
      placements = l.placements;
      samples =
          Grown-concat _ d.storage_samples e.storage_samples (sample_of p.row s student now)
            (Hosted-is_on n p d e h l) l.samples;
      quota_alerts = l.quota_alerts;
      student_quota_alerts = l.student_quota_alerts;
      processes = l.processes;
      labs = l.labs;
      students = l.students;
      lab_members = l.lab_members;
      members = l.members;
      task_log = l.task_log;
    },
    u,
  );
  quota_alert = λ p a e h i fresh (l, u). (
    record {
      nodes = l.nodes;
      names = l.names;
      placements = l.placements;
      samples = l.samples;
      quota_alerts =
          Grown-concat _ d.quota_alerts e.quota_alerts a
            (ap (is_on n d.nodes.rows d.placements.rows) i ∙ Hosted-is_on n p d e h l)
            l.quota_alerts;
      student_quota_alerts = l.student_quota_alerts;
      processes = l.processes;
      labs = l.labs;
      students = l.students;
      lab_members = l.lab_members;
      members = l.members;
      task_log = l.task_log;
    },
    u,
  );
  student_alert = λ p a e h i fresh (l, u). (
    record {
      nodes = l.nodes;
      names = l.names;
      placements = l.placements;
      samples = l.samples;
      quota_alerts = l.quota_alerts;
      student_quota_alerts =
          Grown-concat _ d.student_quota_alerts e.student_quota_alerts a
            (ap (is_on n d.nodes.rows d.placements.rows) i ∙ Hosted-is_on n p d e h l)
            l.student_quota_alerts;
      processes = l.processes;
      labs = l.labs;
      students = l.students;
      lab_members = l.lab_members;
      members = l.members;
      task_log = l.task_log;
    },
    u,
  );
  scan = λ p at e h k. update_placement-IsLocal n d e p at h k;
  snapshot = λ now ps rows e k (l, u). (
    record {
      nodes = l.nodes;
      names = l.names;
      placements = l.placements;
      samples = l.samples;
      quota_alerts = l.quota_alerts;
      student_quota_alerts = l.student_quota_alerts;
      processes = snapshot_rows-others n now ps e rows k ∙ l.processes;
      labs = l.labs;
      students = l.students;
      lab_members = l.lab_members;
      members = l.members;
      task_log = l.task_log;
    },
    u,
  );
}

-- Whether it returns or throws, the telemetry of a node changes only what is the node's own: samples
-- and quota alerts are added, and only for placements that stand on the node; the scan time of a
-- placement moves only forward, and only of one on the node, and nothing else of a placement
-- changes; the rows of other nodes and their GPU processes are the same, and which node has which
-- name; labs, students, members and tasks are untouched. The placements of the database are
-- well-formed at the start.
pub ingest_telemetry-IsLocal :
    {Q : Type 0} (n : String) (payload : Json) (w : World Q)
    → WellFormed w.db
    → IsLocal n w.db (ingest_telemetry n payload w).1.db
ingest_telemetry-IsLocal n payload w h =
    ((ingest_telemetry-Keeps (Kept-Measured n w.db) payload).at w
      (IsLocal-refl n w.db, h.placements)).0
