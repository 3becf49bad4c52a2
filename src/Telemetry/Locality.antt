-- ===== src/Telemetry/Locality.antt =====
-- What the telemetry of a node can reach (`ingestTelemetry` of controller/src/lib/ingest.ts): its own
-- rows, and no others.
use docker_mass_deployment.Base.{
  ℕ, ◌≤◌, String, ◌≡◌, refl, sym, ap, ◌∙◌, Bool, true, false, true≢false, not, ◌&&◌, inl, inr,
  Option, none, some, List, [], ◌∷◌, ◌++◌, ◌==◌, str_eq, arith, All, All-append, any, filter,
  Bool-cases, Option-cases, ltb, ltb→lt,
}
use mathlib.Core.List.{append-nil, append_assoc}
use docker_mass_deployment.Store.Rows.{
  Node, Placement, Sample, Snapshot, QuotaAlert, StudentQuotaAlert,
}
use docker_mass_deployment.Store.World.{Db}
use docker_mass_deployment.Telemetry.Storage.{scanned}

-- The node of the id has this name.
abbrev pub is_named : String → List Node → ℕ → Bool
is_named n ns id = any (λ (m : Node). m.id == id && str_eq m.name n) ns

-- A scan time moves forward, if it moves.
abbrev pub Forward : Option ℕ → Option ℕ → Type 0
Forward none b = Unit
Forward (some a) none = ⊥
Forward (some a) (some b) = a ≤ b

-- What may happen to a placement: on the node, its scan time moves forward; elsewhere, nothing.
pub record Scanned (n : String) (ns : List Node) (p q : Placement) : Type 0 where
  pub only : q ≡ record p { usage_scanned_at = q.usage_scanned_at }
  pub forward : Forward p.usage_scanned_at q.usage_scanned_at
  pub elsewhere : is_named n ns p.node_id ≡ false → q ≡ p

abbrev pub AllScanned : String → List Node → List Placement → List Placement → Type 0
AllScanned n ns [] [] = Unit
AllScanned n ns [] (q ∷ qs) = ⊥
AllScanned n ns (p ∷ ps) [] = ⊥
AllScanned n ns (p ∷ ps) (q ∷ qs) = Scanned n ns p q × AllScanned n ns ps qs

-- The placement of the id stands on the node.
abbrev pub is_on : String → List Node → List Placement → ℕ → Bool
is_on n ns ps id = any (λ (q : Placement). q.id == id && is_named n ns q.node_id) ps

-- New rows come behind, and are of one kind.
abbrev pub Grown : {A : Type 0} → (A → Type 0) → List A → List A → Type 0
Grown {A = A} P xs ys = (new : List A) × ((ys ≡ xs ++ new) × All P new)

abbrev pub others : String → List Node → List Node
others n ns = filter (λ m. not (str_eq m.name n)) ns

abbrev pub other_processes : String → List Snapshot → List Snapshot
other_processes n ss = filter (λ s. not (str_eq s.node n)) ss

-- From `d` to `e`, only what belongs to the node `n` has changed.
pub record IsLocal (n : String) (d e : Db) : Type 0 where
  pub nodes : others n e.nodes.rows ≡ others n d.nodes.rows
  pub names : (id : ℕ) → is_named n e.nodes.rows id ≡ is_named n d.nodes.rows id
  pub placements : AllScanned n d.nodes.rows d.placements.rows e.placements.rows
  pub samples :
      Grown
        (λ (s : Sample). is_on n d.nodes.rows d.placements.rows s.placement_id ≡ true)
        d.storage_samples
        e.storage_samples
  pub quota_alerts :
      Grown
        (λ (a : QuotaAlert). is_on n d.nodes.rows d.placements.rows a.placement_id ≡ true)
        d.quota_alerts
        e.quota_alerts
  pub student_quota_alerts :
      Grown
        (λ (a : StudentQuotaAlert). is_on n d.nodes.rows d.placements.rows a.placement_id ≡ true)
        d.student_quota_alerts
        e.student_quota_alerts
  pub processes : other_processes n e.gpu_snapshot ≡ other_processes n d.gpu_snapshot
  pub labs : e.labs ≡ d.labs
  pub students : e.students ≡ d.students
  pub lab_members : e.lab_members ≡ d.lab_members
  pub members : e.members ≡ d.members
  pub task_log : e.task_log ≡ d.task_log

Grown-refl : {A : Type 0} (P : A → Type 0) (xs : List A) → Grown P xs xs
Grown-refl P xs = ([], (sym (append-nil xs), tt))

pub Grown-concat :
    {A : Type 0} (P : A → Type 0) (xs ys : List A) (x : A)
    → P x
    → Grown P xs ys
    → Grown P xs (ys ++ x ∷ [])
Grown-concat P xs ys x p (new, (e, h)) = (
  new ++ x ∷ [],
  (ap (λ zs. zs ++ x ∷ []) e ∙ append_assoc xs new (x ∷ []), All-append P new (x ∷ []) h (p, tt)),
)

Forward-refl : (a : Option ℕ) → Forward a a
Forward-refl none = tt
Forward-refl (some a) = omega arith

Forward-trans : (a b c : Option ℕ) → Forward a b → Forward b c → Forward a c
Forward-trans none b c h k = tt
Forward-trans (some a) none c h k = absurd h
Forward-trans (some a) (some b) none h k = absurd k
Forward-trans (some a) (some b) (some c) h k = omega arith

Scanned-refl : (n : String) (ns : List Node) (p : Placement) → Scanned n ns p p
Scanned-refl n ns p = record {
  only = refl;
  forward = Forward-refl p.usage_scanned_at;
  elsewhere = λ h. refl;
}

AllScanned-refl : (n : String) (ns : List Node) (ps : List Placement) → AllScanned n ns ps ps
AllScanned-refl n ns [] = tt
AllScanned-refl n ns (p ∷ ps) = (Scanned-refl n ns p, AllScanned-refl n ns ps)

pub IsLocal-refl : (n : String) (d : Db) → IsLocal n d d
IsLocal-refl n d = record {
  nodes = refl;
  names = λ id. refl;
  placements = AllScanned-refl n d.nodes.rows d.placements.rows;
  samples = Grown-refl _ d.storage_samples;
  quota_alerts = Grown-refl _ d.quota_alerts;
  student_quota_alerts = Grown-refl _ d.student_quota_alerts;
  processes = refl;
  labs = refl;
  students = refl;
  lab_members = refl;
  members = refl;
  task_log = refl;
}

scanned-only :
    (at : ℕ) (r : Placement)
    → scanned at r ≡ record r { usage_scanned_at = (scanned at r).usage_scanned_at }
scanned-only at r = ground arith

scanned-Forward :
    (at : ℕ) (r : Placement) → Forward r.usage_scanned_at (scanned at r).usage_scanned_at
scanned-Forward at r = elim (Option-cases r.usage_scanned_at) [
  | inl e ↦ rw e tt
  | inr (a, e) ↦ elim (Bool-cases (ltb a at)) [
    | inl b ↦ rw (e, b) (omega (arith, ltb→lt a at b))
    | inr b ↦ rw (e, b) (omega arith)
  ]
]

-- A row of the node is scanned.
pub Scanned-step :
    (n : String) (ns : List Node) (p r : Placement) (at : ℕ)
    → is_named n ns r.node_id ≡ true
    → Scanned n ns p r
    → Scanned n ns p (scanned at r)
Scanned-step n ns p r at k s = record {
  only =
      scanned-only at r
      ∙ ap (λ (x : Placement). record x { usage_scanned_at = (scanned at r).usage_scanned_at })
          s.only;
  forward =
      Forward-trans p.usage_scanned_at r.usage_scanned_at (scanned at r).usage_scanned_at s.forward
        (scanned-Forward at r);
  elsewhere = λ h.
      absurd (true≢false (sym k ∙ (ap (λ (x : Placement). is_named n ns x.node_id) s.only ∙ h)));
}
