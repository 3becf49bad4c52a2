-- ===== src/Telemetry/Processes.antt =====
-- The GPU snapshot of a node replaces its own rows only (controller/src/lib/ingest.ts).
use docker_mass_deployment.Base.{
  ℕ, String, ◌≡◌, refl, sym, ap, ◌∙◌, Bool, true, not, ◌&&◌, Option, none, some, List, [], ◌∷◌,
  ◌++◌, ◌==◌, str_eq, eq_iff, eq_refl, arith, filter, Bool-cases, inl, inr, if◌then◌else◌,
}
use docker_mass_deployment.Json.{Json}
use docker_mass_deployment.Store.Rows.{Snapshot}
use docker_mass_deployment.Store.World.{Db}
use docker_mass_deployment.Telemetry.Snapshots.{
  snapshot_row, snapshot_of, same_process, replace_row, add_row, insert_rows, snapshot_rows,
}
use docker_mass_deployment.Telemetry.Locality.{other_processes}

no_some : {A B : Type 0} {a : A} → none ≡ some a → B
no_some h = absurd (clash h)
  where
    clash : {A : Type 0} {a : A} → none ≡ some a → ⊥
    clash h = ground arith

some_inj : {A : Type 0} {a b : A} → some a ≡ some b → a ≡ b
some_inj h = ground arith

snapshot_row-node :
    (node : String) (now : ℕ) (p : Json) (placement : Option ℕ) (pid : Option (Option ℕ))
    (user : Option (Option String)) (vram : Option (Option ℕ)) (util : Option (Option Json))
    (s : Snapshot)
    → snapshot_row node now p placement pid user vram util ≡ some s
    → s.node ≡ node
snapshot_row-node node now p placement none user vram util s e = no_some e
snapshot_row-node node now p placement (some none) user vram util s e = no_some e
snapshot_row-node node now p placement (some (some pid)) none vram util s e = no_some e
snapshot_row-node node now p placement (some (some pid)) (some user) none util s e = no_some e
snapshot_row-node node now p placement (some (some pid)) (some user) (some vram) none s e =
    no_some e
snapshot_row-node node now p placement (some (some pid)) (some user) (some vram) (some util) s e =
    ap (λ (t : Snapshot). t.node) (sym (some_inj e))

pub snapshot_of-node :
    (node : String) (now : ℕ) (p : Json) (d : Db) (s : Snapshot)
    → snapshot_of node now p d ≡ some s
    → s.node ≡ node
unfolding snapshot_of
snapshot_of-node node now p d s e = snapshot_row-node node now p _ _ _ _ _ s e

other_processes-drop :
    (n : String) (s : Snapshot) (rows : List Snapshot)
    → s.node ≡ n
    → other_processes n (filter (λ t. not (same_process s t)) rows) ≡ other_processes n rows
other_processes-drop n s [] e = refl
other_processes-drop n s (t ∷ rows) e = elim (Bool-cases (same_process s t)) [
  | inr b ↦
      rw b
        (ap (λ xs. if not (str_eq t.node n) then t ∷ xs else xs) (other_processes-drop n s rows e))
  | inl b ↦
      rw (b, ap (str_eq t.node) (sym e) ∙ same_node s.node t.node (s.pid == t.pid) b)
        (other_processes-drop n s rows e)
]
  where
    same_node : (a b : String) (c : Bool) → (str_eq a b && c) ≡ true → str_eq b a ≡ true
    same_node a b c h = (eq_iff b a).1 (sym ((eq_iff a b).0 (ground arith)))

other_processes-append :
    (n : String) (s : Snapshot) (rows : List Snapshot)
    → s.node ≡ n
    → other_processes n (rows ++ s ∷ []) ≡ other_processes n rows
other_processes-append n s [] e = rw e (rw (eq_refl n) refl)
other_processes-append n s (t ∷ rows) e =
    ap (λ xs. if not (str_eq t.node n) then t ∷ xs else xs) (other_processes-append n s rows e)

replace_row-others :
    (n : String) (s : Snapshot) (rows : List Snapshot)
    → s.node ≡ n
    → other_processes n (replace_row s rows) ≡ other_processes n rows
replace_row-others n s rows e =
    other_processes-append n s (filter (λ t. not (same_process s t)) rows) e
    ∙ other_processes-drop n s rows e

-- The first process of a loop has its row.
insert_rows-first :
    (n : String) (now : ℕ) (p : Json) (ps : List Json) (d : Db) (rows rows' : List Snapshot)
    → (o : Option Snapshot) → snapshot_of n now p d ≡ o
    → elim (add_row o rows) [ none ↦ none | some r ↦ insert_rows n now ps d r ] ≡ some rows'
    → (s : Snapshot) × ((s.node ≡ n) × (insert_rows n now ps d (replace_row s rows) ≡ some rows'))
insert_rows-first n now p ps d rows rows' none a k = no_some k
insert_rows-first n now p ps d rows rows' (some s) a k = (s, (snapshot_of-node n now p d s a, k))

insert_rows-others :
    (n : String) (now : ℕ) (ps : List Json) (d : Db) (rows rows' : List Snapshot)
    → insert_rows n now ps d rows ≡ some rows'
    → other_processes n rows' ≡ other_processes n rows
unfolding insert_rows
insert_rows-others n now [] d rows rows' e = ap (other_processes n) (sym (some_inj e))
insert_rows-others n now (p ∷ ps) d rows rows' e =
    let (s, (k, l)) = insert_rows-first n now p ps d rows rows' (snapshot_of n now p d) refl e in
    insert_rows-others n now ps d (replace_row s rows) rows' l ∙ replace_row-others n s rows k

filter-twice : {A : Type 0} (p : A → Bool) (xs : List A) → filter p (filter p xs) ≡ filter p xs
filter-twice p [] = refl
filter-twice p (x ∷ xs) = elim (Bool-cases (p x)) [
  | inl e ↦ rw e (rw e (ap (λ ys. x ∷ ys) (filter-twice p xs)))
  | inr e ↦ rw e (filter-twice p xs)
]

-- The rows of other nodes are the same after the loop.
pub snapshot_rows-others :
    (n : String) (now : ℕ) (ps : List Json) (d : Db) (rows : List Snapshot)
    → snapshot_rows n now ps d ≡ some rows
    → other_processes n rows ≡ other_processes n d.gpu_snapshot
unfolding snapshot_rows
snapshot_rows-others n now ps d rows e =
    insert_rows-others n now ps d _ rows e
    ∙ filter-twice (λ s. not (str_eq s.node n)) d.gpu_snapshot
