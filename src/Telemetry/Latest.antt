-- ===== src/Telemetry/Latest.antt =====
-- The GPU snapshot as a whole (controller/src/lib/ingest.ts): the loop of replaced rows, and what
-- the table is after it.
use docker_mass_deployment.Base.{
  ℕ, String, ◌≡◌, refl, sym, ap, ◌∙◌, Bool, true, false, not, ◌&&◌, ◌||◌, Option, none, some, List,
  [], ◌∷◌, ◌++◌, ◌==◌, ==_iff, str_eq, eq_iff, arith, filter, any, All, Bool-cases, inl, inr,
  if◌then◌else◌, true≢false,
}
use mathlib.Core.List.{append-nil, append_assoc}
use docker_mass_deployment.Json.{Json}
use docker_mass_deployment.Store.Rows.{Snapshot}
use docker_mass_deployment.Store.World.{Db}
use docker_mass_deployment.Telemetry.Snapshots.{
  snapshot_of, same_process, replace_row, add_row, insert_rows, snapshot_rows,
}
use docker_mass_deployment.Telemetry.Locality.{other_processes}
use docker_mass_deployment.Telemetry.Processes.{snapshot_of-node}

-- A row that a later one of the same process does not replace.
abbrev pub add_latest : Option Snapshot → Option (List Snapshot) → Option (List Snapshot)
add_latest none new = none
add_latest (some s) none = none
add_latest (some s) (some new) =
    some (if any (λ (r : Snapshot). same_process r s) new then new else s ∷ new)

-- Of each process the last row that is reported, or nothing if a row is refused.
unfoldable pub latest : String → ℕ → Db → List Json → Option (List Snapshot)
unfolding snapshot_of
latest n now d [] = some []
latest n now d (p ∷ ps) = add_latest (snapshot_of n now p d) (latest n now d ps)

abbrev without : List Snapshot → List Snapshot → List Snapshot
without new = filter (λ (t : Snapshot). not (any (λ (s : Snapshot). same_process s t) new))

-- The rows, and behind them the new ones.
abbrev behind : List Snapshot → Option (List Snapshot) → Option (List Snapshot)
behind rows none = none
behind rows (some new) = some (without new rows ++ new)

filter-filter :
    {A : Type 0} (p q r : A → Bool)
    → ((x : A) → (q x && p x) ≡ r x)
    → (xs : List A) → filter p (filter q xs) ≡ filter r xs
filter-filter p q r h [] = refl
filter-filter p q r h (x ∷ xs) = elim (Bool-cases (q x)) [
  | inl e ↦ rw (sym (h x), e) (ap (λ ys. if p x then x ∷ ys else ys) (filter-filter p q r h xs))
  | inr e ↦ rw (sym (h x), e) (filter-filter p q r h xs)
]

filter-append :
    {A : Type 0} (p : A → Bool) (xs ys : List A) → filter p (xs ++ ys) ≡ filter p xs ++ filter p ys
filter-append p [] ys = refl
filter-append p (x ∷ xs) ys = elim (Bool-cases (p x)) [
  | inl e ↦ rw e (ap (λ zs. x ∷ zs) (filter-append p xs ys))
  | inr e ↦ rw e (filter-append p xs ys)
]

str_eq_trans : (a b c : String) → str_eq a b ≡ true → str_eq b c ≡ true → str_eq a c ≡ true
str_eq_trans a b c h k = (eq_iff a c).1 ((eq_iff a b).0 h ∙ (eq_iff b c).0 k)

same_process_trans :
    (r s t : Snapshot) → same_process r s ≡ true → same_process s t ≡ true → same_process r t ≡ true
same_process_trans r s t h k = ground (
  arith,
  str_eq_trans r.node s.node t.node,
  ==_iff r.pid s.pid,
  ==_iff s.pid t.pid,
  ==_iff r.pid t.pid,
)

any_same_trans :
    (new : List Snapshot) (s t : Snapshot)
    → any (λ (r : Snapshot). same_process r s) new ≡ true
    → same_process s t ≡ true
    → any (λ (r : Snapshot). same_process r t) new ≡ true
any_same_trans [] s t h k = h
any_same_trans (r ∷ new) s t h k = elim (Bool-cases (same_process r s)) [
  | inl e ↦ rw (same_process_trans r s t e k) refl
  | inr e ↦ or_true (same_process r t) (any_same_trans new s t (rest (same_process r s) e h) k)
]
  where
    rest : (a : Bool) {b : Bool} → a ≡ false → (a || b) ≡ true → b ≡ true
    rest a e h = ground arith

    or_true : (a : Bool) {b : Bool} → b ≡ true → (a || b) ≡ true
    or_true a h = ground arith

-- The last row stays if no new one is of its process.
without-last :
    (new xs : List Snapshot) (s : Snapshot) (b : Bool)
    → any (λ (r : Snapshot). same_process r s) new ≡ b
    → without new (xs ++ s ∷ []) ≡ without new xs ++ (if b then [] else s ∷ [])
without-last new xs s b e =
    filter-append (λ (t : Snapshot). not (any (λ (r : Snapshot). same_process r t) new)) xs (s ∷ [])
    ∙ ap (λ ys. without new xs ++ ys) (one b e)
  where
    one :
        (b : Bool)
        → any (λ (r : Snapshot). same_process r s) new ≡ b
        → without new (s ∷ []) ≡ (if b then [] else s ∷ [])
    one true e = rw e refl
    one false e = rw e refl

-- One replaced row and then the others.
without-replace_row :
    (s : Snapshot) (new rows : List Snapshot)
    → without new (replace_row s rows) ++ new
      ≡ without (if any (λ (r : Snapshot). same_process r s) new then new else s ∷ new) rows
        ++ (if any (λ (r : Snapshot). same_process r s) new then new else s ∷ new)
without-replace_row s new rows = elim (Bool-cases (any (λ (r : Snapshot). same_process r s) new)) [
  | inl e ↦ rw e (
      ap (λ xs. xs ++ new)
        (without-last new (filter (λ t. not (same_process s t)) rows) s true e
          ∙ append-nil _
          ∙ filter-filter _ _ _ (λ t. covered t e) rows))
  | inr e ↦ rw e (
      ap (λ xs. xs ++ new) (without-last new (filter (λ t. not (same_process s t)) rows) s false e)
      ∙ append_assoc (without new (filter (λ t. not (same_process s t)) rows)) (s ∷ []) new
      ∙ ap (λ xs. xs ++ s ∷ new) (filter-filter _ _ _ (λ t. split (same_process s t) _) rows))
]
  where
    covered :
        (t : Snapshot)
        → any (λ (r : Snapshot). same_process r s) new ≡ true
        → (not (same_process s t) && not (any (λ (r : Snapshot). same_process r t) new))
          ≡ not (any (λ (r : Snapshot). same_process r t) new)
    covered t e = elim (Bool-cases (same_process s t)) [
      | inl k ↦ rw (k, any_same_trans new s t e k) refl
      | inr k ↦ rw k refl
    ]

    split : (a b : Bool) → (not a && not b) ≡ not (a || b)
    split a b = ground arith

behind-replace_row :
    (s : Snapshot) (rows : List Snapshot) (new : Option (List Snapshot))
    → behind (replace_row s rows) new ≡ behind rows (add_latest (some s) new)
behind-replace_row s rows none = refl
behind-replace_row s rows (some new) = ap some (without-replace_row s new rows)

insert_rows-step :
    (n : String) (now : ℕ) (ps : List Json) (d : Db) (rows : List Snapshot)
    → (new : Option (List Snapshot))
    → ((rows : List Snapshot) → insert_rows n now ps d rows ≡ behind rows new)
    → (o : Option Snapshot)
    → elim (add_row o rows) [ none ↦ none | some r ↦ insert_rows n now ps d r ]
      ≡ behind rows (add_latest o new)
insert_rows-step n now ps d rows new h none = refl
insert_rows-step n now ps d rows new h (some s) =
    h (replace_row s rows) ∙ behind-replace_row s rows new

insert_rows-latest :
    (n : String) (now : ℕ) (ps : List Json) (d : Db) (rows : List Snapshot)
    → insert_rows n now ps d rows ≡ behind rows (latest n now d ps)
unfolding insert_rows latest
insert_rows-latest n now [] d rows = ap some (sym (append-nil _ ∙ keep rows))
  where
    keep : (xs : List Snapshot) → without [] xs ≡ xs
    keep [] = refl
    keep (x ∷ xs) = ap (λ ys. x ∷ ys) (keep xs)
insert_rows-latest n now (p ∷ ps) d rows =
    insert_rows-step n now ps d rows (latest n now d ps) (insert_rows-latest n now ps d)
      (snapshot_of n now p d)

-- The new rows are the node's own.
AllOwn : String → Option (List Snapshot) → Type 0
AllOwn n none = Unit
AllOwn n (some new) = All (λ (s : Snapshot). s.node ≡ n) new

add_latest-AllOwn :
    (n : String) (o : Option Snapshot) (new : Option (List Snapshot))
    → ((s : Snapshot) → o ≡ some s → s.node ≡ n)
    → AllOwn n new
    → AllOwn n (add_latest o new)
unfolding AllOwn
add_latest-AllOwn n none new k h = tt
add_latest-AllOwn n (some s) none k h = tt
add_latest-AllOwn n (some s) (some new) k h =
    elim (Bool-cases (any (λ (r : Snapshot). same_process r s) new)) [
      | inl e ↦ rw e h
      | inr e ↦ rw e (k s refl, h)
    ]

latest-AllOwn : (n : String) (now : ℕ) (d : Db) (ps : List Json) → AllOwn n (latest n now d ps)
unfolding AllOwn latest
latest-AllOwn n now d [] = tt
latest-AllOwn n now d (p ∷ ps) =
    add_latest-AllOwn n (snapshot_of n now p d) (latest n now d ps) (snapshot_of-node n now p d)
      (latest-AllOwn n now d ps)

any_own :
    (n : String) (new : List Snapshot) (t : Snapshot)
    → All (λ (s : Snapshot). s.node ≡ n) new
    → str_eq t.node n ≡ false
    → any (λ (s : Snapshot). same_process s t) new ≡ false
any_own n [] t h k = refl
any_own n (s ∷ new) t (e, h) k = rw (foreign, any_own n new t h k) refl
  where
    foreign : same_process s t ≡ false
    foreign = elim (Bool-cases (same_process s t)) [
      | inr b ↦ b
      | inl b ↦ absurd (
          true≢false (
            sym
              ((eq_iff t.node n).1 (sym ((eq_iff s.node t.node).0 (both _ (s.pid == t.pid) b)) ∙ e))
            ∙ k))
    ]
      where
        both : (a b : Bool) → (a && b) ≡ true → a ≡ true
        both a b h = ground arith

-- The rows of the other nodes, and behind them the new ones.
abbrev pub refreshed : String → List Snapshot → Option (List Snapshot) → Option (List Snapshot)
refreshed n rows none = none
refreshed n rows (some own) = some (other_processes n rows ++ own)

kept_behind :
    (n : String) (rows : List Snapshot) (new : Option (List Snapshot))
    → AllOwn n new
    → behind (other_processes n rows) new ≡ refreshed n rows new
unfolding AllOwn
kept_behind n rows none h = refl
kept_behind n rows (some new) h =
    ap (λ xs. some (xs ++ new)) (filter-filter _ _ _ (λ t. kept t) rows)
  where
    kept :
        (t : Snapshot)
        → (not (str_eq t.node n) && not (any (λ (s : Snapshot). same_process s t) new))
          ≡ not (str_eq t.node n)
    kept t = elim (Bool-cases (str_eq t.node n)) [
      | inl e ↦ rw e refl
      | inr e ↦ rw (e, any_own n new t h e) refl
    ]

-- The GPU table after a report is the rows of the other nodes as they were, and behind them, of each
-- process that the report names, the last row it gives, and nothing else; the report is refused
-- exactly if one of its rows is.
pub snapshot_rows-latest :
    (n : String) (now : ℕ) (ps : List Json) (d : Db)
    → snapshot_rows n now ps d ≡ refreshed n d.gpu_snapshot (latest n now d ps)
unfolding snapshot_rows
snapshot_rows-latest n now ps d =
    insert_rows-latest n now ps d (other_processes n d.gpu_snapshot)
    ∙ kept_behind n d.gpu_snapshot (latest n now d ps) (latest-AllOwn n now d ps)
