-- ===== src/Queue/Log.antt =====
-- The task log over time: what every operation of the queue leaves as it was.
use docker_mass_deployment.Base.{
  ℕ, ◌+◌, String, ◌≡◌, refl, Bool, true, false, ◌∙◌, Option, some, List, [], ◌∷◌, ◌++◌, arith,
  str_eq, update_where, if◌then◌else◌,
}
use docker_mass_deployment.Json.{Json}
use docker_mass_deployment.Store.Rows.{TaskRow, TaskState}
use docker_mass_deployment.Store.World.{Db}
use docker_mass_deployment.Queue.{
  is_final, is_task_of, is_open_task_of, is_unreceived_task_of, marked, insert_task, mark_rows,
  receive_rows, bump_rows,
}

-- How one row may change by what the node `n` reports or is sent: it stays the same task; it stays
-- the same row if it belongs to another node; and once it is finished, its outcome stays.
pub record RowEvolves (n : String) (x y : TaskRow) : Type 0 where
  pub task : y.task_uuid ≡ x.task_uuid
  pub node : y.node ≡ x.node
  pub action : y.action ≡ x.action
  pub params : y.params ≡ x.params
  pub requested : y.requested_by ≡ x.requested_by
  pub foreign : str_eq x.node n ≡ false → y ≡ x
  pub final :
      is_final x.state ≡ true → (y.state ≡ x.state) × (y.result ≡ x.result) × (y.error ≡ x.error)

-- No row is lost or reordered, each evolves, and new rows come at the end.
abbrev pub Evolves : String → List TaskRow → List TaskRow → Type 0
Evolves n [] ys = Unit
Evolves n (x ∷ xs) [] = ⊥
Evolves n (x ∷ xs) (y ∷ ys) = RowEvolves n x y × Evolves n xs ys

pub RowEvolves-refl : (n : String) (x : TaskRow) → RowEvolves n x x
RowEvolves-refl n x = record {
  task = refl;
  node = refl;
  action = refl;
  params = refl;
  requested = refl;
  foreign = λ _. refl;
  final = λ _. (refl, refl, refl);
}

pub RowEvolves-trans :
    (n : String) {x y z : TaskRow} → RowEvolves n x y → RowEvolves n y z → RowEvolves n x z
RowEvolves-trans n {x} {y} {z} p q = record {
  task = q.task ∙ p.task;
  node = q.node ∙ p.node;
  action = q.action ∙ p.action;
  params = q.params ∙ p.params;
  requested = q.requested ∙ p.requested;
  foreign = λ h. q.foreign (rw p.node h) ∙ p.foreign h;
  final = λ h.
      let (s, r, e) = p.final h in let (s', r', e') = q.final (rw s h) in (s' ∙ s, r' ∙ r, e' ∙ e);
}

pub Evolves-refl : (n : String) (xs : List TaskRow) → Evolves n xs xs
Evolves-refl n [] = tt
Evolves-refl n (x ∷ xs) = (RowEvolves-refl n x, Evolves-refl n xs)

pub Evolves-append :
    (n : String) (xs ys zs : List TaskRow) → Evolves n xs ys → Evolves n xs (ys ++ zs)
Evolves-append n [] ys zs h = tt
Evolves-append n (x ∷ xs) [] zs h = absurd h
Evolves-append n (x ∷ xs) (y ∷ ys) zs (h, hs) = (h, Evolves-append n xs ys zs hs)

Evolves-update_where :
    (n : String) (p : TaskRow → Bool) (f : TaskRow → TaskRow) (xs ys : List TaskRow)
    → ((y : TaskRow) → p y ≡ true → RowEvolves n y (f y))
    → Evolves n xs ys
    → Evolves n xs (update_where p f ys)
Evolves-update_where n p f [] ys step h = tt
Evolves-update_where n p f (x ∷ xs) [] step h = absurd h
Evolves-update_where n p f (x ∷ xs) (y ∷ ys) step (h, hs) =
    (one (p y) (step y), Evolves-update_where n p f xs ys step hs)
  where
    one : (b : Bool) → (b ≡ true → RowEvolves n y (f y)) → RowEvolves n x (if b then f y else y)
    one true s = RowEvolves-trans n h (s refl)
    one false s = h

-- The statement about a database: its task log evolved from the rows `xs`.
abbrev pub Since : String → List TaskRow → Db → Type 0
Since n xs d = Evolves n xs d.task_log

mark-RowEvolves :
    (n uuid : String) (state : TaskState) (result : Option Json) (error : Option String)
    (cached : Bool) (now : ℕ) (y : TaskRow)
    → is_open_task_of n uuid y ≡ true
    → RowEvolves n y (marked state result error cached now y)
mark-RowEvolves n uuid state result error cached now y p = record {
  task = refl;
  node = refl;
  action = refl;
  params = refl;
  requested = refl;
  foreign = λ h. ground arith;
  final = λ h. ground arith;
}

module _ (n : String) (xs : List TaskRow) where
  pub insert_task-Since : (row : TaskRow) (d : Db) → Since n xs d → Since n xs (insert_task row d)
  unfolding insert_task
  insert_task-Since row d h = Evolves-append n xs d.task_log (row ∷ []) h

  pub mark_rows-Since :
      (uuid : String) (state : TaskState) (result : Option Json) (error : Option String)
      (cached : Bool) (now : ℕ) (d : Db)
      → Since n xs d
      → Since n xs (mark_rows n uuid state result error cached now d)
  unfolding mark_rows
  mark_rows-Since uuid state result error cached now d =
      Evolves-update_where n (is_open_task_of n uuid) (marked state result error cached now) xs
        d.task_log (mark-RowEvolves n uuid state result error cached now)

  pub receive_rows-Since :
      (uuid : String) (now : ℕ) (d : Db) → Since n xs d → Since n xs (receive_rows n uuid now d)
  unfolding receive_rows
  receive_rows-Since uuid now d =
      Evolves-update_where n (is_unreceived_task_of n uuid)
        (λ r. record r { received_at = some now }) xs d.task_log
        λ y p. record {
          task = refl;
          node = refl;
          action = refl;
          params = refl;
          requested = refl;
          foreign = λ h. ground arith;
          final = λ h. (refl, refl, refl);
        }

  pub bump_rows-Since : (uuid : String) (d : Db) → Since n xs d → Since n xs (bump_rows n uuid d)
  unfolding bump_rows
  bump_rows-Since uuid d =
      Evolves-update_where n (is_task_of n uuid) (λ r. record r { attempts = r.attempts + 1 }) xs
        d.task_log
        λ y p. record {
          task = refl;
          node = refl;
          action = refl;
          params = refl;
          requested = refl;
          foreign = λ h. ground arith;
          final = λ h. (refl, refl, refl);
        }
