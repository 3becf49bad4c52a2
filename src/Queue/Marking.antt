-- ===== src/Queue/Marking.antt =====
-- What a mark does to the task that it names.
use docker_mass_deployment.Base.{
  ℕ, String, ◌≡◌, refl, Bool, true, false, Option, List, [], ◌∷◌, arith, any, update_where,
}
use docker_mass_deployment.Json.{Json}
use docker_mass_deployment.Store.Rows.{TaskRow, TaskState}
use docker_mass_deployment.Store.World.{World, ok, running}
use docker_mass_deployment.Queue.{is_final, is_open_task_of, marked, mark_rows, mark_task_state}

update_where_none {ℓ} :
    {A : Type ℓ} (p : A → Bool) (f : A → A) (xs : List A)
    → any p xs ≡ false
    → update_where p f xs ≡ xs
update_where_none p f [] h = refl
update_where_none p f (x ∷ xs) h = ground (arith, update_where_none p f xs)

-- Once marked as finished, a row is open no more.
any-marked :
    (node uuid : String) (state : TaskState) (result : Option Json) (error : Option String)
    (cached : Bool) (now : ℕ) (rows : List TaskRow)
    → is_final state ≡ true
    → any
        (is_open_task_of node uuid)
        (update_where (is_open_task_of node uuid) (marked state result error cached now) rows)
      ≡ false
any-marked node uuid state result error cached now [] h = refl
any-marked node uuid state result error cached now (r ∷ rows) h =
    ground (arith, any-marked node uuid state result error cached now rows h)

-- A finished task takes one result: after a mark as 'ok' or 'failed', every later mark of the task
-- by the same node, with whatever state, result and error, reports that no row matched and changes
-- nothing at all.
pub mark_task_state_once :
    {Q : Type 0} (node uuid : String) (state later : TaskState) (result result' : Option Json)
    (error error' : Option String) (cached cached' : Bool) (w : World Q)
    → is_final state ≡ true
    → let w' = (mark_task_state node uuid state result error cached w).1 in
      mark_task_state node uuid later result' error' cached' w' ≡ (ok false, w')
unfolding mark_task_state mark_rows running
mark_task_state_once node uuid state later result result' error error' cached cached' w h =
    let rows =
      update_where (is_open_task_of node uuid) (marked state result error cached w.now)
        w.db.task_log in
    let closed = any-marked node uuid state result error cached w.now w.db.task_log h in
    let same =
      update_where_none (is_open_task_of node uuid) (marked later result' error' cached' w.now) rows
        closed in
    λ i. (ok (closed i), record w { db = record (w.db) { task_log = same i } })
