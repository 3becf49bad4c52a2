-- ===== src/Placements/Refusals.antt =====
-- Requests of `controller/src/lib/placements.ts` and what is left when they throw.
use docker_mass_deployment.Base.{
  ℕ, String, ◌≡◌, refl, Option, none, some, Option-cases, ◌⊎◌, inl, inr,
}
use docker_mass_deployment.Json.{Json}
use docker_mass_deployment.Outside.{Outside, Payload, Accepts, Refused}
use docker_mass_deployment.Secrets.{encrypt_secret}
use docker_mass_deployment.Queue.{node_queue, queued_job, enqueue_task}
use docker_mass_deployment.Store.World.{World, Action, err, running}
use docker_mass_deployment.Store.Refusals.{
  Returns, Throws, Refuses, Throws-Refuses, returning, throwing, refusing, ok≢err,
}
use docker_mass_deployment.Placements.Tables.{Placed, audit}
use docker_mass_deployment.Placements.Tasks.{enqueue_placement_create}
use docker_mass_deployment.Placements.Change.{update_placement_quota, retry_placement}
use docker_mass_deployment.Placements.Teardown.{
  tear_down, destroy_placement, force_delete, force_delete_placement,
}

module _ {Q : Type 0} (out : Outside Q) where
  encrypt_secret-Returns : (text : String) → Returns {Q = Q} (encrypt_secret out text)
  unfolding encrypt_secret
  encrypt_secret-Returns text = search returning

  queued_job-Returns : Accepts out → (node : String) (p : Payload) → Returns (queued_job out node p)
  unfolding queued_job running
  queued_job-Returns accepts node p = record {
    value = λ w. (accepts (node_queue node) p w.queue).0;
    at = λ w. rw (accepts (node_queue node) p w.queue).1 refl;
  }

  -- A task is queued if the engine takes it.
  pub enqueue_task-Returns :
      Accepts out
      → (node action : String) (params : Json) (actor : Option String)
      → Returns (enqueue_task out node action params actor)
  unfolding enqueue_task
  enqueue_task-Returns accepts node action params actor =
      search (returning, encrypt_secret-Returns, queued_job-Returns accepts) depth 20

  queued_job-Throws : (node : String) (p : Payload) → Throws (Refused out) (queued_job out node p)
  unfolding queued_job running
  queued_job-Throws node p = record { at = λ w e. step w e }
    where
      step : (w : World Q) (e : String) → (queued_job out node p w).0 ≡ err e → Refused out
      step w e = elim (Option-cases (out.enqueue (node_queue node) p w.queue).0) [
        | inl k ↦ rw k (λ h. (node_queue node, (p, (w.queue, k))))
        | inr (job, k) ↦ rw k (λ h. absurd (ok≢err h))
      ]

  pub enqueue_task-Throws :
      (node action : String) (params : Json) (actor : Option String)
      → Throws (Refused out) (enqueue_task out node action params actor)
  unfolding enqueue_task
  enqueue_task-Throws node action params actor =
      search (throwing, returning, encrypt_secret-Returns, queued_job-Throws) depth 20

  pub audit-Returns :
      (actor : Option String) (action : String) (target detail : Option String)
      → Returns {Q = Q} (audit actor action target detail)
  unfolding audit
  audit-Returns actor action target detail = search returning depth 10

  enqueue_placement_create-Throws :
      (p : Placed) (actor : Option String)
      → Throws (Refused out) (enqueue_placement_create out p actor)
  unfolding enqueue_placement_create
  enqueue_placement_create-Throws p actor =
      search (throwing, returning, enqueue_task-Throws) depth 10

  update_placement_quota-Refuses :
      (id : ℕ) (fast : Option ℕ) (cold : Option (Option ℕ)) (actor : Option String)
      → Refuses (Refused out) (update_placement_quota out id fast cold actor)
  unfolding update_placement_quota
  update_placement_quota-Refuses id fast cold actor =
      search (refusing, returning, throwing, Throws-Refuses, enqueue_task-Throws, audit-Returns)
        depth 40

  retry_placement-Refuses :
      (id : ℕ) (actor : Option String) → Refuses (Refused out) (retry_placement out id actor)
  unfolding retry_placement
  retry_placement-Refuses id actor =
      search
        (
          refusing, returning, throwing, Throws-Refuses, enqueue_placement_create-Throws,
          audit-Returns,
        )
        depth 40

  tear_down-Refuses :
      (id : ℕ) (actor : Option String) (found : Option Placed)
      → Refuses (Refused out) (tear_down out id actor found)
  unfolding tear_down
  tear_down-Refuses id actor none = search (returning, throwing, Throws-Refuses)
  tear_down-Refuses id actor (some p) =
      search (refusing, returning, throwing, Throws-Refuses, enqueue_task-Throws, audit-Returns)
        depth 40

  force_delete-Refuses :
      (id : ℕ) (actor : Option String) (found : Option Placed)
      → Refuses (Refused out) (force_delete out id actor found)
  unfolding force_delete
  force_delete-Refuses id actor none = search (returning, throwing, Throws-Refuses)
  force_delete-Refuses id actor (some p) =
      search (refusing, returning, throwing, Throws-Refuses, enqueue_task-Throws, audit-Returns)
        depth 40

  destroy_placement-Refuses :
      (id : ℕ) (actor : Option String) → Refuses (Refused out) (destroy_placement out id actor)
  unfolding destroy_placement
  destroy_placement-Refuses id actor = search (refusing, tear_down-Refuses)

  force_delete_placement-Refuses :
      (id : ℕ) (actor : Option String) → Refuses (Refused out) (force_delete_placement out id actor)
  unfolding force_delete_placement
  force_delete_placement-Refuses id actor = search (refusing, force_delete-Refuses)

-- A request to change, retry, destroy or drop one placement.
pub data Request : Type 0 where
  quota : ℕ → Option ℕ → Option (Option ℕ) → Option String → Request
  again : ℕ → Option String → Request
  destroy : ℕ → Option String → Request
  drop : ℕ → Option String → Request

abbrev pub answer : {Q : Type 0} → Outside Q → Request → Action Q (Unit {0})
answer out (quota id fast cold actor) = update_placement_quota out id fast cold actor
answer out (again id actor) = retry_placement out id actor
answer out (destroy id actor) = destroy_placement out id actor
answer out (drop id actor) = force_delete_placement out id actor

answer-Refuses : {Q : Type 0} (out : Outside Q) (r : Request) → Refuses (Refused out) (answer out r)
answer-Refuses out (quota id fast cold actor) = update_placement_quota-Refuses out _ _ _ _
answer-Refuses out (again id actor) = retry_placement-Refuses out _ _
answer-Refuses out (destroy id actor) = destroy_placement-Refuses out _ _
answer-Refuses out (drop id actor) = force_delete_placement-Refuses out _ _

-- A request to change a quota, to retry, to destroy or to force the deletion of a placement that
-- throws has changed nothing at all, neither the database, nor the queue, nor what else the
-- controller keeps, unless the queue engine is one that does not take every job.
pub answer-unchanged :
    {Q : Type 0} (out : Outside Q) (r : Request) (w : World Q) (e : String)
    → (answer out r w).0 ≡ err e
    → ((answer out r w).1 ≡ w) ⊎ Refused out
answer-unchanged out r w e = (answer-Refuses out r).at w e
