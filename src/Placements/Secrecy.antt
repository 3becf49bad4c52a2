-- ===== src/Placements/Secrecy.antt =====
-- What the task log keeps of the tasks that carry a password (`provisionMemberOnPlacement` and
-- `reprovisionMember` of controller/src/lib/placements.ts).
use docker_mass_deployment.Base.{
  ℕ, String, ◌≡◌, refl, sym, ap, ◌∙◌, Option, none, some, List, [], ◌∷◌, ◌++◌, map,
}
use mathlib.Core.Path.{subst}
use docker_mass_deployment.Json.{Json, or_null}
use docker_mass_deployment.Json.Redact.{redact_secrets, is_secret_key, redacted}
use docker_mass_deployment.Outside.{Outside, TaskFrame, Payload}
use docker_mass_deployment.Queue.{queued_row, insert_task, enqueue_task, queued_job}
use docker_mass_deployment.Secrets.{encrypt_secret}
use docker_mass_deployment.Store.Rows.{Student, TaskRow, Member}
use docker_mass_deployment.Store.World.{Db, World, Outcome, ok, err, Action, modify, ◌>>=◌, ◌>>◌}
use docker_mass_deployment.Store.Refusals.{ok≢err}
use docker_mass_deployment.Store.Keeps.{
  Keeps, keeping, modify-Keeps, draw-Keeps, clock-Keeps, pure-Keeps, with_queue-Keeps, gets-Keeps,
  throw_if-Keeps, >>=-Keeps, >>-Keeps,
}
use docker_mass_deployment.Queue.Keeping.{encrypt_secret-Keeps}
use docker_mass_deployment.Placements.Tables.{Placed, update_member}
use docker_mass_deployment.Placements.Invariant.{insert_member-task_log}
use docker_mass_deployment.Placements.Tasks.{add_params}
use docker_mass_deployment.Placements.Members.{add_member, provision_new, reprovision_member}

-- What the log shows of a task: its node, its action and its parameters.
abbrev pub shown : TaskRow → String × String × Json
shown r = (r.node, r.action, r.params)

abbrev pub logged : Db → List (String × String × Json)
logged d = map shown d.task_log

quota_shown : (n : Option ℕ) → redact_secrets (or_null n) ≡ or_null n
unfolding redact_secrets
quota_shown none = refl
quota_shown (some n) = refl

-- Redaction leaves the mask for the password and all other parameters as they are.
add_params-masked :
    (p : Placed) (username : String) (uid : ℕ) (password : String)
    → redact_secrets (add_params p username uid password) ≡ add_params p username uid redacted
unfolding redact_secrets is_secret_key add_params
add_params-masked p username uid password =
    rw (quota_shown p.row.student_fast_quota_bytes, quota_shown p.row.student_cold_quota_bytes) refl

-- The log stays as it is.
abbrev Quiet : {Q A : Type 0} → Action Q A → Type 0
Quiet {Q = Q} m = (xs : List (String × String × Json)) → Keeps {Q = Q} (λ d. logged d ≡ xs) m

-- If the action returns, the log has one entry more.
record Adds {Q A : Type 0} (e : String × String × Json) (m : Action Q A) : Type 0 where
  at : (w : World Q) (a : A) → (m w).0 ≡ ok a → logged (m w).1.db ≡ logged w.db ++ e ∷ []

before :
    {Q A B : Type 0} (f : A → Action Q B) (g : (a : A) → Quiet (f a))
    (xs : List (String × String × Json))
    → (r : Outcome A) (w : World Q) → ((a : A) → r ≡ ok a → logged w.db ≡ xs)
    → (b : B) → (◌>>=◌ (λ _. (r, w)) f w).0 ≡ ok b
    → logged (◌>>=◌ (λ _. (r, w)) f w).1.db ≡ xs
unfolding ◌>>=◌
before f g xs (ok a) w h b k = (g a xs).at w (h a refl)
before f g xs (err x) w h b k = absurd (ok≢err (sym k))

module _ {Q A B : Type 0} {e : String × String × Json} where
  later :
      (f : A → Action Q B) (g : (a : A) → Adds e (f a)) (r : Outcome A) (w : World Q)
      → (b : B) → (◌>>=◌ (λ _. (r, w)) f w).0 ≡ ok b
      → logged (◌>>=◌ (λ _. (r, w)) f w).1.db ≡ logged w.db ++ e ∷ []
  unfolding ◌>>=◌
  later f g (ok a) w b k = (g a).at w b k
  later f g (err x) w b k = absurd (ok≢err (sym k))

  first-Adds :
      (m : Action Q A) (f : A → Action Q B) → Quiet m → ((a : A) → Adds e (f a)) → Adds e (m >>= f)
  unfolding ◌>>=◌
  first-Adds m f q g = record {
    at = λ w b k.
        later f g (m w).0 (m w).1 b k ∙ ap (λ xs. xs ++ e ∷ []) ((q (logged w.db)).at w refl);
  }

  last-Adds :
      (m : Action Q A) (f : A → Action Q B) → Adds e m → ((a : A) → Quiet (f a)) → Adds e (m >>= f)
  unfolding ◌>>=◌
  last-Adds m f h g = record {
    at = λ w b k. before f g (logged w.db ++ e ∷ []) (m w).0 (m w).1 (h.at w) b k;
  }

module _ {Q A B : Type 0} {e : String × String × Json} where
  then-Adds : (m : Action Q A) (k : Action Q B) → Quiet m → Adds e k → Adds e (m >> k)
  unfolding ◌>>◌
  then-Adds m k q g = first-Adds m (λ _. k) q (λ _. g)

  done-Adds : (m : Action Q A) (k : Action Q B) → Adds e m → Quiet k → Adds e (m >> k)
  unfolding ◌>>◌
  done-Adds m k g q = last-Adds m (λ _. k) g (λ _. q)

map-append :
    (xs : List TaskRow) (r : TaskRow) → map shown (xs ++ r ∷ []) ≡ map shown xs ++ shown r ∷ []
map-append [] r = refl
map-append (x ∷ xs) r = ap (λ ys. shown x ∷ ys) (map-append xs r)

-- What the log shows of the task that gives a student an account: the mask for the password.
abbrev pub account : Placed → Student → String × String × Json
account p s = (p.node.name, "student.add", add_params p s.username s.linux_uid redacted)

module _ {Q : Type 0} (out : Outside Q) where
  insert-Adds :
      (node : String) (f : TaskFrame) (job : ℕ)
      → Adds {Q = Q}
          (node, f.action, redact_secrets f.params)
          (modify (insert_task (queued_row node f job)))
  unfolding modify insert_task
  insert-Adds node f job = record { at = λ w a k. map-append w.db.task_log (queued_row node f job) }

  sealed-Quiet : (text : String) → Quiet (encrypt_secret out text)
  sealed-Quiet text xs = encrypt_secret-Keeps out text

  job-Quiet : (node : String) (p : Payload) → Quiet (queued_job out node p)
  unfolding queued_job
  job-Quiet node p xs = search keeping

  -- A queued task is logged with its parameters redacted.
  enqueue_task-Adds :
      (node action : String) (params : Json) (actor : Option String)
      → Adds (node, action, redact_secrets params) (enqueue_task out node action params actor)
  unfolding enqueue_task
  enqueue_task-Adds node action params actor =
      first-Adds _ _ (λ xs. draw-Keeps)
        λ n.
          first-Adds _ _ (λ xs. clock-Keeps)
            λ now. first-Adds _ _ (sealed-Quiet _) λ envelope.
              first-Adds _ _ (job-Quiet node _) λ job.
                done-Adds _ _ (insert-Adds node _ job)
                  (λ xs. >>-Keeps _ _ (with_queue-Keeps _) (pure-Keeps _))

  add_member-Quiet : (m : Member) → Quiet (add_member out m)
  unfolding add_member
  add_member-Quiet m xs = >>=-Keeps _ _ (gets-Keeps _) λ refused.
      >>-Keeps _ _ (throw_if-Keeps _ _)
        (modify-Keeps _ (λ d h. ap (map shown) (insert_member-task_log m d) ∙ h))

  task-Adds :
      (p : Placed) (s : Student) (password : String) (actor : Option String)
      → Adds (account p s) (
          enqueue_task out p.node.name "student.add"
            (add_params p s.username s.linux_uid password)
            actor)
  task-Adds p s password actor =
      subst
        (λ j.
          Adds (p.node.name, "student.add", j)
            (enqueue_task out p.node.name "student.add"
              (add_params p s.username s.linux_uid password) actor))
        (add_params-masked p s.username s.linux_uid password)
        (enqueue_task-Adds p.node.name "student.add" _ actor)

  provision_new-Adds :
      (p : Placed) (s : Student) (actor : Option String)
      → Adds (account p s) (provision_new out p s actor)
  unfolding provision_new
  provision_new-Adds p s actor =
      first-Adds _ _ (λ xs. clock-Keeps)
        λ now.
          first-Adds _ _ (λ xs. draw-Keeps)
            λ n. first-Adds _ _ (sealed-Quiet _) λ secret.
              then-Adds _ _ (add_member-Quiet _)
                (done-Adds _ _ (task-Adds p s _ actor) (λ xs. pure-Keeps _))

  -- A member of a placement that is given a new password.
  reprovision_member-Adds :
      (p : Placed) (actor : Option String) (ms : Member × Student)
      → Adds (account p ms.1) (reprovision_member out p actor ms)
  unfolding reprovision_member update_member
  reprovision_member-Adds p actor ms =
      first-Adds _ _ (λ xs. clock-Keeps)
        λ now.
          first-Adds _ _ (λ xs. draw-Keeps)
            λ n. first-Adds _ _ (sealed-Quiet _) λ secret.
              then-Adds _ _ (λ xs. modify-Keeps _ (λ d h. h))
                (done-Adds _ _ (task-Adds p ms.1 _ actor) (λ xs. pure-Keeps _))

  -- If a student is provisioned on a placement, or provisioned anew, and a password is drawn for it,
  -- the task log afterwards is the log before and one task more, whose parameters are the placement's
  -- and the student's with the mask in place of the password: whatever password is drawn, no
  -- parameter in the log depends on it.
  pub provisioning-Logged :
      (p : Placed) (s : Student) (m : Member) (actor : Option String) (w v : World Q)
      (o : Option String)
      → (provision_new out p s actor w).0 ≡ ok o
      → (reprovision_member out p actor (m, s) v).0 ≡ ok tt
      → (logged (provision_new out p s actor w).1.db ≡ logged w.db ++ account p s ∷ [])
        × (logged (reprovision_member out p actor (m, s) v).1.db ≡ logged v.db ++ account p s ∷ [])
  provisioning-Logged p s m actor w v o a b =
      ((provision_new-Adds p s actor).at w o a, (reprovision_member-Adds p actor (m, s)).at v tt b)
