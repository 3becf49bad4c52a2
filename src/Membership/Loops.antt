-- ===== src/Membership/Loops.antt =====
-- Tearing all placements of a lab down (`destroyLab` of controller/src/lib/labs.ts): no step throws.
use mathlib.Core.Path.{subst}
use docker_mass_deployment.Base.{
  ℕ, ◌+◌, String, ◌≡◌, refl, sym, ap, ◌∙◌, Bool, true, Option, some, List, [], ◌∷◌, ◌++◌, ◌==◌, All,
  find?, map,
}
use docker_mass_deployment.Outside.{Outside, Accepts}
use docker_mass_deployment.Store.Rows.{Node, Lab, Table}
use docker_mass_deployment.Store.World.{Db, World, Outcome, ok, Action, ◌>>=◌, pure}
use docker_mass_deployment.Placements.Tables.{Placed, find_lab}
use docker_mass_deployment.Placements.Change.{is_smb}
use docker_mass_deployment.Labs.{tear_down_one, tear_down_all}
use docker_mass_deployment.Membership.Blocking.{OwnersServed}
use docker_mass_deployment.Membership.Emptying.{
  Goes, Ready, Ready-more, found_node, client_refusal, owner_refusal,
}
use docker_mass_deployment.Membership.Steps.{step-Ready}

-- If the first action returns, what holds of the second after it holds of both.
pub bind_at :
    {Q A B : Type 0} (P : Outcome B × World Q → Type 0) (m : Action Q A) (f : A → Action Q B)
    (w : World Q) (a : A)
    → (m w).0 ≡ ok a
    → P (f a (m w).1)
    → P ((m >>= f) w)
unfolding ◌>>=◌
bind_at P m f w a e g = subst (λ x. P (◌>>=◌ (λ _. (x, (m w).1)) f w)) (sym e) g

module _ {Q : Type 0} (out : Outside Q) {ns : Table Node} {lab : Lab} {ls : Table Lab}
    (accepts : Accepts out) (served : OwnersServed ns.rows)
    (here : find? (λ (l : Lab). l.id == lab.id) ls.rows ≡ some lab) where
  there :
      (ps : List Placed) (todo : List ℕ) (d : Db)
      → Ready ns lab ls ps todo d
      → find_lab lab.id d ≡ some lab
  unfolding find_lab
  there ps todo d r =
      ap (λ (t : Table Lab). find? (λ (l : Lab). l.id == lab.id) t.rows) r.labs ∙ here

  owners-Goes :
      (force : Bool) (actor : Option String) (os : List Placed) (n : ℕ) (w : World Q)
      → Ready ns lab ls os [] w.db
      → Goes (tear_down_all out force actor os n w)
  unfolding tear_down_all pure
  owners-Goes force actor [] n w r = (n, refl)
  owners-Goes force actor (p ∷ os) n w r =
      let ((k, e), r') =
        step-Ready out accepts actor p [] w (there (p ∷ os) [] w.db r)
          (λ q g. owner_refusal p q w.db served r g) (Ready-more p.row.id w.db r) force in
      bind_at Goes (tear_down_one out force actor p) (λ i. tear_down_all out force actor os (n + i))
        w k e (owners-Goes force actor os (n + k) (tear_down_one out force actor p w).1 r')

  pub clients-Goes :
      (force : Bool) (actor : Option String) (cs os : List Placed) (n : ℕ) (w : World Q)
      → All (λ p. is_smb p.node.cold_backend ≡ true) cs
      → Ready ns lab ls (cs ++ os) (map (λ (q : Placed). q.row.id) cs) w.db
      → Goes (tear_down_all out force actor (cs ++ os) n w)
  unfolding tear_down_all
  clients-Goes force actor [] os n w c r = owners-Goes force actor os n w r
  clients-Goes force actor (p ∷ cs) os n w (c, hs) r =
      let todo = map (λ (q : Placed). q.row.id) cs in
      let ((k, e), r') =
        step-Ready out accepts actor p todo w (there (p ∷ cs ++ os) (p.row.id ∷ todo) w.db r)
          (λ q g. client_refusal p q w.db c (found_node p q (p.row.id ∷ todo) w.db r g).0) r
          force in
      bind_at Goes (tear_down_one out force actor p)
        (λ i. tear_down_all out force actor (cs ++ os) (n + i)) w k e
        (clients-Goes force actor cs os (n + k) (tear_down_one out force actor p w).1 hs r')
