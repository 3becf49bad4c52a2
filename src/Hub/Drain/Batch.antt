-- ===== src/Hub/Drain/Batch.antt =====
-- What one tick of `drainNode` (`controller/src/lib/hub.ts`) may send, and to whom.
use mathlib.Core.Path.{subst}
use docker_mass_deployment.Base.{
  ℕ, zero, suc, ◌+◌, ◌≤◌, String, ◌≡◌, refl, sym, ap, Bool, true, false, Option, none, some, List,
  [], ◌∷◌, ◌++◌, arith, ◌==◌, length, length-append, ◌⊎◌, Bool-cases, inl, inr, if◌then◌else◌,
}
use docker_mass_deployment.Nodes.{node_still_authorized}
use docker_mass_deployment.Outside.{Outside, TaskFrame}
use docker_mass_deployment.Store.World.{
  World, Outcome, ok, err, Db, Action, pure, ◌>>=◌, ◌>>◌, running,
}
use docker_mass_deployment.Hub.Session.{Conn, Hub, is_open, connection}
use docker_mass_deployment.Hub.Drain.{
  drain_claimed, drain, drain_node, drain_conn, drain_checked, fed, revoked,
}

-- What an action returns, if it returns, is in `P`.
record Gives {Q A : Type 0} (P : A → Type 0) (m : Action Q A) : Type 0 where
  at : (w : World Q) (a : A) → (m w).0 ≡ ok a → P a

module _ {Q A B : Type 0} {P : B → Type 0} where
  bind_gives :
      (f : A → Action Q B) (g : (a : A) → Gives P (f a)) (r : Outcome A) (w : World Q) (b : B)
      → (◌>>=◌ (λ _. (r, w)) f w).0 ≡ ok b
      → P b
  unfolding ◌>>=◌
  bind_gives f g (ok a) w b e = (g a).at w b e
  bind_gives f g (err x) w b e = absurd (clash e)
    where
      clash : err x ≡ ok b → ⊥
      clash p = ground arith

  >>=-Gives : (m : Action Q A) (f : A → Action Q B) → ((a : A) → Gives P (f a)) → Gives P (m >>= f)
  unfolding ◌>>=◌
  >>=-Gives m f g = record { at = λ w b e. bind_gives f g (m w).0 (m w).1 b e }

ok_inj : {A : Type 0} {a b : A} → ok a ≡ ok b → a ≡ b
ok_inj p = ground arith

module _ {Q A B : Type 0} {R : A → Type 0} {P : B → Type 0} where
  carry_gives :
      (f : A → Action Q B) (g : (a : A) → R a → Gives P (f a)) (r : Outcome A)
      (k : (a : A) → r ≡ ok a → R a) (w : World Q)
      → (b : B) → (◌>>=◌ (λ _. (r, w)) f w).0 ≡ ok b
      → P b
  unfolding ◌>>=◌
  carry_gives f g (ok a) k w b e = (g a (k a refl)).at w b e
  carry_gives f g (err x) k w b e = absurd (clash e)
    where
      clash : err x ≡ ok b → ⊥
      clash p = ground arith

  carry-Gives :
      (m : Action Q A) (f : A → Action Q B)
      → Gives R m
      → ((a : A) → R a → Gives P (f a))
      → Gives P (m >>= f)
  unfolding ◌>>=◌
  carry-Gives m f h g = record { at = λ w b e. carry_gives f g (m w).0 (h.at w) (m w).1 b e }

module _ {Q A : Type 0} {P : A → Type 0} where
  pure-Gives : (a : A) → P a → Gives {Q = Q} P (pure a)
  unfolding pure
  pure-Gives a h = record { at = λ w b e. subst P (ok_inj e) h }

  >>-Gives : {B : Type 0} (m : Action Q B) (k : Action Q A) → Gives P k → Gives P (m >> k)
  unfolding ◌>>◌
  >>-Gives m k g = >>=-Gives m (λ _. k) (λ _. g)

  if-Gives : (b : Bool) (m k : Action Q A) → Gives P m → Gives P k → Gives P (if b then m else k)
  if-Gives true m k hm hk = hm
  if-Gives false m k hm hk = hk

-- At most `n` frames went out.
abbrev Within : ℕ → List TaskFrame → Type 0
Within n frames = length frames ≤ n

Within-concat :
    (n : ℕ) (done : List TaskFrame) (f : TaskFrame)
    → length done + suc n ≡ length (done ++ f ∷ []) + n
Within-concat n done f = omega (arith, length-append done (f ∷ []))

module _ {Q : Type 0} (out : Outside Q) (sends : TaskFrame → Bool) (node : String) where
  drain_claimed-Gives :
      (n : ℕ) (next : List TaskFrame → Action Q (List TaskFrame)) (done : List TaskFrame)
      (x : Option (ℕ × TaskFrame))
      → ((d : List TaskFrame) → Gives (Within (length d + n)) (next d))
      → Gives (Within (length done + suc n)) (drain_claimed out sends next node done x)
  drain_claimed-Gives n next done none g = pure-Gives done (omega arith)
  drain_claimed-Gives n next done (some (job, f)) g =
      if-Gives _ _ _
        (>>=-Gives _ _ (λ went.
          if-Gives went _ _ (rw (Within-concat n done f) (g (done ++ f ∷ []))) (
            >>-Gives _ _
              (pure-Gives (done ++ f ∷ []) (omega (arith, length-append done (f ∷ [])))))))
        (>>-Gives _ _ (pure-Gives done (omega arith)))

  drain-Gives :
      (n : ℕ) (done : List TaskFrame)
      → Gives (Within (length done + n)) (drain out sends n node done)
  unfolding drain
  drain-Gives zero done = pure-Gives done (omega arith)
  drain-Gives (suc n) done =
      >>=-Gives _ _ (λ x. drain_claimed-Gives n (drain out sends n node) done x (drain-Gives n))

-- What a tick may give: at most 20 frames, and none unless the socket is open, is the connection of
-- the node, and was let in with the credential that the node has now.
pub record Fed (node : String) (s : ℕ) (h : Hub) (d : Db) (frames : List TaskFrame) : Type 0 where
  pub few : length frames ≤ 20
  pub entitled :
      (frames ≡ [])
      ⊎ ((is_open s h ≡ true)
          × ((c : Conn) × (connection node h ≡ some c)
              × ((c.socket == s) ≡ true)
              × (node_still_authorized node c.token_hash d ≡ true)))

module _ {Q : Type 0} (out : Outside Q) (sends : TaskFrame → Bool) (node : String) (s : ℕ) (h : Hub)
    (w : World Q) where
  nothing-Fed : (frames : List TaskFrame) → frames ≡ [] → Fed node s h w.db frames
  nothing-Fed frames e = record { few = rw e (omega arith); entitled = inl e }

  idle-Fed : (h' : Hub) (x : List TaskFrame × Hub) → ok ([], h') ≡ ok x → Fed node s h w.db x.0
  idle-Fed h' x e = nothing-Fed x.0 (ap (λ y. y.0) (sym (ok_inj e)))

  revoked-Gives : Gives (λ x. x.0 ≡ []) (revoked out sends node s h)
  revoked-Gives = >>=-Gives _ _ (λ h'. pure-Gives ([], h') refl)

  fed-Gives : Gives (λ x. length x.0 ≤ 20) (fed out sends node h)
  fed-Gives =
      carry-Gives (drain out sends 20 node []) _ (drain-Gives out sends node 20 [])
        (λ frames k. pure-Gives (frames, h) k)

  connected-Fed :
      (c : Conn)
      → is_open s h ≡ true
      → connection node h ≡ some c
      → (c.socket == s) ≡ true
      → (x : List TaskFrame × Hub)
      → (drain_checked out sends node s h (node_still_authorized node c.token_hash w.db) w).0 ≡ ok x
      → Fed node s h w.db x.0
  connected-Fed c o e k = elim (Bool-cases (node_still_authorized node c.token_hash w.db)) [
    | inl a ↦ rw a (λ x r. record { few = fed-Gives.at w x r; entitled = inr (o, (c, e, k, a)) })
    | inr a ↦ rw a (λ x r. nothing-Fed x.0 (revoked-Gives.at w x r))
  ]

  conn-Fed :
      (o : Option Conn)
      → is_open s h ≡ true
      → connection node h ≡ o
      → (x : List TaskFrame × Hub) → (drain_conn out sends node s h o w).0 ≡ ok x
      → Fed node s h w.db x.0
  unfolding running
  conn-Fed none op e = idle-Fed h
  conn-Fed (some c) op e = elim (Bool-cases (c.socket == s)) [
    | inl k ↦ rw k (connected-Fed c op e k)
    | inr k ↦ rw k (idle-Fed h)
  ]

-- If a tick of a node's consumer over the socket `s` ends without an exception, it sent at most 20
-- frames; and it sent one only if the socket is open, is the node's connection, and the node is
-- still allowed with the very credential hash that the socket was let in with.
pub drain_node-Fed :
    {Q : Type 0} (out : Outside Q) (sends : TaskFrame → Bool) (node : String) (s : ℕ) (h : Hub)
    (w : World Q) (x : List TaskFrame × Hub)
    → (drain_node out sends node s h w).0 ≡ ok x
    → Fed node s h w.db x.0
unfolding drain_node running
drain_node-Fed out sends node s h w = elim (Bool-cases (is_open s h)) [
  | inl o ↦ rw o (conn-Fed out sends node s h w (connection node h) o refl)
  | inr o ↦ rw o (idle-Fed out sends node s h w h)
]
