-- ===== src/Store/Keeps.antt =====
-- Invariants over actions, by one rule for each way that actions are put together.
use docker_mass_deployment.Base.{
  String, Bool, true, false, Option, none, some, List, [], ◌∷◌, if◌then◌else◌,
}
use docker_mass_deployment.Store.World.{
  Db, Mail, World, Outcome, ok, err, Action, pure, throw, gets, or_throw, modify, clock, draw,
  throw_if, throw_some, send_mail, with_queue, ◌>>=◌, ◌>>◌, when, for_each,
}

-- Whatever the action returns or throws, it leaves a database with the invariant if it finds one.
pub record Keeps {Q A : Type 0} (P : Db → Type 0) (m : Action Q A) : Type 0 where
  pub at : (w : World Q) → P w.db → P (m w).1.db

module _ {Q : Type 0} (P : Db → Type 0) where
  or_throw_at :
      {A : Type 0} (o : Option A) (e : String) (w : World Q) → P w.db → P (or_throw o e w).1.db
  unfolding or_throw
  or_throw_at none e w h = h
  or_throw_at (some a) e w h = h

  throw_if_at : (b : Bool) (e : String) (w : World Q) → P w.db → P (throw_if b e w).1.db
  unfolding throw_if
  throw_if_at true e w h = h
  throw_if_at false e w h = h

  throw_some_at : (o : Option String) (w : World Q) → P w.db → P (throw_some o w).1.db
  unfolding throw_some
  throw_some_at none w h = h
  throw_some_at (some e) w h = h

module _ {Q : Type 0} {P : Db → Type 0} where
  pub pure-Keeps : {A : Type 0} (a : A) → Keeps {Q = Q} P (pure a)
  unfolding pure
  pure-Keeps a = record { at = λ w h. h }

  pub throw-Keeps : {A : Type 0} (e : String) → Keeps {Q = Q} {A = A} P (throw e)
  unfolding throw
  throw-Keeps e = record { at = λ w h. h }

  pub gets-Keeps : {A : Type 0} (f : Db → A) → Keeps {Q = Q} P (gets f)
  unfolding gets
  gets-Keeps f = record { at = λ w h. h }

  pub or_throw-Keeps : {A : Type 0} (o : Option A) (e : String) → Keeps {Q = Q} P (or_throw o e)
  or_throw-Keeps o e = record { at = or_throw_at P o e }

  pub modify-Keeps : (f : Db → Db) → ((d : Db) → P d → P (f d)) → Keeps {Q = Q} P (modify f)
  unfolding modify
  modify-Keeps f keep = record { at = λ w h. keep w.db h }

  pub clock-Keeps : Keeps {Q = Q} P clock
  unfolding clock
  clock-Keeps = record { at = λ w h. h }

  pub draw-Keeps : Keeps {Q = Q} P draw
  unfolding draw
  draw-Keeps = record { at = λ w h. h }

  pub throw_if-Keeps : (b : Bool) (e : String) → Keeps {Q = Q} P (throw_if b e)
  throw_if-Keeps b e = record { at = throw_if_at P b e }

  pub throw_some-Keeps : (o : Option String) → Keeps {Q = Q} P (throw_some o)
  throw_some-Keeps o = record { at = throw_some_at P o }

  pub send_mail-Keeps : (m : Mail) → Keeps {Q = Q} P (send_mail m)
  unfolding send_mail
  send_mail-Keeps m = record { at = λ w h. h }

  pub with_queue-Keeps : {A : Type 0} (f : Q → A × Q) → Keeps P (with_queue f)
  unfolding with_queue
  with_queue-Keeps f = record { at = λ w h. h }

  bind_at :
      {A B : Type 0} (f : A → Action Q B) (keep : (a : A) → Keeps P (f a)) (r : Outcome A)
      (w : World Q)
      → P w.db
      → P (◌>>=◌ (λ _. (r, w)) f w).1.db
  unfolding ◌>>=◌
  bind_at f keep (ok a) w h = (keep a).at w h
  bind_at f keep (err e) w h = h

  pub >>=-Keeps :
      {A B : Type 0} (m : Action Q A) (f : A → Action Q B)
      → Keeps P m
      → ((a : A) → Keeps P (f a))
      → Keeps P (m >>= f)
  unfolding ◌>>=◌
  >>=-Keeps m f k keep = record { at = λ w h. bind_at f keep (m w).0 (m w).1 (k.at w h) }

  pub >>-Keeps :
      {A B : Type 0} (m : Action Q A) (k : Action Q B) → Keeps P m → Keeps P k → Keeps P (m >> k)
  unfolding ◌>>◌
  >>-Keeps m k hm hk = >>=-Keeps m (λ _. k) hm (λ _. hk)

  when_at :
      (b : Bool) (m : Action Q (Unit {0}))
      → Keeps P m
      → (w : World Q) → P w.db
      → P (when b m w).1.db
  unfolding when
  when_at true m k w h = k.at w h
  when_at false m k w h = h

  pub when-Keeps : (b : Bool) (m : Action Q (Unit {0})) → Keeps P m → Keeps P (when b m)
  when-Keeps b m k = record { at = when_at b m k }

  pub if-Keeps :
      {A : Type 0} (b : Bool) (m k : Action Q A)
      → Keeps P m
      → Keeps P k
      → Keeps P (if b then m else k)
  if-Keeps true m k hm hk = hm
  if-Keeps false m k hm hk = hk

  pub for_each-Keeps :
      {A : Type 0} (xs : List A) (f : A → Action Q (Unit {0}))
      → ((a : A) → Keeps P (f a))
      → Keeps P (for_each xs f)
  unfolding for_each
  for_each-Keeps [] f keep = pure-Keeps tt
  for_each-Keeps (x ∷ xs) f keep =
      >>-Keeps (f x) (for_each xs f) (keep x) (for_each-Keeps xs f keep)

pub ruleset keeping = (
  pure-Keeps, throw-Keeps, gets-Keeps, or_throw-Keeps, clock-Keeps, draw-Keeps, throw_if-Keeps,
  throw_some-Keeps, send_mail-Keeps, with_queue-Keeps, >>=-Keeps, >>-Keeps, when-Keeps, if-Keeps,
  for_each-Keeps,
)
