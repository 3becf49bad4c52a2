-- ===== src/Store/Refusals.antt =====
-- Actions that check before they write: what throws has changed nothing.
use docker_mass_deployment.Base.{
  String, ◌≡◌, ◌≢◌, refl, sym, ◌∙◌, Bool, true, false, Option, none, some, if◌then◌else◌, ◌⊎◌, inl,
  inr,
}
use mathlib.Core.Path.{subst}
use native.Mathlib.Omega.{arith}
use docker_mass_deployment.Store.World.{
  Db, Mail, World, Outcome, ok, err, Action, pure, gets, or_throw, modify, clock, draw, throw_if,
  throw_some, send_mail, with_queue, ◌>>=◌, ◌>>◌,
}

-- The action always returns.
pub record Returns {Q A : Type 0} (m : Action Q A) : Type 0 where
  pub value : World Q → A
  pub at : (w : World Q) → (m w).0 ≡ ok (value w)

-- The action changes nothing, whether it returns or throws.
pub record Reads {Q A : Type 0} (m : Action Q A) : Type 0 where
  pub at : (w : World Q) → (m w).1 ≡ w

-- The action throws only if `R`.
pub record Throws {Q A : Type 0} (R : Type 0) (m : Action Q A) : Type 0 where
  pub at : (w : World Q) (e : String) → (m w).0 ≡ err e → R

-- A throw of the action has changed nothing, unless `R`.
pub record Refuses {Q A : Type 0} (R : Type 0) (m : Action Q A) : Type 0 where
  pub at : (w : World Q) (e : String) → (m w).0 ≡ err e → ((m w).1 ≡ w) ⊎ R

pub ok≢err : {A : Type 0} {a : A} {e : String} → ok a ≢ err e
ok≢err p = ground arith

module _ {Q : Type 0} where
  pub pure-Returns : {A : Type 0} (a : A) → Returns {Q = Q} (pure a)
  unfolding pure
  pure-Returns a = record { value = λ w. a; at = λ w. refl }

  pub gets-Returns : {A : Type 0} (f : Db → A) → Returns {Q = Q} (gets f)
  unfolding gets
  gets-Returns f = record { value = λ w. f w.db; at = λ w. refl }

  pub modify-Returns : (f : Db → Db) → Returns {Q = Q} (modify f)
  unfolding modify
  modify-Returns f = record { value = λ w. tt; at = λ w. refl }

  pub clock-Returns : Returns {Q = Q} clock
  unfolding clock
  clock-Returns = record { value = λ w. w.now; at = λ w. refl }

  pub draw-Returns : Returns {Q = Q} draw
  unfolding draw
  draw-Returns = record { value = λ w. w.seed; at = λ w. refl }

  pub send_mail-Returns : (m : Mail) → Returns {Q = Q} (send_mail m)
  unfolding send_mail
  send_mail-Returns m = record { value = λ w. tt; at = λ w. refl }

  pub with_queue-Returns : {A : Type 0} (f : Q → A × Q) → Returns (with_queue f)
  unfolding with_queue
  with_queue-Returns f = record { value = λ w. (f w.queue).0; at = λ w. refl }

  then_at :
      {A B : Type 0} (f : A → Action Q B) (hf : (a : A) → Returns (f a)) (a : A) (r : Outcome A)
      (w : World Q)
      → ok a ≡ r
      → (◌>>=◌ (λ _. (r, w)) f w).0 ≡ ok ((hf a).value w)
  unfolding ◌>>=◌
  then_at f hf a r w p =
      subst (λ x. (◌>>=◌ (λ _. (x, w)) f w).0 ≡ ok ((hf a).value w)) p ((hf a).at w)

  pub >>=-Returns :
      {A B : Type 0} (m : Action Q A) (f : A → Action Q B)
      → Returns m
      → ((a : A) → Returns (f a))
      → Returns (m >>= f)
  unfolding ◌>>=◌
  >>=-Returns m f hm hf = record {
    value = λ w. (hf (hm.value w)).value (m w).1;
    at = λ w. then_at f hf (hm.value w) (m w).0 (m w).1 (sym (hm.at w));
  }

  pub >>-Returns :
      {A B : Type 0} (m : Action Q A) (k : Action Q B) → Returns m → Returns k → Returns (m >> k)
  unfolding ◌>>◌
  >>-Returns m k hm hk = >>=-Returns m (λ _. k) hm (λ _. hk)

  pub if-Returns :
      {A : Type 0} (b : Bool) (m k : Action Q A)
      → Returns m
      → Returns k
      → Returns (if b then m else k)
  if-Returns true m k hm hk = hm
  if-Returns false m k hm hk = hk

  pub gets-Reads : {A : Type 0} (f : Db → A) → Reads {Q = Q} (gets f)
  unfolding gets
  gets-Reads f = record { at = λ w. refl }

  pub clock-Reads : Reads {Q = Q} clock
  unfolding clock
  clock-Reads = record { at = λ w. refl }

  or_throw_at : {A : Type 0} (o : Option A) (e : String) (w : World Q) → (or_throw o e w).1 ≡ w
  unfolding or_throw
  or_throw_at none e w = refl
  or_throw_at (some a) e w = refl

  pub or_throw-Reads : {A : Type 0} (o : Option A) (e : String) → Reads {Q = Q} (or_throw o e)
  or_throw-Reads o e = record { at = or_throw_at o e }

  throw_if_at : (b : Bool) (e : String) (w : World Q) → (throw_if b e w).1 ≡ w
  unfolding throw_if
  throw_if_at true e w = refl
  throw_if_at false e w = refl

  pub throw_if-Reads : (b : Bool) (e : String) → Reads {Q = Q} (throw_if b e)
  throw_if-Reads b e = record { at = throw_if_at b e }

  throw_some_at : (o : Option String) (w : World Q) → (throw_some o w).1 ≡ w
  unfolding throw_some
  throw_some_at none w = refl
  throw_some_at (some e) w = refl

  pub throw_some-Reads : (o : Option String) → Reads {Q = Q} (throw_some o)
  throw_some-Reads o = record { at = throw_some_at o }

  pub Returns-Throws : {R A : Type 0} (m : Action Q A) → Returns m → Throws R m
  Returns-Throws m h = record { at = λ w e p. absurd (ok≢err (sym (h.at w) ∙ p)) }

  throws_at :
      {R A B : Type 0} (f : A → Action Q B) (hf : (a : A) → Throws R (f a)) (r : Outcome A)
      (k : (e : String) → r ≡ err e → R) (w : World Q)
      → (e : String) → (◌>>=◌ (λ _. (r, w)) f w).0 ≡ err e
      → R
  unfolding ◌>>=◌
  throws_at f hf (ok a) k w e p = (hf a).at w e p
  throws_at f hf (err x) k w e p = k x refl

  pub >>=-Throws :
      {R A B : Type 0} (m : Action Q A) (f : A → Action Q B)
      → Throws R m
      → ((a : A) → Throws R (f a))
      → Throws R (m >>= f)
  unfolding ◌>>=◌
  >>=-Throws m f hm hf = record { at = λ w e p. throws_at f hf (m w).0 (hm.at w) (m w).1 e p }

  pub >>-Throws :
      {R A B : Type 0} (m : Action Q A) (k : Action Q B)
      → Throws R m
      → Throws R k
      → Throws R (m >> k)
  unfolding ◌>>◌
  >>-Throws m k hm hk = >>=-Throws m (λ _. k) hm (λ _. hk)

  pub Throws-Refuses : {R A : Type 0} (m : Action Q A) → Throws R m → Refuses R m
  Throws-Refuses m h = record { at = λ w e p. inr (h.at w e p) }

  after :
      {R A B : Type 0} (f : A → Action Q B) (hf : (a : A) → Refuses R (f a)) (r : Outcome A)
      (w : World Q) (e : String)
      → (◌>>=◌ (λ _. (r, w)) f w).0 ≡ err e
      → ((◌>>=◌ (λ _. (r, w)) f w).1 ≡ w) ⊎ R
  unfolding ◌>>=◌
  after f hf (ok a) w e p = (hf a).at w e p
  after f hf (err x) w e p = inl refl

  -- Checks come first.
  pub >>=-Refuses :
      {R A B : Type 0} (m : Action Q A) (f : A → Action Q B)
      → Reads m
      → ((a : A) → Refuses R (f a))
      → Refuses R (m >>= f)
  unfolding ◌>>=◌
  >>=-Refuses {R = R} m f hm hf = record {
    at = λ w e p. subst (λ v. ((m >>= f) w).1 ≡ v ⊎ R) (hm.at w) (after f hf (m w).0 (m w).1 e p);
  }

  pub >>-Refuses :
      {R A B : Type 0} (m : Action Q A) (k : Action Q B)
      → Reads m
      → Refuses R k
      → Refuses R (m >> k)
  unfolding ◌>>◌
  >>-Refuses m k hm hk = >>=-Refuses m (λ _. k) hm (λ _. hk)

pub ruleset returning = (
  pure-Returns, gets-Returns, modify-Returns, clock-Returns, draw-Returns, send_mail-Returns,
  with_queue-Returns, >>=-Returns, >>-Returns, if-Returns,
)

pub ruleset throwing = (Returns-Throws, >>=-Throws, >>-Throws)

pub ruleset refusing = (
  gets-Reads, clock-Reads, or_throw-Reads, throw_if-Reads, throw_some-Reads, >>=-Refuses,
  >>-Refuses,
)
