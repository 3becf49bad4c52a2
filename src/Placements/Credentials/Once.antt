-- ===== src/Placements/Credentials/Once.antt =====
-- The one-time reveal of a credential (`consumePlacementCredential` of
-- `controller/src/lib/placements.ts`).
use mathlib.Core.Path.{subst}
use docker_mass_deployment.Base.{
  ℕ, String, ◌≡◌, refl, sym, ap, ◌∙◌, Bool, true, ◌&&◌, Option, none, some, List, [], ◌∷◌, ◌==◌,
  ==_iff, arith, str_eq, find?, update_where, Bool-cases, Option-cases, inl, inr, if◌then◌else◌,
}
use docker_mass_deployment.Outside.{Outside}
use docker_mass_deployment.Secrets.{decrypt_secret}
use docker_mass_deployment.Store.Rows.{Member, Student}
use docker_mass_deployment.Store.World.{Db, World, ok, err, running}
use docker_mass_deployment.Store.Keeps.{Keeps, keeping, modify-Keeps}
use docker_mass_deployment.Placements.Tables.{Placed, update_member, insert_audit, audit}
use docker_mass_deployment.Placements.Credentials.{
  Pending, pending_of, truthy, burnt, revealable, reveal_row, member_row, report, disclose, reveal,
  consume_placement_credential,
}

-- There is no such row, or its credential is gone.
abbrev pub Spent : Option Member → Type 0
Spent none = Unit
Spent (some m) = m.credential_secret ≡ none

no_value : {A : Type 0} {a : A} {e : String} → err e ≡ ok a → ⊥
no_value p = ground arith

some_inj : {A : Type 0} {a b : A} → some a ≡ some b → a ≡ b
some_inj p = ground arith

find?-hit :
    (q : Member → Bool) (x m : Member) (ms : List Member)
    → q x ≡ true
    → find? q (x ∷ ms) ≡ some m
    → x ≡ m
find?-hit q x m ms a e = some_inj (sym (ap (λ b. if b then some x else find? q ms) a) ∙ e)

burnt_cons :
    (q : Member → Bool) (now id : ℕ) (x : Member) (ms : List Member) (m : Member)
    → ((x : Member) → q (burnt now x) ≡ q x)
    → find? q (x ∷ ms) ≡ some m
    → m.id ≡ id
    → (find? q ms ≡ some m → Spent (find? q (update_where (λ x. x.id == id) (burnt now) ms)))
    → Spent (find? q (update_where (λ x. x.id == id) (burnt now) (x ∷ ms)))
burnt_cons q now id x ms m k e i later = elim (Bool-cases (q x)) [
  | inl a ↦ rw ((==_iff x.id id).1 (ap (λ y. y.id) (find?-hit q x m ms a e) ∙ i), k x, a) refl
  | inr b ↦
      let rest = later (sym (ap (λ c. if c then some x else find? q ms) b) ∙ e) in
      elim (Bool-cases (x.id == id)) [ inl c ↦ rw (c, k x, b) rest | inr c ↦ rw (c, b) rest ]
]

burnt-Spent :
    (q : Member → Bool) (now id : ℕ) (ms : List Member) (m : Member)
    → ((x : Member) → q (burnt now x) ≡ q x)
    → find? q ms ≡ some m
    → m.id ≡ id
    → Spent (find? q (update_where (λ x. x.id == id) (burnt now) ms))
burnt-Spent q now id [] m k e i = tt
burnt-Spent q now id (x ∷ ms) m k e i =
    burnt_cons q now id x ms m k e i (λ e'. burnt-Spent q now id ms m k e' i)

revealable-cases : (o : Option Pending) (p : Pending) → revealable o ≡ some p → o ≡ some p
revealable-cases none p e = absurd (ground arith)
revealable-cases (some x) p e = ground arith

pending-member :
    (m : Option Member) (l : Option Placed) (s : Option Student) (p : Pending)
    → pending_of m l s ≡ some p
    → m ≡ some p.member
pending-member none l s p e = absurd (ground arith)
pending-member (some m) none s p e = absurd (ground arith)
pending-member (some m) (some l) none p e = absurd (ground arith)
pending-member (some m) (some l) (some s) p e = ap some (ap (λ x. x.member) (some_inj e))

module _ {Q : Type 0} (out : Outside Q) (placement student : ℕ) where
  report-Keeps :
      (p : Pending) (actor : Option String) (password : String)
      → Keeps (λ d. Spent (member_row placement student d)) (report out p actor password)
  unfolding audit insert_audit
  report-Keeps p actor password = search (keeping, modify-Keeps) depth 20

  disclose-Spent :
      (p : Pending) (actor : Option String) (password : String) (w : World Q) (r : String × String)
      → member_row placement student w.db ≡ some p.member
      → (disclose out p actor password w).0 ≡ ok r
      → Spent (member_row placement student (disclose out p actor password w).1.db)
  unfolding running update_member
  disclose-Spent p actor password w r f = elim (Bool-cases (str_eq password "")) [
    | inl e ↦ rw e (λ q. absurd (no_value q))
    | inr e ↦ rw e (λ q. (report-Keeps p actor password).at _ (
        burnt-Spent (λ x. x.placement_id == placement && x.student_id == student) w.now p.member.id
          w.db.members.rows p.member (λ x. refl) f refl))
  ]

  reveal-Spent :
      (p : Pending) (actor : Option String) (w : World Q) (r : String × String)
      → member_row placement student w.db ≡ some p.member
      → (reveal out p actor w).0 ≡ ok r
      → Spent (member_row placement student (reveal out p actor w).1.db)
  unfolding running
  reveal-Spent p actor w r f = elim (Option-cases (truthy p.member.credential_secret)) [
    | inl e ↦ rw e (λ q. absurd (no_value q))
    | inr (secret, e) ↦ rw e (disclose-Spent p actor (decrypt_secret out secret) w r f)
  ]

  row-member :
      (p : Pending) (d : Db)
      → revealable (reveal_row placement student d) ≡ some p
      → member_row placement student d ≡ some p.member
  unfolding reveal_row
  row-member p d e = pending-member _ _ _ p (revealable-cases _ p e)

  consume-Spent :
      (actor : Option String) (w : World Q) (r : String × String)
      → (consume_placement_credential out placement student actor w).0 ≡ ok r
      → Spent (
          member_row placement student
            (consume_placement_credential out placement student actor w).1.db)
  unfolding consume_placement_credential running
  consume-Spent actor w r = elim (Option-cases (revealable (reveal_row placement student w.db))) [
    | inl e ↦ rw e (λ q. absurd (no_value q))
    | inr (p, e) ↦ rw e (reveal-Spent p actor w r (row-member p w.db e))
  ]

  -- A member whose credential is gone has none to reveal.
  reveal_at :
      (p : Pending) (actor : Option String) (w : World Q)
      → p.member.credential_secret ≡ none
      → (e : String) × ((reveal out p actor w).0 ≡ err e)
  unfolding running
  reveal_at p actor w h = rw h ("Credential was already delivered or revealed", refl)

  Spent-at :
      (actor : Option String) (w : World Q)
      → Spent (member_row placement student w.db)
      → (e : String) × ((consume_placement_credential out placement student actor w).0 ≡ err e)
  unfolding consume_placement_credential running
  Spent-at actor w h = elim (Option-cases (revealable (reveal_row placement student w.db))) [
    | inl e ↦ rw e ("Credentials are available only after provisioning succeeds", refl)
    | inr (p, e) ↦ rw e (reveal_at p actor w (subst Spent (row-member p w.db e) h))
  ]

-- If a credential was revealed once, then every later request to reveal the credential of the same
-- student on the same placement, by whomever and in whatever world has the member rows that the
-- first reveal left, is refused with an error.
pub consume_placement_credential_once :
    {Q : Type 0} (out : Outside Q) (placement student : ℕ) (first second : Option String)
    (w v : World Q) (r : String × String)
    → (consume_placement_credential out placement student first w).0 ≡ ok r
    → v.db.members ≡ (consume_placement_credential out placement student first w).1.db.members
    → (e : String) × ((consume_placement_credential out placement student second v).0 ≡ err e)
consume_placement_credential_once out placement student first second w v r h same =
    Spent-at out placement student second v (
      subst
        (λ ms. Spent (find? (λ m. m.placement_id == placement && m.student_id == student) ms.rows))
        (sym same) (consume-Spent out placement student first w r h))
