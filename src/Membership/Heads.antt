-- ===== src/Membership/Heads.antt =====
-- The PI of a lab on its roster (controller/src/lib/students.ts), under the statements that change
-- labs and rosters.
use docker_mass_deployment.Base.{
  ℕ, String, ◌≡◌, refl, ap, Bool, true, false, not, ◌&&◌, Option, none, some, List, [], ◌∷◌, ◌++◌,
  arith, ◌==◌, ==_iff, All, All-update_where, any, filter, update_where, any-append, Bool-cases,
  inl, inr, opt_is,
}
use docker_mass_deployment.Store.Rows.{Lab, LabMember}
use docker_mass_deployment.Labs.Roster.{headed, joins}
use docker_mass_deployment.Membership.Closed.{IsLabKeyed}

-- The PI of a lab is on its roster.
abbrev pub PiIn : List LabMember → ℕ → Option ℕ → Type 0
PiIn ms lab none = Unit
PiIn ms lab (some pi) = any (joins lab pi) ms ≡ true

abbrev pub Rostered : List LabMember → List Lab → Type 0
Rostered ms ls = All (λ l. PiIn ms l.id l.pi_student_id) ls

-- A roster that has at least the members of another.
abbrev pub More : List LabMember → List LabMember → Type 0
More ms ns = (lab pi : ℕ) → any (joins lab pi) ms ≡ true → any (joins lab pi) ns ≡ true

PiIn-More :
    (ms ns : List LabMember)
    → More ms ns
    → (lab : ℕ) (pi : Option ℕ) → PiIn ms lab pi
    → PiIn ns lab pi
PiIn-More ms ns more lab none h = tt
PiIn-More ms ns more lab (some pi) h = more lab pi h

pub Rostered-More :
    (ms ns : List LabMember) → More ms ns → (ls : List Lab) → Rostered ms ls → Rostered ns ls
Rostered-More ms ns more [] h = tt
Rostered-More ms ns more (l ∷ ls) (h, hs) =
    (PiIn-More ms ns more l.id l.pi_student_id h, Rostered-More ms ns more ls hs)

pub append-More : (ms ns : List LabMember) → More ms (ms ++ ns)
append-More ms ns lab pi h = rw (any-append (joins lab pi) ms ns) (rw h refl)

pub any-keep :
    {A : Type 0} (p q : A → Bool) (xs : List A)
    → ((x : A) → p x ≡ true → q x ≡ true)
    → any p xs ≡ true
    → any p (filter q xs) ≡ true
any-keep p q [] f h = h
any-keep p q (x ∷ xs) f h = elim (Bool-cases (p x)) [
  | inl e ↦ rw (f x e) (rw e refl)
  | inr e ↦ ground (arith, any-keep p q xs f)
]

-- A lab keeps its PI when others leave.
PiIn-filter :
    (q : LabMember → Bool) (ms : List LabMember) (lab : ℕ) (pi : Option ℕ)
    → ((s : ℕ) → pi ≡ some s → (m : LabMember) → joins lab s m ≡ true → q m ≡ true)
    → PiIn ms lab pi
    → PiIn (filter q ms) lab pi
PiIn-filter q ms lab none f h = tt
PiIn-filter q ms lab (some s) f h = any-keep (joins lab s) q ms (f s refl) h

pub leave_heads :
    (ms : List LabMember) (lab student : ℕ) (ls : List Lab)
    → any (λ (l : Lab). l.id == lab && opt_is l.pi_student_id student) ls ≡ false
    → Rostered ms ls
    → Rostered (filter (λ m. not (joins lab student m)) ms) ls
leave_heads ms lab student [] e h = tt
leave_heads ms lab student (l ∷ ls) e (h, hs) = (
  PiIn-filter (λ m. not (joins lab student m)) ms l.id l.pi_student_id
      (λ s k m j. other s m (ap (λ o. opt_is o student) k) j) h,
  leave_heads ms lab student ls (ground arith) hs,
)
  where
    other :
        (s : ℕ) (m : LabMember)
        → opt_is l.pi_student_id student ≡ (s == student)
        → joins l.id s m ≡ true
        → not (joins lab student m) ≡ true
    other s m k j = ground arith

-- A student who heads no lab is no lab's PI.
pub drop_heads :
    (ms : List LabMember) (id : ℕ) (ls : List Lab)
    → any (λ (l : Lab). opt_is l.pi_student_id id) ls ≡ false
    → Rostered ms ls
    → Rostered (filter (λ m. not (m.student_id == id)) ms) ls
drop_heads ms id [] e h = tt
drop_heads ms id (l ∷ ls) e (h, hs) = (
  PiIn-filter (λ m. not (m.student_id == id)) ms l.id l.pi_student_id
      (λ s k m j. other s m (ap (λ o. opt_is o id) k) j) h,
  drop_heads ms id ls (ground arith) hs,
)
  where
    other :
        (s : ℕ) (m : LabMember)
        → opt_is l.pi_student_id id ≡ (s == id)
        → joins l.id s m ≡ true
        → not (m.student_id == id) ≡ true
    other s m k j = ground arith

pub lab_heads :
    (ms : List LabMember) (id : ℕ) (ls : List Lab)
    → Rostered ms ls
    → Rostered (filter (λ m. not (m.lab_id == id)) ms) (filter (λ l. not (l.id == id)) ls)
lab_heads ms id [] h = tt
lab_heads ms id (l ∷ ls) (h, hs) = elim (Bool-cases (l.id == id)) [
  | inl e ↦ rw e (lab_heads ms id ls hs)
  | inr e ↦ rw e (
    PiIn-filter (λ m. not (m.lab_id == id)) ms l.id l.pi_student_id (λ s k m j. other s m e j) h,
    lab_heads ms id ls hs,
  )
]
  where
    other :
        (s : ℕ) (m : LabMember)
        → (l.id == id) ≡ false
        → joins l.id s m ≡ true
        → not (m.lab_id == id) ≡ true
    other s m e j = ground arith

-- The new PI of a lab, who is on its roster.
pub seat_heads :
    (ms ns : List LabMember) (id student : ℕ) (name email : Option String) (now : ℕ)
    → More ms ns
    → any (joins id student) ns ≡ true
    → (ls : List Lab) → Rostered ms ls
    → Rostered ns (update_where (λ l. l.id == id) (headed student name email now) ls)
seat_heads ms ns id student name email now more k [] h = tt
seat_heads ms ns id student name email now more k (l ∷ ls) (h, hs) =
    elim (Bool-cases (l.id == id)) [
      | inl e ↦
          rw e
            (rw ((==_iff l.id id).0 e) k, seat_heads ms ns id student name email now more k ls hs)
      | inr e ↦ rw e (
        PiIn-More ms ns more l.id l.pi_student_id h,
        seat_heads ms ns id student name email now more k ls hs,
      )
    ]

pub meta_heads :
    (ms : List LabMember) (p : Lab → Bool) (f : Lab → Lab)
    → IsLabKeyed f
    → (ls : List Lab) → Rostered ms ls
    → Rostered ms (update_where p f ls)
meta_heads ms p f k ls h =
    All-update_where (λ l. PiIn ms l.id l.pi_student_id) p f ls (λ l e. rw (k.id l, k.pi l) e) h
