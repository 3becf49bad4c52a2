-- ===== src/Membership/Invariant.antt =====
-- The invariant of the rosters (controller/src/lib/labs.ts and students.ts).
use docker_mass_deployment.Base.{
  ℕ, ◌+◌, String, ◌≡◌, refl, ◌∙◌, sym, Bool, true, false, true≢false, not, Option, none, some, List,
  [], ◌∷◌, ◌++◌, arith, ◌==◌, ==_iff, str_eq, eq_iff, codes, Distinct, Distinct-filter,
  Distinct-concat, Distinct-update_where, All, All-append, All-filter, All-update_where, any, find?,
  filter, update_where, any-append, Bool-cases, inl, inr,
}
use docker_mass_deployment.Store.Rows.{Student, Lab, LabMember, Placement, Member, insert_row}
use docker_mass_deployment.Store.World.{Db}
use docker_mass_deployment.Queue.{insert_task}
use docker_mass_deployment.Placements.Tables.{
  placement_refused, member_refused, insert_placement, update_placement, delete_placement,
  delete_placements, insert_member, update_member, delete_member, insert_audit,
}
use docker_mass_deployment.Placements.Closed.{Closed}
use docker_mass_deployment.Labs.Roster.{
  same_sid, student_clash, is_uid, student_refused, insert_student, contact, update_contact, headed,
  appoint, heads_lab, delete_student, joins, is_lab_member, insert_lab_member, delete_lab_member,
}
use docker_mass_deployment.Labs.{
  is_valid_lab_name, get_lab_by_name, new_lab, CreateLabInput, insert_lab, update_lab, delete_lab,
}
use docker_mass_deployment.Students.{is_pi_of}
use docker_mass_deployment.Membership.Closed.{IsLabKeyed, seated, Enrolling}
use docker_mass_deployment.Membership.Heads.{
  PiIn, Rostered, More, Rostered-More, append-More, leave_heads, drop_heads, lab_heads, seat_heads,
  meta_heads,
}

abbrev same_name : Lab → Lab → Bool
same_name l m = str_eq l.name m.name

-- Students have distinct ids, student ids, user names and UIDs, and UIDs of their range; labs have
-- distinct valid names; every lab's PI is on its roster.
pub record IsEnrolled (ss : List Student) (ls : List Lab) (ms : List LabMember) : Type 0 where
  pub students : Distinct student_clash ss
  pub uids : All (λ (s : Student). is_uid s.linux_uid ≡ true) ss
  pub labs : Distinct same_name ls
  pub names : All (λ (l : Lab). is_valid_lab_name (codes l.name) ≡ true) ls
  pub heads : Rostered ms ls

abbrev pub Enrolled : Db → Type 0
Enrolled d = IsEnrolled d.students.rows d.labs.rows d.lab_members.rows

str_eq_symm : (s t : String) → str_eq s t ≡ str_eq t s
str_eq_symm s t = elim (Bool-cases (str_eq s t)) [
  | inl a ↦ elim (Bool-cases (str_eq t s)) [
    | inl b ↦ a ∙ sym b
    | inr b ↦ absurd (true≢false (sym ((eq_iff t s).1 (sym ((eq_iff s t).0 a))) ∙ b))
  ]
  | inr a ↦ elim (Bool-cases (str_eq t s)) [
    | inl b ↦ absurd (true≢false (sym ((eq_iff s t).1 (sym ((eq_iff t s).0 b))) ∙ a))
    | inr b ↦ a ∙ sym b
  ]
]

same_sid_symm : (a b : Option String) → same_sid a b ≡ same_sid b a
same_sid_symm none none = refl
same_sid_symm none (some b) = refl
same_sid_symm (some a) none = refl
same_sid_symm (some a) (some b) = str_eq_symm b a

student_clash_symm : (s t : Student) → student_clash s t ≡ student_clash t s
student_clash_symm s t =
    rw (str_eq_symm s.username t.username, same_sid_symm s.student_id t.student_id) (ground arith)

named_free :
    (name : String) (ls : List Lab)
    → find? (λ l. str_eq l.name name) ls ≡ none
    → any (λ l. str_eq name l.name) ls ≡ false
named_free name [] e = refl
named_free name (l ∷ ls) e = ground (arith, str_eq_symm name l.name, named_free name ls)

insert_student-Enrolled : (s : Student) (d : Db) → Enrolled d → Enrolled (insert_student s d)
unfolding insert_student insert_row
insert_student-Enrolled s d w =
    let row = record s { id = d.students.last_id + 1 } in
    elim (Bool-cases (student_refused row d)) [
      | inl e ↦ rw e w
      | inr e ↦ rw e (record {
        students =
            Distinct-concat student_clash student_clash_symm d.students.rows row (ground arith)
              w.students;
        uids =
            All-append (λ s. is_uid s.linux_uid ≡ true) d.students.rows (row ∷ []) w.uids
              (ground arith, tt);
        labs = w.labs;
        names = w.names;
        heads = w.heads;
      })
    ]

insert_lab-Enrolled :
    (input : CreateLabInput) (now : ℕ) (d : Db)
    → is_valid_lab_name (codes input.name) ≡ true
    → get_lab_by_name input.name d ≡ none
    → Enrolled d
    → Enrolled (insert_lab (new_lab input now) d)
unfolding insert_lab insert_row get_lab_by_name
insert_lab-Enrolled input now d v g w =
    let row = record (new_lab input now) { id = d.labs.last_id + 1 } in
    record {
      students = w.students;
      uids = w.uids;
      labs =
          Distinct-concat same_name (λ l m. str_eq_symm l.name m.name) d.labs.rows row
            (named_free input.name d.labs.rows g) w.labs;
      names =
          All-append (λ l. is_valid_lab_name (codes l.name) ≡ true) d.labs.rows (row ∷ []) w.names
            (v, tt);
      heads =
          All-append (λ l. PiIn d.lab_members.rows l.id l.pi_student_id) d.labs.rows (row ∷ [])
            w.heads (tt, tt);
    }

module _ (lab student : ℕ) (name email : Option String) (now : ℕ) where
  seat-IsEnrolled :
      (ss : List Student) (ls : List Lab) (ms ns : List LabMember)
      → More ms ns
      → any (joins lab student) ns ≡ true
      → IsEnrolled ss ls ms
      → IsEnrolled
          (update_where (λ s. s.id == student) (contact email name now) ss)
          (update_where (λ l. l.id == lab) (headed student name email now) ls)
          ns
  seat-IsEnrolled ss ls ms ns more k w = record {
    students =
        Distinct-update_where student_clash (contact email name now) (λ s. s.id == student)
          (λ x y. refl) (λ x y. refl) ss w.students;
    uids =
        All-update_where (λ s. is_uid s.linux_uid ≡ true) (λ s. s.id == student)
          (contact email name now) ss (λ s h. h) w.uids;
    labs =
        Distinct-update_where same_name (headed student name email now) (λ l. l.id == lab)
          (λ x y. refl) (λ x y. refl) ls w.labs;
    names =
        All-update_where (λ l. is_valid_lab_name (codes l.name) ≡ true) (λ l. l.id == lab)
          (headed student name email now) ls (λ l h. h) w.names;
    heads = seat_heads ms ns lab student name email now more k ls w.heads;
  }

  seated-Enrolled : (d : Db) → Enrolled d → Enrolled (seated lab student name email now d)
  unfolding update_contact appoint is_lab_member insert_lab_member insert_row
  seated-Enrolled d w = elim (Bool-cases (any (joins lab student) d.lab_members.rows)) [
    | inl e ↦ rw e (
        seat-IsEnrolled d.students.rows d.labs.rows d.lab_members.rows d.lab_members.rows
          (λ l p h. h) e w)
    | inr e ↦ rw e (
        seat-IsEnrolled d.students.rows d.labs.rows d.lab_members.rows
          (d.lab_members.rows ++ row d ∷ []) (append-More d.lab_members.rows (row d ∷ []))
          (rw (any-append (joins lab student) d.lab_members.rows (row d ∷ []), e) found) w)
  ]
    where
      row : Db → LabMember
      row e = record {
        id = e.lab_members.last_id + 1;
        lab_id = lab;
        student_id = student;
        created_at = now;
      }

      found : any (joins lab student) (row d ∷ []) ≡ true
      found = rw ((==_iff lab lab).1 refl, (==_iff student student).1 refl) refl

update_lab-Enrolled :
    (id : ℕ) (f : Lab → Lab) → IsLabKeyed f → (d : Db) → Enrolled d → Enrolled (update_lab id f d)
unfolding update_lab
update_lab-Enrolled id f k d w = record {
  students = w.students;
  uids = w.uids;
  labs =
      Distinct-update_where same_name f (λ l. l.id == id) (λ x y. rw (k.name y) refl)
        (λ x y. rw (k.name x) refl) d.labs.rows w.labs;
  names =
      All-update_where (λ l. is_valid_lab_name (codes l.name) ≡ true) (λ l. l.id == id) f
        d.labs.rows (λ l h. rw (k.name l) h) w.names;
  heads = meta_heads d.lab_members.rows (λ l. l.id == id) f k d.labs.rows w.heads;
}

-- A deletion among placements leaves labs, students and rosters alone.
abbrev pub Same : Db → Db → Type 0
Same d e = (d.students ≡ e.students) × (d.labs ≡ e.labs) × (d.lab_members ≡ e.lab_members)

pub delete_placements-Same : (ps : List Placement) (d : Db) → Same (delete_placements ps d) d
unfolding delete_placement
delete_placements-Same [] d = (refl, refl, refl)
delete_placements-Same (p ∷ ps) d = delete_placements-Same ps (delete_placement p.id d)

delete_lab-Enrolled : (id : ℕ) (d : Db) → Enrolled d → Enrolled (delete_lab id d)
unfolding delete_lab
delete_lab-Enrolled id d w =
    let (s, l, m) =
      delete_placements-Same (filter (λ (p : Placement). p.lab_id == id) d.placements.rows) d in
    rw (s, l, m)
      (record {
        students = w.students;
        uids = w.uids;
        labs = Distinct-filter same_name (λ l. not (l.id == id)) d.labs.rows w.labs;
        names =
            All-filter (λ l. is_valid_lab_name (codes l.name) ≡ true) (λ l. not (l.id == id))
              d.labs.rows w.names;
        heads = lab_heads d.lab_members.rows id d.labs.rows w.heads;
      })

insert_placement-Enrolled : (p : Placement) (d : Db) → Enrolled d → Enrolled (insert_placement p d)
unfolding insert_placement
insert_placement-Enrolled p d w =
    elim (Bool-cases (placement_refused (record p { id = d.placements.last_id + 1 }) d)) [
      | inl e ↦ rw e w
      | inr e ↦ rw e w
    ]

insert_member-Enrolled : (m : Member) (d : Db) → Enrolled d → Enrolled (insert_member m d)
unfolding insert_member
insert_member-Enrolled m d w =
    elim (Bool-cases (member_refused (record m { id = d.members.last_id + 1 }) d)) [
      | inl e ↦ rw e w
      | inr e ↦ rw e w
    ]

Enrolled-Closed : Closed Enrolled
unfolding insert_task insert_audit update_placement delete_placement update_member delete_member
Enrolled-Closed = record {
  task = λ node f job d h. h;
  log_audit = λ row d h. h;
  new_placement = insert_placement-Enrolled;
  placement = λ id f k d h. h;
  no_placement = λ id d h. h;
  new_member = insert_member-Enrolled;
  member = λ id f k d h. h;
  no_member = λ p s d h. h;
}

pub Enrolled-Enrolling : Enrolling Enrolled
unfolding insert_lab_member insert_row delete_lab_member is_pi_of delete_student heads_lab
Enrolled-Enrolling = record {
  placements = Enrolled-Closed;
  student = insert_student-Enrolled;
  seat = seated-Enrolled;
  join = λ lab student now d w. record {
    students = w.students;
    uids = w.uids;
    labs = w.labs;
    names = w.names;
    heads =
        Rostered-More d.lab_members.rows _ (append-More d.lab_members.rows _) d.labs.rows w.heads;
  };
  leave = λ lab student d e w. record {
    students = w.students;
    uids = w.uids;
    labs = w.labs;
    names = w.names;
    heads = leave_heads d.lab_members.rows lab student d.labs.rows e w.heads;
  };
  drop = λ id d e w. record {
    students = Distinct-filter student_clash (λ s. not (s.id == id)) d.students.rows w.students;
    uids =
        All-filter (λ s. is_uid s.linux_uid ≡ true) (λ s. not (s.id == id)) d.students.rows w.uids;
    labs = w.labs;
    names = w.names;
    heads = drop_heads d.lab_members.rows id d.labs.rows e w.heads;
  };
  lab = insert_lab-Enrolled;
  meta = update_lab-Enrolled;
  no_lab = delete_lab-Enrolled;
}
