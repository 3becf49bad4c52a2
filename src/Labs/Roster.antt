-- ===== src/Labs/Roster.antt =====
-- Rows of students and of memberships (controller/src/lib/students.ts, labs.ts), with the
-- constraints and cascades of controller/src/lib/db.ts.
use docker_mass_deployment.Base.{
  ℕ, ◌+◌, String, Bool, false, not, ◌&&◌, ◌||◌, Option, none, some, ◌==◌, leb, str_eq, any, filter,
  update_where, opt_is, opt_str_is, if◌then◌else◌,
}
use docker_mass_deployment.Store.Rows.{Student, Lab, LabMember, insert_row, with_rows}
use docker_mass_deployment.Store.World.{Db}

abbrev pub same_sid : Option String → Option String → Bool
same_sid none b = false
same_sid (some a) b = opt_str_is b a

-- The keys of `students`: its id, UNIQUE(student_id), UNIQUE(username) and UNIQUE(linux_uid).
abbrev pub student_clash : Student → Student → Bool
student_clash s t =
    s.id == t.id
    || same_sid s.student_id t.student_id
    || str_eq s.username t.username
    || s.linux_uid == t.linux_uid

-- The triggers on `linux_uid`.
abbrev pub is_uid : ℕ → Bool
is_uid n = leb 10000 n && leb n 59999

unfoldable pub student_refused : Student → Db → Bool
student_refused s d = any (student_clash s) d.students.rows || not (is_uid s.linux_uid)

-- `INSERT INTO students`: refused if it would break a constraint.
unfoldable pub insert_student : Student → Db → Db
unfolding student_refused
insert_student s d =
    let row = record s { id = d.students.last_id + 1 } in
    if student_refused row d
    then d
    else record d { students = insert_row (λ id. record s { id = id }) d.students }

-- `UPDATE students SET email = ?, name = ?, updated_at = ? WHERE id = ?`
abbrev pub contact : Option String → Option String → ℕ → Student → Student
contact email name now s = record s { email = email; name = name; updated_at = now }

unfoldable pub update_contact : ℕ → Option String → Option String → ℕ → Db → Db
update_contact id email name now d = record d {
  students = with_rows (update_where (λ s. s.id == id) (contact email name now)) d.students;
}

-- `UPDATE labs SET pi_student_id = ?, pi_name = ?, pi_email = ?, updated_at = ? WHERE id = ?`
abbrev pub headed : ℕ → Option String → Option String → ℕ → Lab → Lab
headed student name email now l = record l {
  pi_student_id = some student;
  pi_name = name;
  pi_email = email;
  updated_at = now;
}

unfoldable pub appoint : ℕ → ℕ → Option String → Option String → ℕ → Db → Db
appoint id student name email now d = record d {
  labs = with_rows (update_where (λ l. l.id == id) (headed student name email now)) d.labs;
}

-- Whether a lab has the student as its PI: such a student is not deleted (ON DELETE RESTRICT).
unfoldable pub heads_lab : ℕ → Db → Bool
heads_lab id d = any (λ (l : Lab). opt_is l.pi_student_id id) d.labs.rows

-- `DELETE FROM students WHERE id = ?`: memberships, placement members and alerts go with the row,
-- and samples lose their student.
unfoldable pub delete_student : ℕ → Db → Db
delete_student id d = record d {
  students = with_rows (filter (λ s. not (s.id == id))) d.students;
  lab_members = with_rows (filter (λ m. not (m.student_id == id))) d.lab_members;
  members = with_rows (filter (λ m. not (m.student_id == id))) d.members;
  student_quota_alerts = filter (λ a. not (a.student_id == id)) d.student_quota_alerts;
  storage_samples =
      update_where (λ s. opt_is s.student_id id) (λ s. record s { student_id = none })
        d.storage_samples;
}

abbrev pub joins : ℕ → ℕ → LabMember → Bool
joins lab student m = m.lab_id == lab && m.student_id == student

unfoldable pub is_lab_member : ℕ → ℕ → Db → Bool
is_lab_member lab student d = any (joins lab student) d.lab_members.rows

-- `INSERT INTO lab_members`, where the membership is not there yet.
unfoldable pub insert_lab_member : ℕ → ℕ → ℕ → Db → Db
insert_lab_member lab student now d = record d {
  lab_members =
      insert_row (λ id. record { id = id; lab_id = lab; student_id = student; created_at = now })
        d.lab_members;
}

unfoldable pub delete_lab_member : ℕ → ℕ → Db → Db
delete_lab_member lab student d = record d {
  lab_members = with_rows (filter (λ m. not (joins lab student m))) d.lab_members;
}
