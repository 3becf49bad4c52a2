-- ===== src/Students.antt =====
-- controller/src/lib/students.ts: student accounts and the rosters of labs.
use docker_mass_deployment.Base.{
  ℕ, ◌+◌, String, Bool, true, false, not, ◌&&◌, Option, none, some, List, [], ◌∷◌, ◌++◌, ◌==◌, ◌⧺◌,
  str_eq, any, filter, find?, map, opt_is, opt_str_is, filled_text, lower_text, trim_text, trim_opt,
  if◌then◌else◌,
}
use docker_mass_deployment.Email.{normalize_email}
use docker_mass_deployment.Outside.{Outside}
use docker_mass_deployment.Store.Rows.{Student, Lab}
use docker_mass_deployment.Store.World.{
  Db, Mail, Action, pure, gets, or_throw, modify, clock, draw, throw_if, send_mail, when, for_each,
  ◌>>=◌, ◌>>◌,
}
use docker_mass_deployment.Placements.Tables.{
  Placed, find_lab, find_student, list_placements, audit,
}
use docker_mass_deployment.Placements.Ports.{first_free}
use docker_mass_deployment.Placements.Create.{roster}
use docker_mass_deployment.Placements.Change.{is_smb}
use docker_mass_deployment.Placements.Members.{
  provision_member_on_placement, remove_member_from_placement,
}
use docker_mass_deployment.Labs.Roster.{
  student_refused, insert_student, update_contact, is_lab_member, insert_lab_member,
  delete_lab_member, appoint,
}

pub record StudentInput : Type 0 where
  pub username : String
  pub email : Option String
  pub name : Option String
  pub student_id : Option String

-- The user name as it is stored.
abbrev pub login : StudentInput → String
login input = lower_text (trim_text input.username)

abbrev with_sid : Option String → Db → Option Student
with_sid none d = none
with_sid (some sid) d = find? (λ s. opt_str_is s.student_id sid) d.students.rows

-- `SELECT * FROM students WHERE username = ?`
unfoldable pub student_named : String → Db → Option Student
student_named name d = find? (λ s. str_eq s.username name) d.students.rows

abbrev or_named : Option Student → String → Db → Option Student
or_named (some s) name d = some s
or_named none name d = student_named name d

-- By a student id that is not empty, then by user name.
unfoldable pub existing_student : StudentInput → Db → Option Student
existing_student input d = or_named (with_sid (filled_text input.student_id) d) (login input) d

-- The least UID from 10000 to 59999 that no student has.
unfoldable pub free_uid : Db → Option ℕ
free_uid d = first_free (map (λ (s : Student). s.linux_uid) d.students.rows) 50000 10000

abbrev pub new_student : StudentInput → ℕ → ℕ → Student
new_student input uid now = record {
  id = 0;
  student_id = input.student_id;
  username = login input;
  email = normalize_email input.email;
  name = input.name;
  linux_uid = uid;
  created_at = now;
  updated_at = now;
}

-- A PI who is there and is another student than this one.
abbrev pub other_pi : ℕ → Option ℕ → Bool
other_pi id none = false
other_pi id (some pi) = not (pi == 0) && not (pi == id)

pub record AddMemberResult : Type 0 where
  pub student : Student
  pub provisioned : List String

pub record CopyMembersResult : Type 0 where
  pub added : ℕ
  pub skipped : ℕ

abbrev pushed : Option String → List String → List String
pushed none ns = ns
pushed (some n) ns = ns ++ n ∷ []

-- The protected account of a lab.
unfoldable pub is_pi_of : ℕ → ℕ → Db → Bool
is_pi_of lab student d =
    any (λ (l : Lab). l.id == lab && opt_is l.pi_student_id student) d.labs.rows

-- `lab_members JOIN students` for one member.
unfoldable pub lab_member : ℕ → ℕ → Db → Option Student
lab_member lab student d = if is_lab_member lab student d then find_student student d else none

-- The nodes whose cold storage is their own.
unfoldable pub cold_cleanup_nodes : List Placed → List String
cold_cleanup_nodes ps =
    map (λ (p : Placed). p.node.name) (filter (λ p. not (is_smb p.node.cold_backend)) ps)

abbrev deleted_note : Bool → Option String
deleted_note true = some "data deleted"
deleted_note false = none

unfoldable pub removal_mail : String → String → Bool → Mail
removal_mail to lab data_deleted = record {
  to = to;
  template = "removal";
  values =
      ("lab", lab)
      ∷ (
        "data_status",
        if data_deleted
            then "Your home and cold-storage data in this lab has been deleted."
            else "Your data has been retained for now; contact an admin if you need it.",
      )
      ∷ [];
}

module _ {Q : Type 0} where
  -- The transaction that makes a record.
  unfoldable pub add_student : StudentInput → Action Q Student
  add_student input = do
    free ← gets free_uid
    uid ← or_throw free "student UID range 10000..59999 is exhausted"
    now ← clock
    refused ← gets (λ d.
        student_refused (record (new_student input uid now) { id = d.students.last_id + 1 }) d)
    throw_if refused "UNIQUE constraint failed"
    modify (insert_student (new_student input uid now))
    row ← gets (λ d. find_student d.students.last_id d)
    or_throw row "Cannot read properties of undefined"

  unfoldable pub found_or_added : StudentInput → Option Student → Action Q Student
  found_or_added input none = add_student input
  found_or_added input (some s) = pure s

  unfoldable pub find_or_create_student : StudentInput → Action Q Student
  find_or_create_student input = do
    found ← gets (existing_student input)
    found_or_added input found

  unfoldable pub enroll : ℕ → ℕ → Action Q (Unit {0})
  enroll lab student = do now ← clock; modify (insert_lab_member lab student now)

  -- The PI's contact details, the lab's PI and the membership.
  unfoldable pub appoint_pi : ℕ → ℕ → Option String → Option String → Action Q (Unit {0})
  appoint_pi lab student name email = do
    now ← clock
    modify (update_contact student email name now)
    modify (appoint lab student name email now)
    member ← gets (is_lab_member lab student)
    when (not member) (enroll lab student)

  abbrev pub mail_removal : Option String → String → Bool → Action Q (Unit {0})
  mail_removal none lab data_deleted = pure tt
  mail_removal (some to) lab data_deleted = send_mail (removal_mail to lab data_deleted)

module _ {Q : Type 0} (out : Outside Q) where
  -- The names of the nodes on which the student is new, after those of `done`.
  unfoldable pub provision_on :
      Student → Option String → List Placed → List String → Action Q (List String)
  provision_on s actor [] done = pure done
  provision_on s actor (p ∷ ps) done = provision_member_on_placement out p s actor >>= λ res.
      provision_on s actor ps (pushed res done)

  unfoldable pub provision_everywhere : ℕ → Student → Option String → Action Q AddMemberResult
  provision_everywhere lab s actor = do
    placements ← gets (list_placements lab)
    provisioned ← provision_on s actor placements []
    pure (record { student = s; provisioned = provisioned })

  unfoldable pub ensure_pi_access : ℕ → StudentInput → Option String → Action Q AddMemberResult
  ensure_pi_access id input actor = do
    found ← gets (find_lab id)
    lab ← or_throw found "Unknown lab"
    throw_if (str_eq (trim_text input.username) "")
        "PI username is required to grant placement access"
    s ← find_or_create_student input
    found' ← gets (find_lab id)
    current ← or_throw found' "Cannot read properties of undefined"
    throw_if (other_pi s.id current.pi_student_id)
        "The PI login username cannot be changed after it has been provisioned"
    appoint_pi id s.id (trim_opt input.name) (normalize_email input.email)
    audit actor "pi.access.ensure" (some (lab.name ⧺ ("/" ⧺ s.username))) none
    provision_everywhere id s actor

  unfoldable pub add_student_to_lab : ℕ → StudentInput → Option String → Action Q AddMemberResult
  add_student_to_lab id input actor = do
    found ← gets (find_lab id)
    lab ← or_throw found "Unknown lab"
    s ← find_or_create_student input
    already ← gets (is_lab_member id s.id)
    throw_if already (s.username ⧺ (" is already a member of " ⧺ lab.name))
    enroll id s.id
    audit actor "member.add" (some (lab.name ⧺ ("/" ⧺ s.username))) none
    provision_everywhere id s actor

  abbrev input_of : Student → StudentInput
  input_of s = record {
    username = s.username;
    email = s.email;
    name = s.name;
    student_id = s.student_id;
  }

  abbrev pub copy_one :
      Bool → ℕ → Student → Option String → CopyMembersResult → Action Q CopyMembersResult
  copy_one true to s actor n = pure (record n { skipped = n.skipped + 1 })
  copy_one false to s actor n = do
    add_student_to_lab to (input_of s) actor
    pure (record n { added = n.added + 1 })

  unfoldable pub copy_all :
      ℕ → Option String → List Student → CopyMembersResult → Action Q CopyMembersResult
  copy_all to actor [] n = pure n
  copy_all to actor (s ∷ ss) n = gets (is_lab_member to s.id) >>= λ already.
      copy_one already to s actor n >>= λ n'. copy_all to actor ss n'

  unfoldable pub copy_members : ℕ → ℕ → Option String → Action Q CopyMembersResult
  copy_members source to actor = do
    students ← gets (roster source)
    copy_all to actor students (record { added = 0; skipped = 0 })

  -- A removal that deletes data has an id, if there is a placement to delete it from.
  abbrev pub removal_of : Bool → List Placed → Action Q (Option (String × List String))
  removal_of false ps = pure none
  removal_of true [] = pure none
  removal_of true (p ∷ ps) = do
    n ← draw
    pure (some (out.random_uuid n, cold_cleanup_nodes (p ∷ ps)))

  -- `removeStudentFromLab` after its checks.
  unfoldable pub remove_found :
      ℕ → String → ℕ → Student → Bool → Option String → Action Q (Unit {0})
  remove_found lab name student member delete_data actor = do
    placements ← gets (list_placements lab)
    removal ← removal_of delete_data placements
    for_each placements (λ p.
        remove_member_from_placement out p (student, member.username) delete_data actor removal)
    modify (delete_lab_member lab student)
    audit actor "member.remove" (some (name ⧺ ("/" ⧺ member.username))) (deleted_note delete_data)
    mail_removal (filled_text member.email) name delete_data

  unfoldable pub remove_student_from_lab : ℕ → ℕ → Bool → Option String → Action Q (Unit {0})
  remove_student_from_lab id student delete_data actor = do
    found ← gets (find_lab id)
    lab ← or_throw found "Unknown lab"
    protected ← gets (is_pi_of id student)
    throw_if protected "The PI account is protected and cannot be removed from the lab"
    found' ← gets (lab_member id student)
    member ← or_throw found' "Student is not a member of this lab"
    remove_found id lab.name student member delete_data actor
