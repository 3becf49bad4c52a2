-- ===== src/Labs.antt =====
-- controller/src/lib/labs.ts: logical labs, their PI metadata and their end.
pub mod Roster
use docker_mass_deployment.Base.{
  ℕ, ◌+◌, String, Bool, true, false, not, ◌&&◌, ◌||◌, Option, none, some, List, [], ◌∷◌, ◌++◌, ◌==◌,
  ◌⧺◌, leb, ltb, str_eq, codes, length, all, any, filter, find?, map, update_where, is_alnum,
  filled_text, opt_is, if◌then◌else◌, is_some,
}
use docker_mass_deployment.Format.{decimal}
use docker_mass_deployment.Outside.{Outside}
use docker_mass_deployment.Store.Rows.{
  Lab, LabMember, Placement, Backend, local_zfs, smb, insert_row, with_rows,
}
use docker_mass_deployment.Store.World.{
  Db, Action, pure, gets, or_throw, modify, clock, throw_if, ◌>>=◌, ◌>>◌,
}
use docker_mass_deployment.Placements.Change.{is_smb}
use docker_mass_deployment.Placements.Tables.{
  Placed, find_lab, list_placements, delete_placements, audit,
}
use docker_mass_deployment.Placements.Teardown.{destroy_placement, force_delete_placement}
use docker_mass_deployment.Labs.Roster.{delete_student, heads_lab}

abbrev is_name_char : ℕ → Bool
is_name_char c = is_alnum c || c == b'_' || c == b'-'

-- `LAB_NAME_RE`, /^[a-zA-Z0-9][a-zA-Z0-9_-]{0,39}$/
unfoldable pub is_valid_lab_name : List ℕ → Bool
is_valid_lab_name [] = false
is_valid_lab_name (c ∷ s) = is_alnum c && leb (length s) 39 && all is_name_char s

unfoldable pub get_lab_by_name : String → Db → Option Lab
get_lab_by_name name d = find? (λ l. str_eq l.name name) d.labs.rows

pub record CreateLabInput : Type 0 where
  pub name : String
  pub pi_name : Option String
  pub pi_email : Option String
  pub actor : Option String

abbrev pub new_lab : CreateLabInput → ℕ → Lab
new_lab input now = record {
  id = 0;
  name = input.name;
  pi_name = input.pi_name;
  pi_email = input.pi_email;
  pi_student_id = none;
  created_at = now;
  updated_at = now;
}

unfoldable pub insert_lab : Lab → Db → Db
insert_lab l d = record d { labs = insert_row (λ id. record l { id = id }) d.labs }

-- `UPDATE labs SET ... WHERE id = ?`
unfoldable pub update_lab : ℕ → (Lab → Lab) → Db → Db
update_lab id f d = record d { labs = with_rows (update_where (λ l. l.id == id) f) d.labs }

-- `none` is undefined, `some none` null.
pub record UpdateLabMetaInput : Type 0 where
  pub pi_name : Option (Option String)
  pub pi_email : Option (Option String)

abbrev pub set_pi_name : Option (Option String) → Lab → Lab
set_pi_name none l = l
set_pi_name (some name) l = record l { pi_name = filled_text name }

abbrev pub set_pi_email : Option (Option String) → Lab → Lab
set_pi_email none l = l
set_pi_email (some email) l = record l { pi_email = filled_text email }

abbrev pub touch_lab : ℕ → Lab → Lab
touch_lab now l = record l { updated_at = now }

-- `DELETE FROM labs WHERE id = ?`: its placements, members, samples and quota alerts go with it.
unfoldable pub delete_lab : ℕ → Db → Db
delete_lab id d =
    let d' = delete_placements (filter (λ (p : Placement). p.lab_id == id) d.placements.rows) d in
    record d' {
      labs = with_rows (filter (λ l. not (l.id == id))) d'.labs;
      lab_members = with_rows (filter (λ m. not (m.lab_id == id))) d'.lab_members;
      storage_samples = filter (λ s. not (s.lab_id == id)) d'.storage_samples;
      quota_alerts = filter (λ a. not (a.lab_id == id)) d'.quota_alerts;
    }

-- The sort puts SMB clients before the nodes with their own pool, and is stable.
abbrev pub clients_first : List Placed → List Placed
clients_first ps =
    filter (λ p. is_smb p.node.cold_backend) ps ++ filter (λ p. not (is_smb p.node.cold_backend)) ps

pub record DestroyLabResult : Type 0 where
  pub deleted : Bool
  pub teardown_started : ℕ

abbrev pub removed_note : ℕ → Option String
removed_note n = if n == 0 then none else some (decimal n ⧺ " students removed")

abbrev pub still_member : ℕ → Db → Bool
still_member id d = any (λ (m : LabMember). m.student_id == id) d.lab_members.rows

module _ {Q : Type 0} where
  -- What follows the insertion.
  unfoldable pub created_lab : CreateLabInput → Action Q Lab
  created_lab input = do
    audit input.actor "lab.create" (some input.name) none
    row ← gets (λ d. find_lab d.labs.last_id d)
    or_throw row "Cannot read properties of undefined"

  unfoldable pub create_lab : CreateLabInput → Action Q Lab
  create_lab input = do
    throw_if (not (is_valid_lab_name (codes input.name)))
        "Invalid lab name (use letters, digits, hyphen or underscore; max 40 chars)"
    same ← gets (get_lab_by_name input.name)
    throw_if (is_some same) ("A lab named '" ⧺ (input.name ⧺ "' already exists"))
    now ← clock
    modify (insert_lab (new_lab input now))
    created_lab input

  unfoldable pub update_lab_meta : ℕ → UpdateLabMetaInput → Option String → Action Q (Unit {0})
  update_lab_meta id input actor = do
    found ← gets (find_lab id)
    lab ← or_throw found "Unknown lab"
    modify (update_lab id (set_pi_name input.pi_name))
    modify (update_lab id (set_pi_email input.pi_email))
    now ← clock
    modify (update_lab id (touch_lab now))
    audit actor "lab.update_meta" (some lab.name) none

  abbrev drop_student : Bool → ℕ → Action Q ℕ
  drop_student true id = pure 0
  drop_student false id = do
    heads ← gets (heads_lab id)
    throw_if heads "FOREIGN KEY constraint failed"
    modify (delete_student id)
    pure 1

  -- A student who is in no lab any more is dropped.
  unfoldable pub drop_orphan : ℕ → Action Q ℕ
  drop_orphan id = do still ← gets (still_member id); drop_student still id

  unfoldable pub drop_orphans : List ℕ → ℕ → Action Q ℕ
  drop_orphans [] n = pure n
  drop_orphans (id ∷ ids) n = drop_orphan id >>= λ k. drop_orphans ids (n + k)

  unfoldable pub remove_lab : Lab → Option String → Action Q DestroyLabResult
  remove_lab lab actor = do
    ids ← gets (λ d.
        map (λ (m : LabMember). m.student_id) (filter (λ m. m.lab_id == lab.id) d.lab_members.rows))
    modify (delete_lab lab.id)
    n ← drop_orphans ids 0
    audit actor "lab.delete" (some lab.name) (removed_note n)
    pure (record { deleted = true; teardown_started = 0 })

module _ {Q : Type 0} (out : Outside Q) where
  -- How many teardowns it started: a forced one on an offline node is over at once.
  unfoldable pub tear_down_one : Bool → Option String → Placed → Action Q ℕ
  tear_down_one force actor p =
      if force && not p.node.online
      then force_delete_placement out p.row.id actor >> pure 0
      else (destroy_placement out p.row.id actor >> pure 1)

  unfoldable pub tear_down_all : Bool → Option String → List Placed → ℕ → Action Q ℕ
  tear_down_all force actor [] n = pure n
  tear_down_all force actor (p ∷ ps) n =
      tear_down_one force actor p >>= λ k. tear_down_all force actor ps (n + k)

  abbrev pub finish_lab : Lab → Option String → ℕ → Action Q DestroyLabResult
  finish_lab lab actor n =
      if ltb 0 n
      then pure (record { deleted = false; teardown_started = n })
      else remove_lab lab actor

  abbrev pub destroy_found : Bool → Option String → Option Lab → Action Q DestroyLabResult
  destroy_found force actor none = pure (record { deleted = false; teardown_started = 0 })
  destroy_found force actor (some lab) = do
    placements ← gets (list_placements lab.id)
    n ← tear_down_all force actor (clients_first placements) 0
    finish_lab lab actor n

  unfoldable pub destroy_lab : ℕ → Option String → Bool → Action Q DestroyLabResult
  destroy_lab id actor force = do found ← gets (find_lab id); destroy_found force actor found
