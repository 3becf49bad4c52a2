-- ===== src/Placements/Credentials.antt =====
-- Credentials and completion mail of controller/src/lib/placements.ts. A delivery waits for the
-- mail server, so it is two actions: what runs before the wait, and what runs after it.
pub mod Once
use docker_mass_deployment.Base.{
  ℕ, String, Bool, true, false, not, ◌&&◌, ◌||◌, Option, none, some, List, [], ◌∷◌, ◌⧺◌, ◌==◌,
  str_eq, map, any, all, find?, or_else, is_some, if◌then◌else◌,
}
use docker_mass_deployment.Base.Int.{ℤ, pos, negsuc}
use docker_mass_deployment.Format.{fmt_bytes, decimal}
use docker_mass_deployment.Outside.{Outside}
use docker_mass_deployment.Secrets.{decrypt_secret}
use docker_mass_deployment.Store.Rows.{
  Placement, PlacementState, Member, MemberState, Student, Lab, Node,
}
use docker_mass_deployment.Store.World.{
  Db, Mail, Action, pure, throw, gets, or_throw, modify, clock, send_mail, throw_if, ◌>>=◌, ◌>>◌,
}
use docker_mass_deployment.Placements.Tables.{
  Placed, get_placement, get_placement_by_lab_node, find_student, update_placement, update_member,
  audit,
}
use docker_mass_deployment.Placements.Members.{members_of}
use docker_mass_deployment.Placements.Create.{is_active}
use docker_mass_deployment.Placements.Teardown.{find_member}

abbrev pub is_active_member : MemberState → Bool
is_active_member MemberState.active = true
is_active_member _ = false

-- `pendingCredential`: the member with its placement and its student.
pub record Pending : Type 0 where
  pub member : Member
  pub placed : Placed
  pub student : Student

abbrev pending_of : Option Member → Option Placed → Option Student → Option Pending
pending_of (some m) (some p) (some s) = some (record { member = m; placed = p; student = s })
pending_of _ _ _ = none

abbrev student_of : Option Member → Db → Option Student
student_of none d = none
student_of (some m) d = find? (λ s. s.id == m.student_id) d.students.rows

unfoldable pub pending_credential : String → String → String → Db → Option Pending
unfolding find_member get_placement_by_lab_node
pending_credential lab node username d =
    let m = find_member lab node username d in
    pending_of m (get_placement_by_lab_node lab node d) (student_of m d)

-- `alias?.trim() || fallback`, for aliases that `setNodeAlias` has trimmed.
abbrev alias_or : Option String → String → String
alias_or none fallback = fallback
alias_or (some a) fallback = if str_eq a "" then fallback else a

-- A value that is left out of the mail when it is undefined.
abbrev if_given : String → Option String → List (String × String) → List (String × String)
if_given key none rest = rest
if_given key (some v) rest = (key, v) ∷ rest

abbrev pub credential_mail : Pending → String → String → Mail
credential_mail p email password = record {
  to = email;
  template = "credential";
  values = if_given "name" p.student.name (
      ("username", p.student.username)
      ∷ ("password", password)
      ∷ ("host", p.placed.node.name)
      ∷ ("port", decimal p.placed.row.ssh_port)
      ∷ ("lab", p.placed.lab.name)
      ∷ ("node", alias_or p.placed.node.alias p.placed.node.name)
      ∷ ("hostAlias", alias_or p.placed.node.alias "")
      ∷ if_given "studentId" p.student.student_id []);
}

-- A mail that is on its way, and the member whose credential it carries.
pub record Delivery : Type 0 where
  pub member_id : ℕ
  pub mail : Mail

abbrev pub burnt : ℕ → Member → Member
burnt now m = record m { credential_secret = none; credential_delivered_at = some now }

-- A text that counts as true in a condition.
abbrev truthy : Option String → Option String
truthy none = none
truthy (some s) = if str_eq s "" then none else some s

abbrev delivery_to : Pending → Option String → String → Option Delivery
delivery_to p none password = none
delivery_to p (some email) password =
    if str_eq password ""
    then none
    else some (record { member_id = p.member.id; mail = credential_mail p email password })

abbrev quota_text : String → Option ℕ → String
quota_text unset none = unset
quota_text unset (some q) = fmt_bytes (some q)

abbrev completion_mail_to : Placed → String → String → List String → Mail
completion_mail_to p email name usernames = record {
  to = email;
  template = "placement-complete";
  values =
      ("name", name)
      ∷ ("lab", p.lab.name)
      ∷ ("node", alias_or p.node.alias p.node.name)
      ∷ ("fastQuota", fmt_bytes (some p.row.fast_quota_bytes))
      ∷ ("coldQuota", quota_text "managed by the cold-storage owner" p.row.cold_quota_bytes)
      ∷ ("studentFastQuota", quota_text "shared placement quota" p.row.student_fast_quota_bytes)
      ∷ ("studentColdQuota", quota_text "shared or owner-managed" p.row.student_cold_quota_bytes)
      ∷ map (λ u. ("username", u)) usernames;
}

abbrev pi_of : Option ℕ → Db → Option Student
pi_of none d = none
pi_of (some id) d = find? (λ s. s.id == id) d.students.rows

-- A placement whose completion the PI has not been told of, with the PI's address and name.
abbrev pi_contact : Placed → Option String → Option Student → Option (Placed × String × String)
pi_contact p (some email) (some pi) = some (p, email, or_else (truthy p.lab.pi_name) pi.username)
pi_contact _ _ _ = none

abbrev untold : Db → Placed → Option (Placed × String × String)
untold d p =
    if is_active p.row.state && not (is_some p.row.completion_email_sent_at)
    then pi_contact p (truthy p.lab.pi_email) (pi_of p.lab.pi_student_id d)
    else none

abbrev untold_of : Db → Option Placed → Option (Placed × String × String)
untold_of d none = none
untold_of d (some p) = untold d p

unfoldable pub completion_due : String → String → Db → Option (Placed × String × String)
unfolding get_placement_by_lab_node
completion_due lab node d = untold_of d (get_placement_by_lab_node lab node d)

abbrev pub all_active : List (Member × Student) → Bool
all_active ms = any (λ m. true) ms && all (λ m. is_active_member m.0.state) ms

abbrev pub claimed : Placement → Placement
claimed p = record p { completion_email_sent_at = some (negsuc 0) }

-- The row of `WHERE placement_id = ? AND student_id = ?`.
abbrev pub member_row : ℕ → ℕ → Db → Option Member
member_row placement student d =
    find? (λ m. m.placement_id == placement && m.student_id == student) d.members.rows

-- The member's row with its placement and its student, if the member is active.
abbrev pub revealable : Option Pending → Option Pending
revealable none = none
revealable (some p) = if is_active_member p.member.state then some p else none

unfoldable pub reveal_row : ℕ → ℕ → Db → Option Pending
unfolding get_placement find_student
reveal_row placement student d =
    pending_of (member_row placement student d) (get_placement placement d) (find_student student d)

abbrev sent_at : Bool → ℕ → Option ℤ
sent_at true now = some (pos now)
sent_at false now = none

module _ {Q : Type 0} (out : Outside Q) where
  abbrev pub delivery_of : Option Pending → Option Delivery
  delivery_of none = none
  delivery_of (some p) = elim (truthy p.member.credential_secret) [
    | none ↦ none
    | some secret ↦
        if is_active_member p.member.state
        then delivery_to p (truthy p.student.email) (decrypt_secret out secret)
        else none
  ]

  abbrev pub sent_delivery : Option Delivery → Action Q (Option Delivery)
  sent_delivery none = pure none
  sent_delivery (some x) = do send_mail x.mail; pure (some x)

  -- `deliverPlacementCredential` up to the wait: the mail is handed over.
  unfoldable pub start_delivery : String → String → String → Action Q (Option Delivery)
  start_delivery lab node username = do
    pending ← gets (pending_credential lab node username)
    sent_delivery (delivery_of pending)

  -- What runs when the mail server has answered: a sent credential is burnt.
  unfoldable pub finish_delivery : Delivery → Bool → Action Q Bool
  finish_delivery x sent = do
    now ← clock
    modify (if sent then update_member x.member_id (burnt now) else λ d. d)
    pure sent

  abbrev pub complete_to : Placed → String → String → List String → Action Q (Option ℕ)
  complete_to p email name usernames = do
    modify (update_placement p.row.id claimed)
    send_mail (completion_mail_to p email name usernames)
    pure (some p.row.id)

  abbrev pub complete_if : Bool → Placed → String → String → List String → Action Q (Option ℕ)
  complete_if true p email name usernames = complete_to p email name usernames
  complete_if false p email name usernames = pure none

  abbrev pub completion_for : Option (Placed × String × String) → Action Q (Option ℕ)
  completion_for none = pure none
  completion_for (some (p, email, name)) = do
    members ← gets (members_of p.row.id)
    complete_if (all_active members) p email name (map (λ m. m.1.username) members)

  -- `maybeDeliverPlacementCompletion` up to the wait; the claim is written before it.
  unfoldable pub start_completion : String → String → Action Q (Option ℕ)
  start_completion lab node = do due ← gets (completion_due lab node); completion_for due

  unfoldable pub finish_completion : ℕ → Bool → Action Q Bool
  finish_completion id sent = do
    now ← clock
    modify (update_placement id (λ p. record p { completion_email_sent_at = sent_at sent now }))
    pure sent

  abbrev report : Pending → Option String → String → Action Q (String × String)
  report p actor password = do
    audit actor "placement.credential_reveal"
        (some (p.placed.lab.name ⧺ ("/" ⧺ (p.student.username ⧺ ("@" ⧺ p.placed.node.name))))) none
    pure (p.student.username, password)

  abbrev disclose : Pending → Option String → String → Action Q (String × String)
  disclose p actor password = do
    throw_if (str_eq password "") "Credential could not be decrypted"
    now ← clock
    modify (update_member p.member.id (burnt now))
    report p actor password

  abbrev reveal : Pending → Option String → Action Q (String × String)
  reveal p actor = do
    secret ←
        or_throw (truthy p.member.credential_secret) "Credential was already delivered or revealed"
    disclose p actor (decrypt_secret out secret)

  -- `consumePlacementCredential`, the one-time reveal.
  unfoldable pub consume_placement_credential : ℕ → ℕ → Option String → Action Q (String × String)
  consume_placement_credential placement student actor = do
    row ← gets (λ d. revealable (reveal_row placement student d))
    p ← or_throw row "Credentials are available only after provisioning succeeds"
    reveal p actor
