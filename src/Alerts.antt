-- ===== src/Alerts.antt =====
-- controller/src/lib/alerts.ts: mails to every admin, throttled by a key.
pub mod Database
use docker_mass_deployment.Base.{
  ℕ, ◌+◌, ◌*◌, String, Bool, false, not, Option, none, some, List, [], ◌∷◌, ◌++◌, ◌⧺◌, ltb, str_eq,
  map, filter, or_else, if◌then◌else◌, ◌==◌,
}
use docker_mass_deployment.Base.Int.{ltb_ℤ, sub_ℕ, pos}
use docker_mass_deployment.Format.{decimal}
use docker_mass_deployment.Store.World.{World, KeyState, Mail, Action, ok}

-- `Map<string, V>`: `get` and `set`.
unfoldable pub get {ℓ} : {V : Type ℓ} → String → List (String × V) → Option V
get k [] = none
get k ((j, v) ∷ m) = if str_eq j k then some v else get k m

unfoldable pub put {ℓ} : {V : Type ℓ} → String → V → List (String × V) → List (String × V)
put k v [] = (k, v) ∷ []
put k v ((j, u) ∷ m) = if str_eq j k then (k, v) ∷ m else (j, u) ∷ put k v m

-- Not yet `window` milliseconds since the key's last mail; the clock may have gone back.
abbrev pub is_muted : ℕ → ℕ → KeyState → Bool
is_muted now window st = ltb_ℤ (sub_ℕ now st.last_sent) (pos window)

abbrev suppressed_note : ℕ → String
suppressed_note n =
    if n == 0 then "" else "\n\n(" ⧺ (decimal n ⧺ " similar suppressed since the last alert)")

abbrev alert_mail : String → String → String → Mail
alert_mail subject body to = record {
  to = to;
  template = "alert";
  values = ("subject", subject) ∷ ("body", body) ∷ [];
}

-- What `alertAdmins` does past its switch, by the key's entry.
unfoldable pub alert_with :
    {Q : Type 0} → Option KeyState → String → String → String → World Q → World Q
alert_with st key subject body w =
    let window = w.db.settings.alert_dedup_minutes * 60 * 1000 in
    let muted : Bool = elim st [ none ↦ false | some s ↦ is_muted w.now window s ] in
    let before : ℕ = elim st [ none ↦ 0 | some s ↦ s.suppressed ] in
    let last : ℕ = elim st [ none ↦ 0 | some s ↦ s.last_sent ] in
    if muted
    then record w {
      alert_state = put key (record { last_sent = last; suppressed = before + 1 }) w.alert_state;
    }
    else record w {
      alert_state = put key (record { last_sent = w.now; suppressed = 0 }) w.alert_state;
      mails =
          w.mails
          ++ map (alert_mail subject (body ⧺ suppressed_note before))
              (filter (λ e. not (str_eq e "")) (map (λ a. a.email) w.db.admins));
    }

unfoldable pub alert_admins : {Q : Type 0} → String → String → String → Action Q (Unit {0})
alert_admins key subject body w = (
  ok tt,
  if w.db.settings.alerts_enabled then alert_with (get key w.alert_state) key subject body w else w,
)

-- `LEVELS[level]`
abbrev pub level_of : String → Option ℕ
level_of s =
    if str_eq s "DEBUG"
    then some 10
    else if str_eq s "INFO"
    then some 20
    else if str_eq s "WARN"
    then some 30
    else if str_eq s "ERROR"
    then some 40
    else none

abbrev with_detail : String → Option String → String
with_detail msg none = msg
with_detail msg (some d) = if str_eq d "" then msg else msg ⧺ ("\n\n" ⧺ d)

abbrev spaced : Option String → String
spaced none = ""
spaced (some s) = if str_eq s "" then "" else " " ⧺ s

-- Below the threshold nothing is sent. An unknown level counts as 0, an unknown threshold as ERROR.
-- The subject of a log line without a source has no space at its end, as `trim` leaves it.
unfoldable pub maybe_alert_on_log :
    {Q : Type 0} → String → String → Option String → String → Option String → Action Q (Unit {0})
maybe_alert_on_log node level source msg detail w =
    if ltb (or_else (level_of level) 0) (or_else (level_of w.db.settings.alert_level) 40)
    then (ok tt, w)
    else alert_admins ("log:" ⧺ (node ⧺ (":" ⧺ (or_else source "-" ⧺ (":" ⧺ level)))))
        ("[" ⧺ (level ⧺ ("] " ⧺ (node ⧺ spaced source)))) (with_detail msg detail) w

abbrev display : String → Option String → String
display node none = node
display node (some label) =
    if str_eq label ""
    then node
    else if str_eq label node
    then node
    else label ⧺ (" (" ⧺ (node ⧺ ")"))

unfoldable pub alert_node_offline : {Q : Type 0} → String → Option String → Action Q (Unit {0})
alert_node_offline node label =
    alert_admins ("node-offline:" ⧺ node) ("Node offline: " ⧺ display node label) (
      "Node "
      ⧺ (display node label
          ⧺ " has been disconnected from the controller for longer than the grace window."))

unfoldable pub alert_task_failed : {Q : Type 0} → String → String → String → Action Q (Unit {0})
alert_task_failed node action error =
    alert_admins ("task-failed:" ⧺ (node ⧺ (":" ⧺ action)))
      ("Task failed on " ⧺ (node ⧺ (": " ⧺ action)))
      ("A " ⧺ (action ⧺ (" task failed on node " ⧺ (node ⧺ (".\n\n" ⧺ error)))))
