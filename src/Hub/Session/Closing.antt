-- ===== src/Hub/Session/Closing.antt =====
-- The close event of a socket in `controller/src/lib/hub.ts` (`deregisterNode`).
use docker_mass_deployment.Base.{
  ℕ, ◌==◌, String, ◌≡◌, refl, ◌∙◌, false, not, ◌&&◌, none, some, str_eq, filter, Bool-cases, inl,
  inr,
}
use docker_mass_deployment.Alerts.{alert_admins, alert_node_offline}
use docker_mass_deployment.Store.World.{World, Outcome, ok, err, running}
use docker_mass_deployment.Placements.Tables.{find_node_by_name}
use docker_mass_deployment.Hub.Session.{
  Hub, Socket, connection, drop_connection, cancel_offline_alert, fire_offline_alert, schedule,
  has_connection, is_offline, deregister_node, on_close,
}
use docker_mass_deployment.Hub.Session.Connections.{
  connection-drop_connection, connection-drop_connection_other, connection-cancel_offline_alert,
}

-- The run returned, and its hub answers for the connections as `h` does.
abbrev Same : {Q : Type 0} → Hub → Outcome Hub × World Q → Type 0
Same h (ok h', w) = (m : String) → connection m h' ≡ connection m h
Same h (err e, w) = ⊥

-- The run returned, the node has no connection any more, and the other nodes keep theirs.
abbrev pub Gone : {Q : Type 0} → String → Hub → Outcome Hub × World Q → Type 0
Gone node h (ok h', w) =
    (connection node h' ≡ none)
    × ((m : String) → str_eq m node ≡ false → connection m h' ≡ connection m h)
Gone node h (err e, w) = ⊥

module _ {Q : Type 0} where
  fire_offline_alert-Same :
      (node : String) (h : Hub) (w : World Q) → Same h (fire_offline_alert node h w)
  unfolding fire_offline_alert running alert_node_offline alert_admins cancel_offline_alert
      connection
  fire_offline_alert-Same node h w =
      elim (Bool-cases (not (has_connection node h) && is_offline (find_node_by_name node w.db))) [
        | inl e ↦ rw e (λ m. refl)
        | inr e ↦ rw e (λ m. refl)
      ]

  schedule-Same :
      (node : String) (grace now : ℕ) (h : Hub) (w : World Q) → Same h (schedule node grace now h w)
  unfolding running connection
  schedule-Same node grace now h w = elim (Bool-cases (grace == 0)) [
    | inl e ↦ rw e (fire_offline_alert-Same node h w)
    | inr e ↦ rw e (λ m. refl)
  ]

  gone :
      (node : String) (h h' : Hub) (r : Outcome Hub × World Q)
      → Same h' r
      → (connection node h' ≡ none)
      → ((m : String) → str_eq m node ≡ false → connection m h' ≡ connection m h)
      → Gone node h r
  gone node h h' (ok x, w) same n o = (same node ∙ n, λ m k. same m ∙ o m k)
  gone node h h' (err e, w) same n o = absurd same

  pub deregister_node-Gone :
      (node : String) (h : Hub) (w : World Q) → Gone node h (deregister_node node h w)
  unfolding deregister_node running
  deregister_node-Gone node h w =
      gone node h (cancel_offline_alert node (drop_connection node h)) _
        (schedule-Same node _ _ (cancel_offline_alert node (drop_connection node h)) _)
        (connection-cancel_offline_alert node node _ ∙ connection-drop_connection node h)
        (λ m k.
          connection-cancel_offline_alert m node _ ∙ connection-drop_connection_other m node h k)

-- When a socket that speaks for a node closes, the node has no connection afterwards, even if a
-- socket that is still open had taken the node over in the meantime; every other node keeps its
-- connection.
pub on_close-Gone :
    {Q : Type 0} (s : Socket) (node : String) (h : Hub) (w : World Q)
    → s.node ≡ some node
    → Gone node h (on_close s h w)
unfolding on_close running connection
on_close-Gone s node h w e = rw e (
    deregister_node-Gone node
      (record h { open_sockets = filter (λ t. not (t == s.id)) h.open_sockets }) w)
