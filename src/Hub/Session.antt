-- ===== src/Hub/Session.antt =====
-- Sockets, hello frames and connections in controller/src/lib/hub.ts. A socket is a number; the
-- bucket of its message rate is counted in twentieths of a token, of which one accrues each
-- millisecond (50 messages a second).
pub mod Connections
pub mod Identity
pub mod Closing
use docker_mass_deployment.Base.{
  ℕ, ◌+◌, ◌*◌, String, Bool, true, false, not, ◌&&◌, ◌||◌, Option, none, some, List, [], ◌∷◌, ◌++◌,
  ◌==◌, str_eq, any, filter, find?, update_where, mem_nat, or_else, if◌then◌else◌,
}
use docker_mass_deployment.Base.Int.{ℤ, pos, ◌+ℤ◌, ◌-ℤ◌, min_ℤ, ltb_ℤ, sub_ℕ}
use docker_mass_deployment.Json.{Json, obj, end}
use docker_mass_deployment.Alerts.{alert_node_offline}
use docker_mass_deployment.Nodes.{
  NodeAuth, accepted, rejected, verify_node_auth, upsert_node, update_node, bare_node,
}
use docker_mass_deployment.Outside.{Outside}
use docker_mass_deployment.Protocol.{Hello, InboundFrame, hello, is_protocol_compatible}
use docker_mass_deployment.Store.Rows.{Node}
use docker_mass_deployment.Store.World.{Db, Action, pure, gets, modify, clock, when, ◌>>=◌, ◌>>◌}
use docker_mass_deployment.Placements.Tables.{find_node_by_name}
use docker_mass_deployment.Hub.Ingest.{ingest_frame}

-- `NodeConn`
pub record Conn : Type 0 where
  pub socket : ℕ
  pub node : String
  pub token_hash : String
  pub is_alive : Bool

-- What the handlers of one socket close over.
pub record Socket : Type 0 where
  pub id : ℕ
  pub node : Option String
  pub tokens : ℤ
  pub last_refill : ℕ

-- `connections` and `pendingOfflineAlerts` (with the time they fire at), the sockets whose
-- `readyState` is OPEN, and the codes that sockets were closed with.
pub record Hub : Type 0 where
  pub connections : List Conn
  pub pending_offline_alerts : List (String × ℕ)
  pub open_sockets : List ℕ
  pub closed : List (ℕ × ℕ)

unfoldable pub is_open : ℕ → Hub → Bool
is_open s h = mem_nat s h.open_sockets

-- `ws.close(code)`: the socket is open no longer; its 'close' event comes later.
unfoldable pub close : ℕ → ℕ → Hub → Hub
close s code h = record h {
  open_sockets = filter (λ t. not (t == s)) h.open_sockets;
  closed = h.closed ++ (s, code) ∷ [];
}

unfoldable pub connection : String → Hub → Option Conn
connection node h = find? (λ c. str_eq c.node node) h.connections

abbrev pub without : String → List Conn → List Conn
without node cs = filter (λ c. not (str_eq c.node node)) cs

unfoldable pub cancel_offline_alert : String → Hub → Hub
cancel_offline_alert node h = record h {
  pending_offline_alerts = filter (λ a. not (str_eq a.0 node)) h.pending_offline_alerts;
}

unfoldable pub set_connection : Conn → Hub → Hub
set_connection c h = record h { connections = without c.node h.connections ++ c ∷ [] }

unfoldable pub drop_connection : String → Hub → Hub
drop_connection node h = record h { connections = without node h.connections }

abbrev pub seen : Json → ℕ → Node → Node
seen caps now n = record n { last_seen = some now; online = true; capabilities = some caps }

abbrev gone : ℕ → Node → Node
gone now n = record n { online = false; last_seen = some now }

abbrev is_live : Hub → Option Conn → Bool
is_live h none = false
is_live h (some c) = is_open c.socket h

-- A dead or closing socket of the node is closed when it is superseded.
abbrev supersede : Option Conn → Hub → Hub
supersede none h = h
supersede (some c) h = close c.socket 1005 h

abbrev has_connection : String → Hub → Bool
has_connection node h = any (λ (c : Conn). str_eq c.node node) h.connections

abbrev label_of : Option Node → Option String
label_of none = none
label_of (some n) = n.alias

abbrev is_offline : Option Node → Bool
is_offline none = false
is_offline (some n) = not n.online

-- Twentieths of a token after a refill; a burst is 100 tokens.
unfoldable pub refilled : Socket → ℕ → ℤ
refilled s now = min_ℤ (pos 2000) (s.tokens +ℤ sub_ℕ now s.last_refill)

module _ {Q : Type 0} where
  -- `registerNode`, the database part.
  unfoldable pub register_node : String → Json → Action Q (Unit {0})
  register_node node caps = do
    now ← clock
    modify (upsert_node (seen caps now (bare_node node now)) (seen caps now))

  -- `fire`: an alert, unless the node is back or gone.
  unfoldable pub fire_offline_alert : String → Hub → Action Q Hub
  fire_offline_alert node h = do
    row ← gets (find_node_by_name node)
    when (not (has_connection node h) && is_offline row) (alert_node_offline node (label_of row))
    pure (cancel_offline_alert node h)

  abbrev schedule : String → ℕ → ℕ → Hub → Action Q Hub
  schedule node grace now h =
      if grace == 0
      then fire_offline_alert node h
      else pure (record h {
        pending_offline_alerts = h.pending_offline_alerts ++ (node, now + grace * 1000) ∷ [];
      })

  -- `deregisterNode`
  unfoldable pub deregister_node : String → Hub → Action Q Hub
  deregister_node node h = do
    now ← clock
    modify (update_node node (gone now))
    grace ← gets (λ d. d.settings.node_offline_grace_seconds)
    schedule node grace now (cancel_offline_alert node (drop_connection node h))

  abbrev deregister_known : Option String → Hub → Action Q Hub
  deregister_known none h = pure h
  deregister_known (some node) h = deregister_node node h

  -- The 'close' event of a socket.
  unfoldable pub on_close : Socket → Hub → Action Q Hub
  on_close s h =
      deregister_known s.node
        (record h { open_sockets = filter (λ t. not (t == s.id)) h.open_sockets })

module _ {Q : Type 0} (out : Outside Q) (agent_token : String) where
  -- A hello that passed the checks takes the node's place.
  abbrev admit :
      ℕ → String → String → Option Json → Option Conn → Hub → Action Q (Option String × Hub)
  admit s node hash caps existing h = do
    register_node node (or_else caps (obj end))
    pure (
      some node,
      set_connection (record { socket = s; node = node; token_hash = hash; is_alive = true })
          (cancel_offline_alert node (supersede existing h)),
    )

  abbrev contend :
      ℕ → String → String → Option Json → Option Conn → Hub → Action Q (Option String × Hub)
  contend s node hash caps existing h =
      if is_live h existing then pure (none, close s 4003 h) else admit s node hash caps existing h

  abbrev authorized : ℕ → Hello → Hub → NodeAuth → Action Q (Option String × Hub)
  authorized s f h (rejected reason) = pure (none, close s 4001 h)
  authorized s f h (accepted hash) =
      if not (is_protocol_compatible f.v)
      then pure (none, close s 4009 h)
      else contend s f.node hash f.capabilities (connection f.node h) h

  -- `handleHello`: the node that the socket now speaks for, if any.
  unfoldable pub handle_hello : ℕ → Hello → Hub → Action Q (Option String × Hub)
  handle_hello s f h = do
    auth ← gets (verify_node_auth out agent_token f.node f.token)
    authorized s f h auth

  abbrev greeted : Socket → Option String × Hub → Action Q (Socket × Hub)
  greeted s (node, h) = pure (record s { node = node }, h)

  abbrev on_frame : Socket → Option InboundFrame → Hub → Action Q (Socket × Hub)
  on_frame s none h = pure (s, h)
  on_frame s (some (hello f)) h = do greeting ← handle_hello s.id f h; greeted s greeting
  on_frame s (some f) h = elim s.node [
    | none ↦ pure (s, h)
    | some node ↦ ingest_frame out node f >> pure (s, h)
  ]

  abbrev metered : Socket → Option InboundFrame → Hub → ℤ → ℕ → Action Q (Socket × Hub)
  metered s f h tokens now =
      if ltb_ℤ tokens (pos 20)
      then pure (record s { tokens = tokens; last_refill = now }, close s.id 4008 h)
      else on_frame (record s { tokens = tokens -ℤ pos 20; last_refill = now }) f h

  -- The 'message' event: `f` is the frame, or `none` if it does not parse or fit a schema.
  unfoldable pub on_message : Socket → Option InboundFrame → Hub → Action Q (Socket × Hub)
  on_message s f h = do now ← clock; metered s f h (refilled s now) now
