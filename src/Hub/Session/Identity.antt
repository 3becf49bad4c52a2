-- ===== src/Hub/Session/Identity.antt =====
-- Who a socket speaks for after its hello (`handleHello` of `controller/src/lib/hub.ts`).
use docker_mass_deployment.Base.{
  ℕ, String, ◌≡◌, true, false, not, Option, none, some, List, str_eq, filter,
}
use docker_mass_deployment.Json.{Json}
use docker_mass_deployment.Nodes.{node_token_hash}
use docker_mass_deployment.Outside.{Outside}
use docker_mass_deployment.Placements.Tables.{find_node_by_name}
use docker_mass_deployment.Protocol.{Hello, is_protocol_compatible}
use docker_mass_deployment.Store.Rows.{Node}
use docker_mass_deployment.Store.World.{Db, World, Outcome, ok, err}
use docker_mass_deployment.Hub.Session.{Hub, close, connection, is_live}

-- The hello gives the token of the node that it names: the node is known and allowed, and the hash
-- of its token is the one that belongs to the name and the token given.
pub record Genuine {Q : Type 0} (out : Outside Q) (agent_token : String) (f : Hello) (d : Db)
    (hash : String) : Type 0 where
  pub row : Node
  pub known : find_node_by_name f.node d ≡ some row
  pub allowed : row.allowed ≡ true
  pub stored : row.token_hash ≡ some hash
  pub given : node_token_hash out agent_token f.node f.token ≡ hash

-- The rows of the nodes of other names.
abbrev pub other_nodes : String → Db → List Node
other_nodes name d = filter (λ (n : Node). not (str_eq n.name name)) d.nodes.rows

-- A hello that was let in: its token is the node's, its protocol is ours, no other open socket
-- holds the node, the socket is now the node's connection, no other node's changed; and of all that
-- the controller keeps only the row of the node has changed.
pub record LetIn {Q : Type 0} (out : Outside Q) (agent_token : String) (s : ℕ) (f : Hello) (h : Hub)
    (w : World Q) (node : String) (h' : Hub) (w' : World Q) : Type 0 where
  pub hash : String
  pub genuine : Genuine out agent_token f w.db hash
  pub named : node ≡ f.node
  pub compatible : is_protocol_compatible f.v ≡ true
  pub vacant : is_live h (connection f.node h) ≡ false
  pub own :
      connection f.node h'
      ≡ some (record { socket = s; node = f.node; token_hash = hash; is_alive = true })
  pub others : (m : String) → str_eq m f.node ≡ false → connection m h' ≡ connection m h
  pub other_rows : other_nodes f.node w'.db ≡ other_nodes f.node w.db
  pub rest : w' ≡ record w { db = record w.db { nodes = w'.db.nodes } }

-- A hello that was turned away: the socket is closed and nothing else happened.
pub record TurnedAway {Q : Type 0} (w : World Q) (s : ℕ) (h h' : Hub) (w' : World Q) : Type 0 where
  pub code : ℕ
  pub closed : h' ≡ close s code h
  pub world : w' ≡ w

abbrev pub Greeting :
    {Q : Type 0}
    → Outside Q
    → String
    → ℕ
    → Hello
    → Hub
    → World Q
    → Outcome (Option String × Hub) × World Q
    → Type 0
Greeting out agent_token s f h w (err e, w') = ⊥
Greeting out agent_token s f h w (ok (none, h'), w') = TurnedAway w s h h' w'
Greeting out agent_token s f h w (ok (some node, h'), w') = LetIn out agent_token s f h w node h' w'
