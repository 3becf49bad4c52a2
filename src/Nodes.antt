-- ===== src/Nodes.antt =====
-- controller/src/lib/nodes.ts: which agents may connect, and as which node.
pub mod Cold
use docker_mass_deployment.Base.{
  ℕ, String, Bool, true, false, not, ◌&&◌, ◌||◌, Option, none, some, List, [], ◌∷◌, ◌⧺◌, ◌==◌, leb,
  str_eq, codes, length, all, any, update_where, is_lower, is_digit, opt_str_is, if◌then◌else◌,
}
use docker_mass_deployment.Outside.{Outside}
use docker_mass_deployment.Store.Rows.{Node, local_zfs, insert_row, with_rows}
use docker_mass_deployment.Store.World.{
  Db, Action, pure, modify, clock, draw, throw_if, ◌>>=◌, ◌>>◌,
}
use docker_mass_deployment.Placements.Tables.{find_node_by_name, audit}

abbrev is_label_char : ℕ → Bool
is_label_char c = is_lower c || is_digit c || c == b'-'

-- `NODE_NAME_RE`, /^[a-z0-9][a-z0-9-]{0,62}$/
unfoldable pub is_node_name : List ℕ → Bool
is_node_name [] = false
is_node_name (c ∷ s) = (is_lower c || is_digit c) && leb (length s) 62 && all is_label_char s

pub data NodeAuth : Type 0 where
  accepted : String → NodeAuth
  rejected : String → NodeAuth

-- Rows are updated by name: `UPDATE nodes SET ... WHERE name = ?`.
unfoldable pub update_node : String → (Node → Node) → Db → Db
update_node name f d = record d {
  nodes = with_rows (update_where (λ n. str_eq n.name name) f) d.nodes;
}

abbrev pub has_node : String → Db → Bool
has_node name d = any (λ (n : Node). str_eq n.name name) d.nodes.rows

-- A row with the defaults of the schema.
abbrev pub bare_node : String → ℕ → Node
bare_node name now = record {
  id = 0;
  name = name;
  alias = none;
  last_seen = none;
  online = false;
  capabilities = none;
  pools = none;
  scrub_status = none;
  allowed = false;
  token_hash = none;
  cold_backend = local_zfs;
  cold_owner_node_id = none;
  cold_mount_path = none;
  cold_ready = false;
  created_at = now;
}

-- `INSERT ... ON CONFLICT(name) DO UPDATE`: the row that is there is updated, else a new one made.
unfoldable pub upsert_node : Node → (Node → Node) → Db → Db
unfolding update_node
upsert_node fresh f d =
    if has_node fresh.name d
    then update_node fresh.name f d
    else record d { nodes = insert_row (λ id. record fresh { id = id }) d.nodes }

module _ {Q : Type 0} (out : Outside Q) (agent_token : String) where
  -- `nodeTokenHash`: the name is bound into the message.
  unfoldable pub node_token_hash : String → String → String
  node_token_hash name token = out.hmac_sha256 agent_token (name ⧺ ("\0" ⧺ token))

  abbrev pub check_hash : String → String → Option String → NodeAuth
  check_hash name token none = rejected "node not provisioned"
  check_hash name token (some hash) =
      if str_eq hash ""
      then rejected "node not provisioned"
      else if str_eq (node_token_hash name token) hash
      then accepted hash
      else rejected "bad node token"

  abbrev pub check_row : String → String → Option Node → NodeAuth
  check_row name token none = rejected "unknown or blocked node"
  check_row name token (some n) =
      if n.allowed then check_hash name token n.token_hash else rejected "unknown or blocked node"

  -- `verifyNodeAuth`
  unfoldable pub verify_node_auth : String → String → Db → NodeAuth
  unfolding is_node_name find_node_by_name
  verify_node_auth name token d =
      if not (is_node_name (codes name))
      then rejected "invalid node name"
      else if str_eq token ""
      then rejected "missing token"
      else check_row name token (find_node_by_name name d)

  abbrev provisioned : String → Node → Node
  provisioned hash n = record n { allowed = true; token_hash = some hash }

  -- `provisionNode`; the token is made from a draw of randomness.
  unfoldable pub provision_node : String → (ℕ → String) → String → Action Q String
  provision_node name hex actor = do
    throw_if (not (is_node_name (codes name))) ("invalid node name '" ⧺ (name ⧺ "'"))
    n ← draw
    let token = hex n
    now ← clock
    modify (
        upsert_node (provisioned (node_token_hash name token) (bare_node name now))
          (provisioned (node_token_hash name token)))
    audit (some actor) "node.provision" (some name) none
    pure token

abbrev still : String → Option Node → Bool
still hash none = false
still hash (some n) = n.allowed && opt_str_is n.token_hash hash

unfoldable pub node_still_authorized : String → String → Db → Bool
unfolding find_node_by_name
node_still_authorized name hash d = still hash (find_node_by_name name d)

module _ {Q : Type 0} where
  unfoldable pub revoke_node : String → String → Action Q (Unit {0})
  revoke_node name actor = do
    modify (update_node name (λ n. record n { allowed = false }))
    audit (some actor) "node.revoke" (some name) none
