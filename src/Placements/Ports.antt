-- ===== src/Placements/Ports.antt =====
-- `nextSshPortForNode` of controller/src/lib/placements.ts.
pub mod Least
use docker_mass_deployment.Base.{
  ℕ, zero, suc, ◌+◌, ◌-◌, String, Bool, Option, none, some, List, map, ◌==◌, filter, mem_nat,
  if◌then◌else◌,
}
use docker_mass_deployment.Store.Rows.{Placement}
use docker_mass_deployment.Store.World.{Db, Action, gets, or_throw, ◌>>=◌}

-- The loop from `p`, with `rounds` ports left to look at.
unfoldable pub first_free : List ℕ → ℕ → ℕ → Option ℕ
first_free used zero p = none
first_free used (suc rounds) p =
    let later = first_free used rounds (p + 1) in if mem_nat p used then later else some p

unfoldable pub used_ports : ℕ → Db → List ℕ
used_ports node d =
    map (λ (p : Placement). p.ssh_port) (filter (λ p. p.node_id == node) d.placements.rows)

-- The ports of the configured range, both ends included.
unfoldable pub free_port : ℕ → Db → Option ℕ
unfolding first_free used_ports
free_port node d =
    first_free (used_ports node d) (d.settings.ssh_port_end + 1 - d.settings.ssh_port_start)
      d.settings.ssh_port_start

unfoldable pub next_ssh_port_for_node : {Q : Type 0} → ℕ → Action Q ℕ
next_ssh_port_for_node node = do
  port ← gets (free_port node)
  or_throw port "No free SSH port in the configured range on this node"
