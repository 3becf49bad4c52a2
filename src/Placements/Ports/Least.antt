-- ===== src/Placements/Ports/Least.antt =====
-- The port that `nextSshPortForNode` of `controller/src/lib/placements.ts` finds.
use docker_mass_deployment.Base.{
  ℕ, zero, suc, ◌+◌, ◌-◌, ◌≤◌, ◌<◌, ◌≡◌, true, false, Option, none, some, List, arith, mem_nat,
  ◌==◌, ==_iff, Bool-cases, inl, inr,
}
use docker_mass_deployment.Store.World.{Db}
use docker_mass_deployment.Placements.Ports.{first_free, used_ports, free_port}

-- Every port from `lo` on and below `hi` is used.
pub record Full (used : List ℕ) (lo hi : ℕ) : Type 0 where
  pub at : (q : ℕ) → lo ≤ q → q < hi → mem_nat q used ≡ true

-- What the search for a port in `lo ≤ p < hi` may answer: the least port that is not used, or
-- nothing if all are.
abbrev pub IsLeastFree : List ℕ → ℕ → ℕ → Option ℕ → Type 0
IsLeastFree used lo hi none = Full used lo hi
IsLeastFree used lo hi (some p) = (lo ≤ p) × (p < hi) × (mem_nat p used ≡ false) × Full used lo p

Full-below :
    (used : List ℕ) (lo hi : ℕ) → mem_nat lo used ≡ true → Full used (lo + 1) hi → Full used lo hi
Full-below used lo hi h k = record {
  at = λ q l u. elim (Bool-cases (q == lo)) [
    | inl e ↦ rw ((==_iff q lo).0 e) h
    | inr e ↦ k.at q (ground arith) u
  ];
}

step-IsLeastFree :
    (used : List ℕ) (lo hi : ℕ) (r : Option ℕ)
    → mem_nat lo used ≡ true
    → IsLeastFree used (lo + 1) hi r
    → IsLeastFree used lo hi r
step-IsLeastFree used lo hi none h k = Full-below used lo hi h k
step-IsLeastFree used lo hi (some p) h (l, u, f, k) = (omega arith, u, f, Full-below used lo p h k)

first_free-IsLeastFree :
    (used : List ℕ) (rounds lo : ℕ) → IsLeastFree used lo (lo + rounds) (first_free used rounds lo)
unfolding first_free
first_free-IsLeastFree used zero lo = record { at = λ q l u. absurd (omega arith) }
first_free-IsLeastFree used (suc rounds) lo = grind (
  arith,
  step-IsLeastFree used lo (lo + suc rounds) (first_free used rounds (lo + 1)),
  first_free-IsLeastFree used rounds (lo + 1),
)

-- The port search of a node answers the least port of the configured range, both ends included,
-- that no placement of the node has, and nothing only if placements of the node have them all.
pub free_port-IsLeastFree :
    (node : ℕ) (d : Db)
    → IsLeastFree
        (used_ports node d)
        d.settings.ssh_port_start
        (d.settings.ssh_port_start + (d.settings.ssh_port_end + 1 - d.settings.ssh_port_start))
        (free_port node d)
unfolding free_port
free_port-IsLeastFree node d = first_free-IsLeastFree (used_ports node d) _ _
