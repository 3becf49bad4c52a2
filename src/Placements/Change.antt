-- ===== src/Placements/Change.antt =====
-- Changes of a living placement in controller/src/lib/placements.ts: quotas, recreation, retry.
use docker_mass_deployment.Base.{
  ℕ, String, Bool, true, false, not, ◌&&◌, Option, none, some, ◌⧺◌, ltb, or_else, is_some,
}
use docker_mass_deployment.Format.{fmt_bytes}
use docker_mass_deployment.Json.{Json, num, str, arr, obj, cons, nil, Fields, end, field, member_of}
use docker_mass_deployment.Outside.{Outside}
use docker_mass_deployment.Queue.{enqueue_task}
use docker_mass_deployment.Store.Rows.{
  Backend, local_zfs, smb, ContainerOptions, Placement, PlacementState,
}
use docker_mass_deployment.Store.World.{
  Db, Action, gets, or_throw, modify, clock, throw_if, throw_some, ◌>>=◌, ◌>>◌,
}
use docker_mass_deployment.Placements.Config.{
  validate_container_config, container_options_of, stored_options,
}
use docker_mass_deployment.Placements.Tables.{
  Placed, find_node, get_placement, update_placement, audit,
}
use docker_mass_deployment.Placements.Tasks.{enqueue_placement_create, recreate_params}
use docker_mass_deployment.Placements.Members.{reprovision_placement_members}
use docker_mass_deployment.Placements.Create.{exceeds, exceeds_some}

abbrev pub site : Placed → String
site p = p.lab.name ⧺ ("@" ⧺ p.node.name)

abbrev num_of : Option Json → Option ℕ
num_of (some (num n)) = some n
num_of _ = none

-- `sizeOf`
abbrev size_of : Json → Option ℕ
size_of j = num_of (member_of "size" j)

abbrev capacities : Option Json → Option ℕ × Option ℕ
capacities (some (arr (cons fast (cons cold xs)))) = (size_of fast, size_of cold)
capacities (some (arr (cons fast nil))) = (size_of fast, none)
capacities _ = (none, none)

-- The sizes of a node's fast and cold pools, as far as its telemetry has them.
unfoldable pub node_pool_capacity_bytes : ℕ → Db → Option ℕ × Option ℕ
unfolding find_node member_of
node_pool_capacity_bytes node d = elim (find_node node d) [
  | none ↦ (none, none)
  | some n ↦ capacities n.pools
]

-- `quota != null && capacity !== null && quota > capacity`
abbrev pub over : Option ℕ → Option ℕ → Bool
over (some q) (some cap) = ltb cap q
over _ _ = false

unfoldable pub capacity_message : String → Placed → Option ℕ → Option ℕ → String
capacity_message pool p quota capacity =
    pool
    ⧺ (" quota "
        ⧺ (fmt_bytes quota
            ⧺ (" exceeds node '" ⧺ (p.node.name ⧺ ("'s pool capacity of " ⧺ fmt_bytes capacity)))))

abbrev fast_field : Option ℕ → Fields → Fields
fast_field none rest = rest
fast_field (some q) rest = field "fast_quota_bytes" (num q) rest

-- Of a cold quota: `none` is undefined, `some none` null.
abbrev slow_field : Option (Option ℕ) → Fields
slow_field (some (some q)) = field "slow_quota_bytes" (num q) end
slow_field _ = end

abbrev pub set_fast : Option ℕ → Placement → Placement
set_fast none p = p
set_fast (some q) p = record p { fast_quota_bytes = q }

abbrev pub set_cold : Option (Option ℕ) → Placement → Placement
set_cold none p = p
set_cold (some q) p = record p { cold_quota_bytes = q }

abbrev flat : Option (Option ℕ) → Option ℕ
flat (some q) = q
flat none = none

abbrev pub retried : ℕ → Placement → Placement
retried now p = record p {
  state = PlacementState.provisioning;
  last_error = none;
  updated_at = now;
}

-- The columns that a recreation gives anew; `none` leaves one as it is.
pub record RecreateInput : Type 0 where
  pub image : Option String
  pub container_options : Option ContainerOptions
  pub student_fast_quota_bytes : Option (Option ℕ)
  pub student_cold_quota_bytes : Option (Option ℕ)

abbrev opt_stored : Option ContainerOptions → Placement → Placement
opt_stored none p = p
opt_stored (some o) p = record p { container_options = some (stored_options o) }

-- The statements of `recreatePlacement` on the row, one after another.
abbrev pub recreated : RecreateInput → ℕ → Placement → Placement
recreated input now p =
    let q = opt_stored input.container_options (record p { image = or_else input.image p.image }) in
    record q {
      student_fast_quota_bytes = or_else input.student_fast_quota_bytes p.student_fast_quota_bytes;
      student_cold_quota_bytes = or_else input.student_cold_quota_bytes p.student_cold_quota_bytes;
      completion_email_sent_at = none;
      updated_at = now;
    }

abbrev pub is_smb : Backend → Bool
is_smb smb = true
is_smb local_zfs = false

abbrev pub is_failed : PlacementState → Bool
is_failed PlacementState.failed = true
is_failed _ = false

module _ {Q : Type 0} (out : Outside Q) where
  unfoldable pub update_placement_quota :
      ℕ → Option ℕ → Option (Option ℕ) → Option String → Action Q (Unit {0})
  update_placement_quota id fast cold actor = do
    found ← gets (get_placement id)
    p ← or_throw found "Unknown placement"
    capacity ← gets (node_pool_capacity_bytes p.row.node_id)
    throw_if (over fast capacity.0) (capacity_message "Fast" p fast capacity.0)
    throw_if (over (flat cold) capacity.1) (capacity_message "Cold" p (flat cold) capacity.1)
    modify (update_placement id (set_fast fast))
    modify (update_placement id (set_cold cold))
    now ← clock
    modify (update_placement id (λ r. record r { updated_at = now }))
    let params = obj (field "lab" (str p.lab.name) (fast_field fast (slow_field cold)))
    enqueue_task out p.node.name "lab.set_quota" params actor
    audit actor "placement.set_quota" (some (site p)) (some (out.json_text params))

  unfoldable pub recreate_placement : ℕ → RecreateInput → Option String → Action Q (Unit {0})
  recreate_placement id input actor = do
    found ← gets (get_placement id)
    p ← or_throw found "Unknown placement"
    throw_some (
        validate_container_config (or_else input.image p.row.image)
          (or_else input.container_options (container_options_of p.row.container_options)))
    throw_if (exceeds (flat input.student_fast_quota_bytes) p.row.fast_quota_bytes)
        "Per-student fast quota must be positive and cannot exceed the placement fast quota"
    throw_if (is_smb p.node.cold_backend && is_some (flat input.student_cold_quota_bytes))
        "Per-student cold quota is managed by the SMB owner placement"
    throw_if (exceeds_some (flat input.student_cold_quota_bytes) p.row.cold_quota_bytes)
        "Per-student cold quota must be positive and cannot exceed the placement cold quota"
    now ← clock
    modify (update_placement id (recreated input now))
    found' ← gets (get_placement id)
    fresh ← or_throw found' "Cannot read properties of undefined"
    enqueue_task out fresh.node.name "container.recreate" (recreate_params fresh) actor
    reprovision_placement_members out fresh actor
    audit actor "placement.recreate" (some (site fresh)) none

  unfoldable pub retry_placement : ℕ → Option String → Action Q (Unit {0})
  retry_placement id actor = do
    found ← gets (get_placement id)
    p ← or_throw found "Unknown placement"
    throw_if (not (is_failed p.row.state)) "Only a failed placement can be retried"
    now ← clock
    modify (update_placement id (retried now))
    enqueue_placement_create out p actor
    audit actor "placement.retry" (some (site p)) none
