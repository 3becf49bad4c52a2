-- ===== src/Placements/Tasks.antt =====
-- The tasks that placements send to an agent, with their parameters
-- (controller/src/lib/placements.ts).
use docker_mass_deployment.Base.{ℕ, String, Bool, Option, none, some, List, or_else}
use docker_mass_deployment.Json.{
  Json, bool, num, str, arr, obj, Fields, end, field, or_null, str_items,
}
use docker_mass_deployment.Outside.{Outside, TaskFrame}
use docker_mass_deployment.Queue.{enqueue_task}
use docker_mass_deployment.Store.Rows.{Placement}
use docker_mass_deployment.Store.World.{Action}
use docker_mass_deployment.Placements.Config.{container_options_of}
use docker_mass_deployment.Placements.Tables.{Placed}

-- `taskContainerOptions`
unfoldable pub task_container_options : Placement → Json
unfolding container_options_of
task_container_options p =
    let o = container_options_of p.container_options in
    obj (
      field "cpus" (str o.cpus) (
        field "memory" (str o.memory) (
          field "shm_size" (str o.shm_size) (
            field "rootfs_quota" (str o.rootfs_quota) (
              field "restart" (str o.restart)
                (field "image" (str p.image) (field "ssh_port" (num p.ssh_port) end)))))))

-- The two quota fields that many tasks have.
abbrev student_quotas : Placement → Fields → Fields
student_quotas p rest =
    field "student_fast_quota_bytes" (or_null p.student_fast_quota_bytes)
      (field "student_cold_quota_bytes" (or_null p.student_cold_quota_bytes) rest)

unfoldable pub create_params : Placed → Json
unfolding task_container_options
create_params p = obj (
    field "lab" (str p.lab.name) (
      field "fast_quota_bytes" (num p.row.fast_quota_bytes) (
        field "slow_quota_bytes" (num (or_else p.row.cold_quota_bytes 0)) (
          student_quotas p.row (
            field "image" (str p.row.image) (
              field "ssh_port" (num p.row.ssh_port)
                (field "container_options" (task_container_options p.row) end)))))))

unfoldable pub recreate_params : Placed → Json
unfolding task_container_options
recreate_params p = obj (
    field "lab" (str p.lab.name) (
      field "image" (str p.row.image) (
        field "ssh_port" (num p.row.ssh_port)
          (field "container_options" (task_container_options p.row) (student_quotas p.row end)))))

unfoldable pub add_params : Placed → String → ℕ → String → Json
add_params p username uid password = obj (
    field "lab" (str p.lab.name) (
      field "username" (str username) (
        field "password" (str password)
          (field "uid" (num uid) (field "gid" (num uid) (student_quotas p.row end))))))

abbrev removal_fields : Option (String × List String) → Fields
removal_fields none = end
removal_fields (some (id, nodes)) =
    field "removal_id" (str id) (field "cold_cleanup_nodes" (arr (str_items nodes)) end)

unfoldable pub remove_params : Placed → String → Bool → Option (String × List String) → Json
remove_params p username delete_data removal = obj (
    field "lab" (str p.lab.name) (
      field "username" (str username)
        (field "delete_data" (bool delete_data) (removal_fields removal))))

module _ {Q : Type 0} (out : Outside Q) where
  -- `enqueuePlacementCreate`
  unfoldable pub enqueue_placement_create : Placed → Option String → Action Q TaskFrame
  enqueue_placement_create p actor =
      enqueue_task out p.node.name "lab.create" (create_params p) actor
