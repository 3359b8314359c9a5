-- ===== src/Handlers/Heartbeats.antt =====
-- internal/coordinator/handlers/heartbeat.go
pub mod Monotone
use tork.Prelude.{none, some, ltb, if◌then◌else◌}
use tork.Node.{Node}
use tork.Exec.{Env, M, ◌>>=◌, ◌>>◌}
use tork.Datastore.{create_node, get_node, update_node, find_row, node_key}

-- A heartbeat older than the last one is ignored.
unfoldable pub beat : Node → Node → Node
beat n u = if ltb n.last_heartbeat_at u.last_heartbeat_at then u else record u {
  last_heartbeat_at = n.last_heartbeat_at;
  cpu_percent = n.cpu_percent;
  status = n.status;
  task_count = n.task_count;
}

unfoldable pub handle : Env → Node → M (Unit {0})
unfolding beat
handle env n w = elim (find_row node_key n.id w.db.nodes) [
  | none ↦ create_node n w
  | some _ ↦ (do known ← get_node env n.id; update_node env n.id (beat n)) w
]
