-- ===== src/Node.antt =====
-- node.go: a worker or coordinator process as its heartbeats describe it.
use tork.Prelude.{ℕ, String, ◌≡◌, refl}
use tork.User.{Time}

pub data NodeStatus : Type 0 where
  up down offline : NodeStatus

-- The share of the processor is in hundredths of a percent.
pub record Node : Type 0 where
  pub id : String
  pub name : String
  pub started_at : Time
  pub cpu_percent : ℕ
  pub last_heartbeat_at : Time
  pub queue : String
  pub status : NodeStatus
  pub hostname : String
  pub port : ℕ
  pub task_count : ℕ
  pub version : String

unfoldable pub clone : Node → Node
clone n = record {
  id = n.id;
  name = n.name;
  started_at = n.started_at;
  cpu_percent = n.cpu_percent;
  last_heartbeat_at = n.last_heartbeat_at;
  queue = n.queue;
  status = n.status;
  hostname = n.hostname;
  port = n.port;
  task_count = n.task_count;
  version = n.version;
}

-- A cloned node has every field of the original.
pub clone-eq : (n : Node) → clone n ≡ n
unfolding clone
clone-eq n = refl
