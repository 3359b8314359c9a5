-- ===== src/Handlers/Heartbeats/Monotone.antt =====
-- The table of nodes under heartbeats.
use mathlib.Core.Path.{subst}
use tork.Prelude.{
  ◌-◌, ◌*◌, ltb, inl, inr, Bool-cases, true, sym, ap, refl, ◌+◌, ◌<◌, ◌≢◌, ◌≡◌, ◌≤◌, some, arith,
}
use tork.Node.{Node, NodeStatus}
use tork.Exec.{Env, World}
use tork.User.{Time}
use tork.Datastore.{
  find_row, node_key, written_node, heartbeat_rate, read_node, is_up, select_node, get_node,
  update_node,
}
use tork.Datastore.Rows.{find_row-write_row_self, key-find_row}
use tork.Handlers.Heartbeats.{handle, beat}

-- The status of a known node `u` after its heartbeat `n` at a time: the one it tells, and if it was
-- overtaken by a later one, that of the row, or offline, if the row is up and older than a minute.
pub data IsStatus (n u : Node) (now : Time) : NodeStatus → Type 0 where
  told : u.last_heartbeat_at ≤ n.last_heartbeat_at → IsStatus n u now n.status
  fresh :
      n.last_heartbeat_at < u.last_heartbeat_at
      → now ≤ u.last_heartbeat_at + 60000000000
      → IsStatus n u now u.status
  not_up :
      n.last_heartbeat_at < u.last_heartbeat_at
      → u.status ≢ NodeStatus.up
      → IsStatus n u now u.status
  gone :
      n.last_heartbeat_at < u.last_heartbeat_at
      → u.status ≡ NodeStatus.up
      → u.last_heartbeat_at + 60000000000 < now
      → IsStatus n u now NodeStatus.offline

is_up-up : (s : NodeStatus) → is_up s ≡ true → s ≡ NodeStatus.up
unfolding is_up
is_up-up NodeStatus.up h = refl
is_up-up NodeStatus.down h = ground (arith, h)
is_up-up NodeStatus.offline h = ground (arith, h)

up-is_up : (s : NodeStatus) → s ≡ NodeStatus.up → is_up s ≡ true
unfolding is_up
up-is_up s e = ap is_up e

beat-IsStatus : (n u : Node) (now : Time) → IsStatus n u now (beat n (read_node now u)).status
unfolding beat read_node
beat-IsStatus n u now =
    let s = (beat n (read_node now u)).status in
    elim (Bool-cases (ltb n.last_heartbeat_at u.last_heartbeat_at)) [
      | inr known ↦
          let same : s ≡ n.status = ground (arith, known) in
          subst (IsStatus n u now) (sym same) (told (ground (arith, known)))
      | inl late ↦ elim (Bool-cases (is_up u.status)) [
        | inr down_ ↦
            let same : s ≡ u.status = ground (arith, late, down_) in
            subst (IsStatus n u now) (sym same)
              (not_up (ground (arith, late)) λ e. ground (arith, down_, up-is_up u.status e))
        | inl up_ ↦ elim (Bool-cases (ltb u.last_heartbeat_at (now - heartbeat_rate * 2))) [
          | inl stale ↦
              let same : s ≡ NodeStatus.offline = ground (arith, late, up_, stale) in
              subst (IsStatus n u now) (sym same)
                (gone (ground (arith, late)) (is_up-up u.status up_) (ground (arith, stale)))
          | inr recent ↦
              let same : s ≡ u.status = ground (arith, late, up_, recent) in
              subst (IsStatus n u now) (sym same)
                (fresh (ground (arith, late)) (ground (arith, recent)))
        ]
      ]
    ]

-- After a heartbeat from a known node, the time in its row is at least the time of the heartbeat
-- and the time that was there, and the queue and the name of the host are those that were there. The
-- status is the one that the heartbeat tells. If the heartbeat was overtaken by a later one, the status
-- stays, but that a node which was up, and was last heard of more than a minute ago, is offline.
pub handle_known :
    (env : Env) (n u : Node) (w : World)
    → find_row node_key n.id w.db.nodes ≡ some u
    → (u' : Node) × (find_row node_key n.id (handle env n w).1.db.nodes ≡ some u')
      × (u.last_heartbeat_at ≤ u'.last_heartbeat_at)
      × (n.last_heartbeat_at ≤ u'.last_heartbeat_at)
      × (u'.queue ≡ u.queue)
      × (u'.hostname ≡ u.hostname)
      × IsStatus n u (env.now (w.readings + 1)) u'.status
unfolding handle get_node update_node select_node
handle_known env n u w h =
    let new = written_node u (beat n (read_node (env.now (w.readings + 1)) u)) in
    (
      new,
      ground (
        arith,
        h,
        key-find_row node_key n.id w.db.nodes u,
        find_row-write_row_self node_key n.id new w.db.nodes u,
      ),
      ground arith,
      ground arith,
      ground arith,
      ground arith,
      beat-IsStatus n u (env.now (w.readings + 1)),
    )
