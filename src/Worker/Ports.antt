-- ===== src/Worker/Ports.antt =====
-- internal/worker/worker.go: the ports that a worker reserves for tasks
use tork.Prelude.{
  ℕ, zero, suc, Bool, true, false, not, Option, none, some, List, [], ◌∷◌, ◌≡◌, refl, arith, ◌==◌,
  if◌then◌else◌,
}
use tork.Worker.{Worker}

pub is_used : ℕ → List ℕ → Bool
is_used p [] = false
is_used p (q ∷ qs) = if p == q then true else is_used p qs

pub without_port : ℕ → List ℕ → List ℕ
without_port p [] = []
without_port p (q ∷ qs) = let rest = without_port p qs in if p == q then rest else q ∷ rest

-- The attempts of `reservePort`, of which each looks at the port of the one listener.
unfoldable pub attempts : ℕ → ℕ → List ℕ → Bool
unfolding is_used
attempts zero port used = false
attempts (suc n) port used =
    let rest = attempts n port used in if is_used port used then rest else true

-- `reservePort`, where the listener has the port
unfoldable pub reserve_port : ℕ → Worker → Option ℕ × Worker
reserve_port port wk =
    if attempts 10 port wk.used_ports
    then (some port, record wk { used_ports = port ∷ wk.used_ports })
    else (none, wk)

-- `releasePort`
unfoldable pub release_port : ℕ → Worker → Worker
release_port port wk = record wk { used_ports = without_port port wk.used_ports }

-- However many attempts there are, they are as good as one.
attempts-once : (n port : ℕ) (used : List ℕ) → attempts (suc n) port used ≡ not (is_used port used)
unfolding attempts
attempts-once zero port used = ground arith
attempts-once (suc n) port used = ground (arith, attempts-once n port used)

without-unused :
    (port : ℕ) (used : List ℕ) → is_used port used ≡ false → without_port port used ≡ used
unfolding is_used without_port
without-unused port [] free = refl
without-unused port (p ∷ used) free = ground (arith, without-unused port used)

-- A port is reserved exactly if it is not in use, and then it is in use until it is released: the
-- attempts after the first make no difference.
pub reserve_port-used :
    (port : ℕ) (wk : Worker)
    → is_used port wk.used_ports ≡ false
    → let wk' = (reserve_port port wk).1 in
      ((reserve_port port wk).0 ≡ some port)
      × ((reserve_port port wk').0 ≡ none)
      × ((release_port port wk').used_ports ≡ wk.used_ports)
unfolding reserve_port release_port is_used without_port
reserve_port-used port wk free = ground (
  arith,
  free,
  attempts-once 9 port wk.used_ports,
  attempts-once 9 port (port ∷ wk.used_ports),
  without-unused port wk.used_ports free,
)
