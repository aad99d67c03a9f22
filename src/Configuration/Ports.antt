-- ===== src/Configuration/Ports.antt =====
-- internal/config/config.go: what the test of a port lets through.
use route_forge.Base.{ℕ, ◌≤◌, ◌≡◌, true, some, List, arith}
use route_forge.Configuration.{parse_port, is_port}

pub is_port_lem :
    (s : List ℕ) → is_port s ≡ true → (n : ℕ) × (parse_port s ≡ some n) × (1 ≤ n) × (n ≤ 65535)
unfolding is_port parse_port
is_port_lem s e = ground arith
