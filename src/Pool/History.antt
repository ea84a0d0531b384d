-- ===== src/Pool/History.antt =====
-- The two operations that change a pool in use: a client asks for an address, or gives it back.
use ezvpn.Prelude.{ℕ}

pub data Op (E : Type 0) : Type 0 where
  allocates releases : E → ℕ → Op E
