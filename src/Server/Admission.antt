-- ===== src/Server/Admission.antt =====
-- The count of connections in `handle_connection`, under any interleaving: each connection adds
-- itself, and one that finds the server full takes itself off again in a later step.
use ezvpn.Prelude.{ℕ, suc, ◌+◌, ◌≤◌, ◌<◌, ◌≡◌, ◌∙◌, leb_false→lt, true, false, arith}
use ezvpn.Server.{Server, u64_mod, enter, leave, is_full}

-- The shared state, the connections that were admitted, and those about to be rejected.
pub record World (Net4 Net6 E : Type 0) : Type 0 where
  pub server : Server Net4 Net6 E
  pub admitted : ℕ
  pub turned_away : ℕ

pub data Step {Net4 Net6 E : Type 0} : World Net4 Net6 E → World Net4 Net6 E → Type 0 where
  admit :
      (w : World Net4 Net6 E)
      → is_full w.server (enter w.server).0 ≡ false
      → w.admitted + w.turned_away + 1 < u64_mod
      → Step w (record w { server = (enter w.server).1; admitted = suc w.admitted })
  turn_away :
      (w : World Net4 Net6 E)
      → is_full w.server (enter w.server).0 ≡ true
      → w.admitted + w.turned_away + 1 < u64_mod
      → Step w (record w { server = (enter w.server).1; turned_away = suc w.turned_away })
  reject :
      (w : World Net4 Net6 E) (n : ℕ)
      → w.turned_away ≡ suc n
      → Step w (record w { server = leave w.server; turned_away = n })
  finish :
      (w : World Net4 Net6 E) (n : ℕ)
      → w.admitted ≡ suc n
      → Step w (record w { server = leave w.server; admitted = n })
  -- anything that leaves the counter and the limit alone
  other :
      (w : World Net4 Net6 E) (s : Server Net4 Net6 E)
      → s.active_connections ≡ w.server.active_connections
      → s.max_clients ≡ w.server.max_clients
      → Step w (record w { server = s })

pub data Reach {Net4 Net6 E : Type 0} (w : World Net4 Net6 E) : World Net4 Net6 E → Type 0 where
  here : Reach w w
  next : {u v : World Net4 Net6 E} → Reach w u → Step u v → Reach w v

-- The counter is the number of connections that have not left, and those admitted keep to the limit.
pub record Counts {Net4 Net6 E : Type 0} (w : World Net4 Net6 E) : Type 0 where
  pub counted : w.server.active_connections ≡ w.admitted + w.turned_away
  pub bounded : w.admitted ≤ w.server.max_clients
  pub small : w.admitted + w.turned_away < u64_mod

module _ {Net4 Net6 E : Type 0} where
  Step-Counts : {w v : World Net4 Net6 E} → Step w v → Counts w → Counts v
  unfolding enter leave is_full
  Step-Counts (admit w room small) c =
      let below = leb_false→lt w.server.max_clients w.server.active_connections room in
      record {
        counted = omega (arith, c.counted);
        bounded = omega (arith, c.counted);
        small = omega arith;
      }
  Step-Counts (turn_away w full small) c = record {
    counted = omega (arith, c.counted);
    bounded = c.bounded;
    small = omega arith;
  }
  Step-Counts (reject w n h) c = record {
    counted = omega (arith, h, c.counted, c.small);
    bounded = c.bounded;
    small = omega (arith, h, c.small);
  }
  Step-Counts (finish w n h) c = record {
    counted = omega (arith, h, c.counted, c.small);
    bounded = omega (arith, h, c.bounded);
    small = omega (arith, h, c.small);
  }
  Step-Counts (other w s a m) c = record {
    counted = a ∙ c.counted;
    bounded = rw m c.bounded;
    small = c.small;
  }

  -- However the connections interleave, from a state that counts them and while there are fewer than
  -- 2 ^ 64, no more than `max_clients` are admitted at a time, and the counter is the number of
  -- connections that have not left.
  pub Reach-Counts : {w v : World Net4 Net6 E} → Counts w → Reach w v → Counts v
  Reach-Counts c here = c
  Reach-Counts c (next r s) = Step-Counts s (Reach-Counts c r)
