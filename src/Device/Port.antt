-- ===== src/Device/Port.antt =====
-- The port accesses of include/kernel/port/port.h, which are inline assembly: `in` and `out`
-- are what the hardware behind the ports does.
use twos.Base.{ℕ}

-- Hardware with states S: what reading a port gives and does, and what writing one does.
pub record Ports (S : Type 0) : Type 0 where
  pub port_byte_in : ℕ → S → ℕ × S
  pub port_byte_out : ℕ → ℕ → S → S

unfoldable pub io_wait : {S : Type 0} → Ports S → S → S
io_wait ports s = ports.port_byte_out 0x80 0 s
