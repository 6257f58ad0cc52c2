-- ===== src/Bridge/Idle.antt =====
-- main.go: `withIdleTimeout`, the methods of `idleTimeoutConn`, and `closeWrite`.
pub mod Transparent
use argonaut.Bridge.Env.{ℤ, pos, negsuc}
use argonaut.Prelude.{ℕ, zero, suc, ◌+◌, Option, none, some, Bytes}

-- What the program uses of a `net.Conn`, over the state of the network and the clock: `time.Now` in
-- nanoseconds, and `CloseWrite` where the connection has it. The errors of `SetReadDeadline` and
-- `SetWriteDeadline` are dropped by the program.
pub record NetConn (E C : Type 0) : Type 0 where
  pub now : C → ℕ
  pub read : ℕ → C → (Bytes × Option E) × C
  pub write : Bytes → C → (ℕ × Option E) × C
  pub set_read_deadline : ℕ → C → C
  pub set_write_deadline : ℕ → C → C
  pub close_write : Option (C → Option E × C)

module _ {E C : Type 0} where
  -- `CloseWrite` of `idleTimeoutConn`
  idle_close_write : Option (C → Option E × C) → C → Option E × C
  idle_close_write none c = (none, c)
  idle_close_write (some close) c = close c

  unfoldable pub idle_timeout_conn : ℕ → NetConn E C → NetConn E C
  unfolding idle_close_write
  idle_timeout_conn timeout conn = record {
    now = conn.now;
    read = λ size c. conn.read size (conn.set_read_deadline (conn.now c + timeout) c);
    write = λ buf c. conn.write buf (conn.set_write_deadline (conn.now c + timeout) c);
    set_read_deadline = conn.set_read_deadline;
    set_write_deadline = conn.set_write_deadline;
    close_write = some (idle_close_write conn.close_write);
  }

  unfoldable pub with_idle_timeout : ℤ → NetConn E C → NetConn E C
  with_idle_timeout (negsuc n) conn = conn
  with_idle_timeout (pos zero) conn = conn
  with_idle_timeout (pos (suc n)) conn = idle_timeout_conn (suc n) conn

  -- `closeWrite`, which drops the error
  unfoldable pub close_write : NetConn E C → C → C
  close_write conn c = elim conn.close_write [ none ↦ c | some close ↦ (close c).1 ]
