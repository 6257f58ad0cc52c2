-- ===== src/Bridge/Idle/Transparent.antt =====
-- main.go: a connection behind `withIdleTimeout` against the connection itself.
use argonaut.Bridge.Env.{ℤ, pos, negsuc}
use argonaut.Bridge.Idle.{
  NetConn, idle_close_write, idle_timeout_conn, with_idle_timeout, close_write,
}
use argonaut.Prelude.{
  ℕ, zero, suc, ◌+◌, ◌≡◌, refl, ap, ◌∙◌, List, [], ◌∷◌, Option, none, some, Bytes,
}

-- What the copy does with a connection.
pub data ConnStep : Type 0 where
  reads : ℕ → ConnStep
  writes : Bytes → ConnStep
  half_closes : ConnStep

pub data Outcome (E : Type 0) : Type 0 where
  has_read : Bytes × Option E → Outcome E
  has_written : ℕ × Option E → Outcome E
  has_half_closed : Outcome E

module _ {E C : Type 0} where
  unfoldable pub conn_step : NetConn E C → ConnStep → C → Outcome E × C
  conn_step conn (reads n) c = let (r, c') = conn.read n c in (has_read r, c')
  conn_step conn (writes buf) c = let (r, c') = conn.write buf c in (has_written r, c')
  conn_step conn half_closes c = (has_half_closed, close_write conn c)

  unfoldable pub outcomes : NetConn E C → List ConnStep → C → List (Outcome E)
  outcomes conn [] c = []
  outcomes conn (s ∷ ss) c = let (o, c') = conn_step conn s c in o ∷ outcomes conn ss c'

-- A half close reaches the connection below.
close_write-idle_timeout_conn :
    {E C : Type 0} (conn : NetConn E C) (timeout : ℕ) (c : C)
    → close_write (idle_timeout_conn timeout conn) c ≡ close_write conn c
unfolding close_write idle_timeout_conn
close_write-idle_timeout_conn {E = E} {C = C} conn timeout c = same conn.close_write
  where
    same :
        (o : Option (C → Option E × C))
        → (idle_close_write o c).1 ≡ elim o [ none ↦ c | some close ↦ (close c).1 ]
    same none = refl
    same (some close) = refl

-- While no deadline passes: what is seen of a connection decides its outcomes and what is seen next,
-- and a deadline is not seen.
pub record IsUndated {E C V : Type 0} (conn : NetConn E C) (seen : C → V) : Type 0 where
  pub steps :
      (s : ConnStep) (c d : C)
      → seen c ≡ seen d
      → ((conn_step conn s c).0 ≡ (conn_step conn s d).0)
        × (seen (conn_step conn s c).1 ≡ seen (conn_step conn s d).1)
  pub read_deadline : (t : ℕ) (c : C) → seen (conn.set_read_deadline t c) ≡ seen c
  pub write_deadline : (t : ℕ) (c : C) → seen (conn.set_write_deadline t c) ≡ seen c

module _ {E C V : Type 0} (conn : NetConn E C) (seen : C → V) (k : IsUndated conn seen) where
  Same : Outcome E × C → Outcome E × C → Type 0
  Same r r' = (r.0 ≡ r'.0) × (seen r.1 ≡ seen r'.1)

  step-Same :
      (timeout : ℕ) (s : ConnStep) (c d : C)
      → seen c ≡ seen d
      → Same (conn_step (idle_timeout_conn timeout conn) s c) (conn_step conn s d)
  unfolding Same conn_step idle_timeout_conn close_write
  step-Same timeout (reads n) c d h =
      k.steps (reads n) (conn.set_read_deadline (conn.now c + timeout) c) d
        (k.read_deadline (conn.now c + timeout) c ∙ h)
  step-Same timeout (writes buf) c d h =
      k.steps (writes buf) (conn.set_write_deadline (conn.now c + timeout) c) d
        (k.write_deadline (conn.now c + timeout) c ∙ h)
  step-Same timeout half_closes c d h =
      let (o, v) = k.steps half_closes c d h in
      (o, ap seen (close_write-idle_timeout_conn conn timeout c) ∙ v)

  outcomes-idle_timeout_conn :
      (timeout : ℕ) (ss : List ConnStep) (c d : C)
      → seen c ≡ seen d
      → outcomes (idle_timeout_conn timeout conn) ss c ≡ outcomes conn ss d
  unfolding outcomes Same
  outcomes-idle_timeout_conn timeout [] c d h = refl
  outcomes-idle_timeout_conn timeout (s ∷ ss) c d h =
      let (o, v) = step-Same timeout s c d h in
      let rest =
        outcomes-idle_timeout_conn timeout ss (conn_step (idle_timeout_conn timeout conn) s c).1
          (conn_step conn s d).1 v in
      rw (o, rest)

  -- While no deadline passes, a connection behind `withIdleTimeout` reads, writes and half-closes as
  -- the connection itself does, whatever the timeout is.
  pub outcomes-with_idle_timeout :
      (timeout : ℤ) (ss : List ConnStep) (c : C)
      → outcomes (with_idle_timeout timeout conn) ss c ≡ outcomes conn ss c
  unfolding with_idle_timeout
  outcomes-with_idle_timeout (negsuc n) ss c = refl
  outcomes-with_idle_timeout (pos zero) ss c = refl
  outcomes-with_idle_timeout (pos (suc n)) ss c = outcomes-idle_timeout_conn (suc n) ss c c refl
