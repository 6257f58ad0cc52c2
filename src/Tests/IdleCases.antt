-- ===== src/Tests/IdleCases.antt =====
-- main.go: the idle timeout, on a connection in memory.
use argonaut.Bridge.Env.{pos}
use argonaut.Bridge.Idle.Transparent.{
  ConnStep, reads, writes, half_closes, has_read, IsUndated, conn_step, outcomes,
  outcomes-with_idle_timeout,
}
use argonaut.Bridge.Idle.{NetConn, with_idle_timeout, close_write}
use argonaut.Prelude.{
  ℕ, ◌≡◌, refl, ap, List, [], ◌∷◌, ◌++◌, none, some, Bytes, codes, length, take, drop,
}

-- A connection in memory: what is left to read, what was written, the deadlines and the clock.
abbrev Memory : Type 0
Memory = Bytes × Bytes × ℕ × ℕ × ℕ

abbrev in_memory : NetConn Bytes Memory
in_memory = record {
  now = λ c. c.4;
  read = λ n c. ((take n c.0, none), (drop n c.0, c.1, c.2, c.3, c.4));
  write = λ buf c. ((length buf, none), (c.0, c.1 ++ buf, c.2, c.3, c.4));
  set_read_deadline = λ t c. (c.0, c.1, t, c.3, c.4);
  set_write_deadline = λ t c. (c.0, c.1, c.2, t, c.4);
  close_write = some (λ c. (none, (c.0, c.1 ++ codes "<end>", c.2, c.3, c.4)));
}

abbrev traffic : Memory → Bytes × Bytes
traffic c = (c.0, c.1)

in_memory-IsUndated : IsUndated in_memory traffic
unfolding conn_step close_write
in_memory-IsUndated = record {
  steps = λ s c d h. same s c d h;
  read_deadline = λ t c. refl;
  write_deadline = λ t c. refl;
}
  where
    same :
        (s : ConnStep) (c d : Memory)
        → traffic c ≡ traffic d
        → ((conn_step in_memory s c).0 ≡ (conn_step in_memory s d).0)
          × (traffic (conn_step in_memory s c).1 ≡ traffic (conn_step in_memory s d).1)
    same (reads n) c d h = (ap (λ v. has_read (take n v.0, none)) h, ap (λ v. (drop n v.0, v.1)) h)
    same (writes buf) c d h = (refl, ap (λ v. (v.0, v.1 ++ buf)) h)
    same half_closes c d h = (refl, ap (λ v. (v.0, v.1 ++ codes "<end>")) h)

abbrev echoed : List ConnStep
echoed = reads 4 ∷ writes (codes "ping") ∷ half_closes ∷ reads 4 ∷ []

outcomes-with_idle_timeout_example :
    outcomes (with_idle_timeout (pos 300) in_memory) echoed (codes "ping!", [], 0, 0, 7)
    ≡ outcomes in_memory echoed (codes "ping!", [], 0, 0, 7)
outcomes-with_idle_timeout_example =
    outcomes-with_idle_timeout in_memory traffic in_memory-IsUndated (pos 300) echoed
      (codes "ping!", [], 0, 0, 7)
