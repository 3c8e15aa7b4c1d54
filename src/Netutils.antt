-- ===== src/Netutils.antt =====
-- src/utils/netutils.c: the loops over blocking sockets. `none` is a failed assertion of the buffer.
pub mod Sending
mod Tests
use protos_tpe_g.Prelude.{
  ℕ, zero, suc, ◌+◌, ◌-◌, Bool, true, false, if◌then◌else◌, Option, none, some, List, [], ◌∷◌, ◌++◌,
  ltb, length, take, drop, ◌>>=◌,
}
use protos_tpe_g.Session.Defs.{Errno}
use protos_tpe_g.Session.Flush.{Send, sent, refused}
use protos_tpe_g.Buffer.{Buffer, bytes, buffer_read_ptr, buffer_read_adv, buffer_can_read}

-- How a loop stands: it returned 0, or `errno`, or it waits in a call that has no answer yet.
pub data Wrote : Type 0 where
  done waits : Wrote
  stopped : Errno → Wrote

-- behind `buffer_read_adv`: the loop's condition
abbrev pub go_on :
    (Buffer → Option (Wrote × Buffer × List ℕ)) → List ℕ → Buffer → Option (Wrote × Buffer × List ℕ)
go_on next out b = if buffer_can_read b then next b else some (done, b, out)

-- `sock_blocking_write`, over the results of `send` in their order; with the bytes sent. `stale` is
-- what `errno` is when `send` returns 0.
unfoldable pub sock_blocking_write :
    Errno → List Send → Buffer → List ℕ → Option (Wrote × Buffer × List ℕ)
sock_blocking_write stale [] b out = some (waits, b, out)
sock_blocking_write stale (refused e ∷ answers) b out =
    buffer_read_ptr b >>= λ p. some (stopped e, b, out)
sock_blocking_write stale (sent n ∷ answers) b out = buffer_read_ptr b >>= λ p.
    if ltb 0 n
    then buffer_read_adv b (bytes n)
      >>= go_on
          (λ b'.
            sock_blocking_write stale answers b' (out ++ take n (take p.1 (drop p.0 b.memory))))
          (out ++ take n (take p.1 (drop p.0 b.memory)))
    else some (stopped stale, b, out)
