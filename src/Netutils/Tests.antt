-- ===== src/Netutils/Tests.antt =====
-- A buffer of two bytes, sent in two calls.
use protos_tpe_g.Prelude.{[], ◌∷◌, map, arith}
use protos_tpe_g.Session.Defs.{no_error}
use protos_tpe_g.Session.Flush.{sent}
use protos_tpe_g.Buffer.{Buffer}
use protos_tpe_g.Buffer.Invariant.{IsValid}
use protos_tpe_g.Buffer.Queue.{contents}
use protos_tpe_g.Netutils.{sock_blocking_write}
use protos_tpe_g.Netutils.Sending.{Sends, sock_blocking_write-Sends}

abbrev half : Buffer
half = record { memory = 1 ∷ 2 ∷ 3 ∷ 4 ∷ []; limit = 4; read = 1; write = 3 }

half-IsValid : IsValid half
half-IsValid = omega arith

blocking_example :
    Sends (sock_blocking_write no_error (map sent (1 ∷ 1 ∷ [])) half []) (contents half)
blocking_example =
    sock_blocking_write-Sends no_error 1 (1 ∷ []) half half-IsValid (omega arith, (omega arith, tt))
      (omega arith)
