-- ===== src/Session/Env.antt =====
-- What the operating system answers during one call of a handler, and errors as SOCKS5 replies.
use protos_tpe_g.Prelude.{ℕ, Bool, true, false, Option, List, ◌≡◌, ◌≤◌, length}
use protos_tpe_g.Socks5.{
  SockAddr, reply_success, reply_general_failure, reply_network_unreachable, reply_host_unreachable,
  reply_connection_refused, reply_ttl_expired,
}
use protos_tpe_g.Session.Defs.{
  Errno, no_error, enetunreach, ehostunreach, ehostdown, enodata, econnrefused, etimedout, GaiError,
  gai_success, gai_again, gai_noname, gai_nodata, Family, af_inet, af_inet6,
}
use protos_tpe_g.Session.Flush.{Kernel, Honest}

-- `recv`: bytes, the end of the stream, or -1 with `errno`
pub data Recv : Type 0 where
  received : List ℕ → Recv
  end_of_stream : Recv
  failed : Errno → Recv

-- `socket`, `set_nonblocking` and `connect` for one address: where they stop, with `errno`, or the
-- descriptor, the error of `connect`, if any, and what `errno` is afterwards
pub data Attempt : Type 0 where
  no_socket : Errno → Attempt
  no_nonblock : ℕ → Errno → Attempt
  socket : ℕ → Option Errno → Errno → Attempt

-- `getsockopt(SO_ERROR)`
pub data SoError : Type 0 where
  so_error : Errno → SoError
  no_so_error : Errno → SoError

pub record Env : Type 0 where
  pub send : Kernel
  pub recv : ℕ → Recv
  pub attempts : ℕ → Attempt
  pub so_error : SoError
  pub resolver_started : Bool
  pub inet_ntop : SockAddr → Option (List ℕ)
  pub stale_errno : Errno

-- What is documented of `send` and `recv`: neither reports more bytes than it was given room for.
pub record IsHonest (e : Env) : Type 0 where
  pub send_le : Honest e.send
  pub recv_le : (room : ℕ) (bytes : List ℕ) → e.recv room ≡ received bytes → length bytes ≤ room

-- `target_connection_succeeded`: whether it did, and `*socket_error`
unfoldable pub target_connection_succeeded : SoError → Bool × Errno
target_connection_succeeded (no_so_error e) = (false, e)
target_connection_succeeded (so_error no_error) = (true, no_error)
target_connection_succeeded (so_error e) = (false, e)

-- `socks5_reply_for_errno`
unfoldable pub reply_for_errno : Errno → ℕ
reply_for_errno no_error = reply_success
reply_for_errno enetunreach = reply_network_unreachable
reply_for_errno ehostunreach = reply_host_unreachable
reply_for_errno ehostdown = reply_host_unreachable
reply_for_errno enodata = reply_host_unreachable
reply_for_errno econnrefused = reply_connection_refused
reply_for_errno etimedout = reply_ttl_expired
reply_for_errno _ = reply_general_failure

-- `socks5_reply_for_gai_error`
unfoldable pub reply_for_gai_error : GaiError → ℕ
reply_for_gai_error gai_success = reply_success
reply_for_gai_error gai_again = reply_ttl_expired
reply_for_gai_error gai_noname = reply_host_unreachable
reply_for_gai_error gai_nodata = reply_host_unreachable
reply_for_gai_error _ = reply_general_failure

abbrev pub is_einprogress : Errno → Bool
is_einprogress Errno.einprogress = true
is_einprogress _ = false

abbrev pub is_inet : Family → Bool
is_inet af_inet = true
is_inet af_inet6 = true
is_inet _ = false
