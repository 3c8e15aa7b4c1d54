-- ===== src/Session/Defs.antt =====
-- The state of one connection (`client_state_t` of src/server/include/server.h) and what the
-- handlers share with the rest of the server: its registrations in the selector, the descriptors
-- that it has closed, the counters, the users, the log, and the bytes it has put on the wire.
use protos_tpe_g.Prelude.{
  ℕ, ◌+◌, ◌==◌, Bool, true, false, if◌then◌else◌, Option, none, some, List, [], ◌∷◌, ◌++◌, length,
  take, drop,
}
use protos_tpe_g.Socks5.{SockAddr}
use protos_tpe_g.Users.{Table}
use protos_tpe_g.Metrics.{Metrics}

-- `client_stage_t`
pub data Stage : Type 0 where
  greeting auth request resolving connecting relay closing : Stage

-- The values of `errno` that the code tells apart.
pub data Errno : Type 0 where
  no_error eagain ewouldblock enetunreach ehostunreach ehostdown enodata econnrefused : Errno
  etimedout einprogress eintr : Errno
  other : ℕ → Errno

-- The results of `getaddrinfo` that the code tells apart.
pub data GaiError : Type 0 where
  gai_success gai_again gai_noname gai_nodata : GaiError
  gai_other : ℕ → GaiError

-- `struct addrinfo`: the family and the address; `ai_next` is the rest of the list.
pub data Family : Type 0 where
  af_inet af_inet6 : Family
  af_other : ℕ → Family

pub record AddrInfo : Type 0 where
  pub family : Family
  pub addr : SockAddr

-- `struct resolver_job`, as the session sees it: what was asked, and the result once `done`.
pub record Job : Type 0 where
  pub host : List ℕ
  pub port : ℕ
  pub done : Bool
  pub result : Option (List AddrInfo)
  pub status : GaiError

-- `client_state_t`. A descriptor is `none` where the code has -1. `target_addresses` is the list
-- that `freeaddrinfo` is owed, `target_address_current` what is left to try of it.
pub record ClientState : Type 0 where
  pub read_buffer : List ℕ
  pub write_buffer : List ℕ
  pub c2t_buffer : List ℕ
  pub t2c_buffer : List ℕ
  pub read_len : ℕ
  pub write_len : ℕ
  pub write_off : ℕ
  pub c2t_len : ℕ
  pub c2t_off : ℕ
  pub t2c_len : ℕ
  pub t2c_off : ℕ
  pub client_fd : Option ℕ
  pub target_fd : Option ℕ
  pub target_addr : SockAddr
  pub target_addresses : Option (List AddrInfo)
  pub target_address_current : List AddrInfo
  pub resolver_job : Option Job
  pub last_connect_error : Errno
  pub username : List ℕ
  pub destination_host : List ℕ
  pub destination_port : ℕ
  pub access_logged : Bool
  pub stage : Stage
  pub relay_started : Bool

abbrev pub server_buffer_size : ℕ
server_buffer_size = 4096

-- `fd_interest`, a set of flags
pub record Interest : Type 0 where
  pub reads : Bool
  pub writes : Bool

abbrev pub op_noop : Interest
op_noop = record { reads = false; writes = false }

abbrev pub op_read : Interest
op_read = record { reads = true; writes = false }

abbrev pub op_write : Interest
op_write = record { reads = false; writes = true }

-- `client_handler` or `target_handler`
pub data Handler : Type 0 where
  client_handler target_handler : Handler

pub record Registration : Type 0 where
  pub handler : Handler
  pub interest : Interest

-- The registrations of this connection in the selector, by descriptor.
abbrev pub Registry : Type 0
Registry = ℕ → Option Registration

abbrev pub update : Registry → ℕ → Option Registration → Registry
update r fd v i = if fd == i then v else r i

-- one line of the access log
pub record LogEntry : Type 0 where
  pub user : List ℕ
  pub host : List ℕ
  pub port : ℕ
  pub success : Bool

-- `frees` counts the calls of `free(state)`, `closed` lists the descriptors closed, newest first.
pub record World : Type 0 where
  pub state : ClientState
  pub frees : ℕ
  pub registry : Registry
  pub closed : List ℕ
  pub metrics : Metrics
  pub active : ℕ
  pub users : Table
  pub log : List LogEntry
  pub to_client : List ℕ
  pub to_target : List ℕ

-- `n` bytes written into a buffer from `off` on
abbrev pub write_at : List ℕ → ℕ → List ℕ → List ℕ
write_at buffer off bytes = take off buffer ++ (bytes ++ drop (off + length bytes) buffer)

-- `socks5_prepare_*`: the response at the front of the write buffer, nothing of it sent yet
abbrev pub prepare : List ℕ → World → World
prepare response w = record w {
  state = record w.state {
    write_buffer = write_at w.state.write_buffer 0 response;
    write_len = length response;
    write_off = 0;
  };
}

-- `selector_set_interest` on this connection's descriptors; an error changes nothing and is not read
abbrev pub set_interest_of : Option Registration → ℕ → Interest → World → World
set_interest_of none fd i w = w
set_interest_of (some r) fd i w = record w {
  registry = update w.registry fd (some (record r { interest = i }));
}

unfoldable pub set_interest : ℕ → Interest → World → World
set_interest fd i w = set_interest_of (w.registry fd) fd i w

abbrev pub set_stage : Stage → World → World
set_stage s w = record w { state = record w.state { stage = s } }

abbrev pub set_read_len : ℕ → World → World
set_read_len n w = record w { state = record w.state { read_len = n } }

-- The string that a `char` array holds: the bytes before the first NUL.
unfoldable pub c_str : List ℕ → List ℕ
c_str [] = []
c_str (b ∷ bs) = let rest = c_str bs in if b == 0 then [] else b ∷ rest

abbrev pub anonymous : List ℕ
anonymous = b'a' ∷ b'n' ∷ b'o' ∷ b'n' ∷ b'y' ∷ b'm' ∷ b'o' ∷ b'u' ∷ b's' ∷ []

abbrev pub unknown : List ℕ
unknown = b'u' ∷ b'n' ∷ b'k' ∷ b'n' ∷ b'o' ∷ b'w' ∷ b'n' ∷ []

abbrev pub or_default : List ℕ → List ℕ → List ℕ
or_default [] d = d
or_default (x ∷ xs) d = x ∷ xs

-- `access_log_connection`: the fields of the line that it appends
abbrev pub access_log_connection : List ℕ → List ℕ → ℕ → Bool → LogEntry
access_log_connection user host port success = record {
  user = or_default user anonymous;
  host = or_default host unknown;
  port = port;
  success = success;
}
