-- ===== src/Management/Handlers.antt =====
-- The handlers of a management connection.
use protos_tpe_g.Prelude.{
  ℕ, suc, ◌+◌, ◌-◌, ◌==◌, Bool, false, ◌||◌, if◌then◌else◌, Option, none, some, List, [], ◌∷◌, ◌++◌,
  length, take, replicate,
}
use protos_tpe_g.Users.{Table}
use protos_tpe_g.Metrics.{Metrics}
use protos_tpe_g.Session.Defs.{Interest, op_write, write_at, c_str}
use protos_tpe_g.Session.Flush.{Kernel, Outcome, flushed, broken, Flush, flush_all, would_block}
use protos_tpe_g.Session.Env.{Recv, received, end_of_stream, failed}
use protos_tpe_g.Management.Respond.{management_buffer_size, respond}

-- `management_state_t`. The write buffer is the string that is in it.
pub record ManagementState : Type 0 where
  pub read_buffer : List ℕ
  pub write_buffer : List ℕ
  pub read_len : ℕ
  pub write_len : ℕ
  pub write_off : ℕ

-- `calloc` in `accept_management_connection`
abbrev pub new_management : ManagementState
new_management = record {
  read_buffer = replicate management_buffer_size 0;
  write_buffer = [];
  read_len = 0;
  write_len = 0;
  write_off = 0;
}

-- One connection: its state, its registration in the selector, how often its state was freed and
-- its descriptor closed, and what it shares with the rest of the server.
pub record Management : Type 0 where
  pub state : ManagementState
  pub registered : Option Interest
  pub frees : ℕ
  pub closes : ℕ
  pub users : Table
  pub metrics : Metrics
  pub to_client : List ℕ

-- `selector_unregister_fd`, with `management_close`
abbrev pub management_close : Management → Management
management_close w = record w { registered = none; frees = suc w.frees; closes = suc w.closes }

abbrev pub set_management_interest : Interest → Management → Management
set_management_interest i w = record w { registered = some i }

-- `management_prepare_response`. What `strtok` writes into the read buffer is left out: the handler
-- that reads it is not called again.
unfoldable pub management_prepare_response : Management → Management
management_prepare_response w =
    let (users, text) = respond w.users w.metrics (take w.state.read_len w.state.read_buffer) in
    record w {
      users = users;
      state = record w.state {
        write_buffer = text;
        write_len = length (c_str text);
        write_off = 0;
      };
    }

-- `memchr(...) != NULL`
unfoldable pub contains : ℕ → List ℕ → Bool
contains c [] = false
contains c (b ∷ bs) = b == c || contains c bs

abbrev pub append_received : List ℕ → Management → Management
append_received bytes w = record w {
  state = record w.state {
    read_buffer = write_at w.state.read_buffer w.state.read_len bytes;
    read_len = w.state.read_len + length bytes;
  };
}

-- `management_read`, with the bytes in the buffer
abbrev pub answer_if_complete : Management → Management
answer_if_complete w =
    if contains 10 (take w.state.read_len w.state.read_buffer)
      || w.state.read_len == (management_buffer_size - 1)
    then set_management_interest op_write (management_prepare_response w)
    else w

abbrev pub receive : Recv → Management → Management
receive (received bytes) w = answer_if_complete (append_received bytes w)
receive end_of_stream w = management_close w
receive (failed e) w = if would_block e then w else management_close w

-- `management_read`; `recv` is given the room that is left but for one byte.
unfoldable pub management_read : (ℕ → Recv) → Management → Management
management_read recv w = receive (recv (management_buffer_size - w.state.read_len - 1)) w

abbrev pub sent_answer : Flush → Management → Management
sent_answer f w = record w {
  state = record w.state { write_off = f.off };
  to_client = w.to_client ++ f.out;
}

abbrev pub after_answer : Outcome → Management → Management
after_answer flushed w = management_close w
after_answer broken w = management_close w
after_answer _ w = w

-- `management_write`
unfoldable pub management_write : Kernel → Management → Management
management_write send w =
    let f = flush_all send w.state.write_buffer w.state.write_len w.state.write_off 0 in
    after_answer f.outcome (sent_answer f w)

-- What the selector calls, with what the system answers during the call.
pub data Call : Type 0 where
  reads : (ℕ → Recv) → Call
  writes : Kernel → Call

abbrev pub dispatch : Call → Interest → Management → Management
dispatch (reads recv) i w = if i.reads then management_read recv w else w
dispatch (writes send) i w = if i.writes then management_write send w else w

-- The selector calls a handler only while the descriptor is registered, with that interest.
abbrev pub dispatch_if : Option Interest → Call → Management → Management
dispatch_if none c w = w
dispatch_if (some i) c w = dispatch c i w

unfoldable pub manage : List Call → Management → Management
manage [] w = w
manage (c ∷ cs) w = manage cs (dispatch_if w.registered c w)
