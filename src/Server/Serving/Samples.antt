-- ===== src/Server/Serving/Samples.antt =====
-- A server at work: the sockets of the server (3) and of the management (4), a client whose name is
-- being resolved (5), a management connection (6), and a client (7) with its target (8).
use protos_tpe_g.Prelude.{
  ℕ, suc, zero, ◌≡◌, ◌≤◌, ◌==◌, refl, subst, true, if◌then◌else◌, inl, inr, arith, Option, none,
  some, List, [], ◌∷◌, codes, replicate,
}
use protos_tpe_g.Metrics.{initial}
use protos_tpe_g.Session.Defs.{
  World, ClientState, resolving, relay, op_read, op_noop, op_write, eagain, no_error, Interest,
  client_handler, target_handler, gai_noname,
}
use protos_tpe_g.Session.Env.{no_socket, so_error}
use protos_tpe_g.Management.Handlers.{Management, new_management}
use protos_tpe_g.Management.Samples.{ana, all_of, chunk}
use protos_tpe_g.Selector.{Item, Selector, item_at}
use protos_tpe_g.Selector.Operations.{used_item}
use protos_tpe_g.Selector.Table.{IsValid, reads_in, writes_in}
use protos_tpe_g.Selector.Dispatch.{Loop}
use protos_tpe_g.Accept.{client_kind, management_kind, new_client}
use protos_tpe_g.Server.Table.{Known, Waits}
use protos_tpe_g.Server.Serving.{
  Connections, System, target_number, accept_number, management_accept_number,
}
use protos_tpe_g.Server.Serving.Keeping.{IsConnection, IsListening}
use protos_tpe_g.Server.Serving.Sound.{Served}

abbrev pub item_of : ℕ → ℕ → Interest → ℕ → Item
item_of fd handler i d = record { fd = fd; handler = handler; interest = i; data_of = d }

abbrev pub items : List (Option Item)
items =
    none
    ∷ (none
        ∷ (none
            ∷ (some (item_of 3 accept_number op_read 0)
                ∷ (some (item_of 4 management_accept_number op_read 0)
                    ∷ (some (item_of 5 client_kind.handler op_noop 1)
                        ∷ (some (item_of 6 management_kind.handler op_read 2)
                            ∷ (some (item_of 7 client_kind.handler op_read 3)
                                ∷ (some (item_of 8 target_number op_write 3)
                                    ∷ replicate 1016 none))))))))

no_item : (n i : ℕ) (item : Item) → item_at (replicate n none) i ≡ some (some item) → ⊥
unfolding item_at
no_item zero i item e = cc
no_item (suc n) zero item e = cc
no_item (suc n) (suc i) item e = no_item n i item e

-- What holds of the six items holds of every item.
each_item :
    (Q : ℕ → Item → Type 0)
    → Q 3 (item_of 3 accept_number op_read 0)
    → Q 4 (item_of 4 management_accept_number op_read 0)
    → Q 5 (item_of 5 client_kind.handler op_noop 1)
    → Q 6 (item_of 6 management_kind.handler op_read 2)
    → Q 7 (item_of 7 client_kind.handler op_read 3)
    → Q 8 (item_of 8 target_number op_write 3)
    → (i : ℕ) (item : Item) → item_at items i ≡ some (some item)
    → Q i item
unfolding item_at
each_item Q a b c d e f zero item at = absurd cc
each_item Q a b c d e f (suc zero) item at = absurd cc
each_item Q a b c d e f (suc (suc zero)) item at = absurd cc
each_item Q a b c d e f (suc (suc (suc zero))) item at = subst (Q 3) (used_item at) a
each_item Q a b c d e f (suc (suc (suc (suc zero)))) item at = subst (Q 4) (used_item at) b
each_item Q a b c d e f (suc (suc (suc (suc (suc zero))))) item at = subst (Q 5) (used_item at) c
each_item Q a b c d e f (suc (suc (suc (suc (suc (suc zero)))))) item at =
    subst (Q 6) (used_item at) d
each_item Q a b c d e f (suc (suc (suc (suc (suc (suc (suc zero))))))) item at =
    subst (Q 7) (used_item at) e
each_item Q a b c d e f (suc (suc (suc (suc (suc (suc (suc (suc zero)))))))) item at =
    subst (Q 8) (used_item at) f
each_item Q a b c d e f (suc (suc (suc (suc (suc (suc (suc (suc (suc i))))))))) item at =
    absurd (no_item 1016 i item at)

abbrev pub table : Selector
table = record {
  fds = items;
  max_fd = 8;
  master_r = λ i. reads_in (item_at items i);
  master_w = λ i. writes_in (item_at items i);
}

table-IsValid : IsValid table
table-IsValid = record {
  owned = each_item (λ i item. item.fd ≡ i) refl refl refl refl refl refl;
  bounded =
      each_item (λ i item. i ≤ 8) (omega arith) (omega arith) (omega arith) (omega arith)
        (omega arith) (omega arith);
  reading = λ i. refl;
  writing = λ i. refl;
}

abbrev world_of : ClientState → World
world_of state = record {
  state = state;
  frees = 0;
  registry = λ i. none;
  closed = [];
  metrics = initial;
  active = 2;
  users = ana;
  log = [];
  to_client = [];
  to_target = [];
}

-- The resolver has ended, for a name that has no address.
abbrev resolved_world : World
resolved_world =
    record (world_of (record (new_client 5) {
      stage = resolving;
      resolver_job = some (record {
        host = codes "nowhere";
        port = 80;
        done = true;
        result = none;
        status = gai_noname;
      });
    })) {
      registry = λ i.
          if i == 5 then some (record { handler = client_handler; interest = op_noop }) else none;
    }

abbrev relaying_world : World
relaying_world =
    record (world_of
      (record (new_client 7) { stage = relay; target_fd = some 8; relay_started = true })) {
        registry = λ i.
            if i == 7
            then some (record { handler = client_handler; interest = op_read })
            else if i == 8
            then some (record { handler = target_handler; interest = op_write })
            else none;
      }

abbrev managing : Management
managing = record {
  state = new_management;
  registered = some op_read;
  frees = 0;
  closes = 0;
  users = ana;
  metrics = initial;
  to_client = [];
}

abbrev connections : Connections
connections = record {
  clients = λ d. if d == 1 then resolved_world else relaying_world;
  managements = λ d. managing;
  next = 4;
  metrics = initial;
  active = 2;
  world = world_of (new_client 0);
  management = managing;
}

-- The resolver of the client 5 has told of its end.
abbrev pub start : Loop Connections
start = record { selector = table; jobs = 5 ∷ []; app = connections }

-- The client 7 sends bytes, the management connection a command, and one client and one management
-- connection come.
abbrev pub system : System
system = record {
  env = λ key. record {
    send = all_of;
    recv = chunk (codes "hello");
    attempts = λ k. no_socket eagain;
    so_error = so_error no_error;
    resolver_started = true;
    inet_ntop = λ addr. none;
    stale_errno = eagain;
  };
  recv = λ key. chunk (codes "LIST\n");
  send = λ key. all_of;
  accepts = λ key. (if key.fd == 3 then 9 else 10, true);
}

five-Waits : Waits IsConnection IsListening client_kind.handler table 5
unfolding item_at
five-Waits = record {
  item = item_of 5 client_kind.handler op_noop 1;
  at = refl;
  handler = refl;
  reads = refl;
  writes = refl;
  alone =
      each_item (λ i item. item.data_of ≡ 1 → i ≡ 5) (λ e. omega arith) (λ e. omega arith)
        (λ e. refl) (λ e. omega arith) (λ e. omega arith) (λ e. omega arith);
}

pub start-Served : Served start
start-Served = record {
  valid = table-IsValid;
  size = refl;
  highest = omega arith;
  known =
      each_item (λ i item. Known IsConnection IsListening client_kind.handler 4 item)
        (record { data_of = omega arith; role = inr (inl refl, refl) })
        (record { data_of = omega arith; role = inr (inr refl, refl) })
        (record { data_of = omega arith; role = inl (inl refl) })
        (record { data_of = omega arith; role = inl (inr (inl refl)) })
        (record { data_of = omega arith; role = inl (inl refl) })
        (record { data_of = omega arith; role = inl (inr (inr refl)) });
  waiting = (five-Waits, (tt, tt));
}
