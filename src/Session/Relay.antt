-- ===== src/Session/Relay.antt =====
-- The part of a connection that only reading and writing change: its stage and user, the buffers,
-- what has gone out on either side, and the byte counters; and the operations that leave it alone.
pub mod Carried
pub mod Stream
pub mod Runs
use protos_tpe_g.Prelude.{
  ℕ, zero, suc, ◌≡◌, ◌∙◌, refl, ap, sym, Bool, true, false, not, if◌then◌else◌, Option, none, some,
  List, [], ◌∷◌, arith, inl, inr, Bool-cases, Option-cases, if_lem,
}
use protos_tpe_g.Users.{Table}
use protos_tpe_g.Metrics.{Metrics, connection_closed, connection_failed, connection_succeeded}
use protos_tpe_g.Session.Defs.{
  World, Handler, client_handler, target_handler, Interest, Registration, set_interest,
  set_interest_of, Stage, AddrInfo, Job,
}
use protos_tpe_g.Session.Close.{
  unregister_to, unregister, close_connection, update_relay_interests, target_close, client_close,
  close_any_target, close_target, handle_close, release, set_interest_any, forget, close_fd,
  set_target_fd, set_client_fd, client_interest, target_interest, free_addresses, free_addresses_of,
  detach_resolver, holds, close_target_if, unregister_entry, close_either,
}
use protos_tpe_g.Session.Env.{Env, Attempt, no_socket, no_nonblock, socket}

pub record Wire : Type 0 where
  pub users : Table
  pub username : List ℕ
  pub stage : Stage
  pub write_buffer : List ℕ
  pub write_len : ℕ
  pub write_off : ℕ
  pub c2t_buffer : List ℕ
  pub c2t_len : ℕ
  pub c2t_off : ℕ
  pub t2c_buffer : List ℕ
  pub t2c_len : ℕ
  pub t2c_off : ℕ
  pub to_client : List ℕ
  pub to_target : List ℕ
  pub bytes_client_to_target : ℕ
  pub bytes_target_to_client : ℕ

abbrev pub wire : World → Wire
wire w = record {
  users = w.users;
  username = w.state.username;
  stage = w.state.stage;
  write_buffer = w.state.write_buffer;
  write_len = w.state.write_len;
  write_off = w.state.write_off;
  c2t_buffer = w.state.c2t_buffer;
  c2t_len = w.state.c2t_len;
  c2t_off = w.state.c2t_off;
  t2c_buffer = w.state.t2c_buffer;
  t2c_len = w.state.t2c_len;
  t2c_off = w.state.t2c_off;
  to_client = w.to_client;
  to_target = w.to_target;
  bytes_client_to_target = w.metrics.bytes_client_to_target;
  bytes_target_to_client = w.metrics.bytes_target_to_client;
}

wire-set_interest_of :
    (r : Option Registration) (fd : ℕ) (i : Interest) (w : World)
    → wire (set_interest_of r fd i w) ≡ wire w
wire-set_interest_of none fd i w = refl
wire-set_interest_of (some r) fd i w = refl

pub wire-set_interest : (fd : ℕ) (i : Interest) (w : World) → wire (set_interest fd i w) ≡ wire w
unfolding set_interest
wire-set_interest fd i w = wire-set_interest_of (w.registry fd) fd i w

pub wire-set_interest_any :
    (fd : Option ℕ) (i : Interest) (w : World) → wire (set_interest_any fd i w) ≡ wire w
wire-set_interest_any none i w = refl
wire-set_interest_any (some fd) i w = wire-set_interest fd i w

pub wire-update_relay_interests : (w : World) → wire (update_relay_interests w) ≡ wire w
unfolding update_relay_interests
wire-update_relay_interests w =
    if_lem (λ v. wire v ≡ wire w) (not w.state.relay_started) (λ _. refl)
      λ _.
        wire-set_interest_any w.state.target_fd (target_interest w.state)
          (set_interest_any w.state.client_fd (client_interest w.state) w)
        ∙ wire-set_interest_any w.state.client_fd (client_interest w.state) w

bytes-connection_closed :
    (m : Metrics)
    → ((connection_closed m).bytes_client_to_target ≡ m.bytes_client_to_target)
      × ((connection_closed m).bytes_target_to_client ≡ m.bytes_target_to_client)
unfolding connection_closed
bytes-connection_closed m = ground arith

wire-free_addresses_of :
    (a : Option (List AddrInfo)) (w : World) → wire (free_addresses_of a w) ≡ wire w
wire-free_addresses_of none w = refl
wire-free_addresses_of (some a) w = refl

pub wire-free_addresses : (w : World) → wire (free_addresses w) ≡ wire w
wire-free_addresses w = wire-free_addresses_of w.state.target_addresses w

-- The counters of bytes stand in the metrics, whose other fields may change.
wire-metrics :
    (w : World) (m : Metrics)
    → m.bytes_client_to_target ≡ w.metrics.bytes_client_to_target
    → m.bytes_target_to_client ≡ w.metrics.bytes_target_to_client
    → wire (record w { metrics = m }) ≡ wire w
wire-metrics w m p q = cc

pub wire-release : (w : World) → wire (release w) ≡ wire w
wire-release w =
    let v : World = free_addresses (detach_resolver w) in
    wire-metrics v (connection_closed v.metrics) (bytes-connection_closed v.metrics).0
      (bytes-connection_closed v.metrics).1
    ∙ wire-free_addresses (detach_resolver w)

pub wire-target_close : (fd : ℕ) (w : World) → wire (target_close fd w) ≡ wire w
wire-target_close fd w =
    if_lem (λ v. wire v ≡ wire w) (holds w.state.target_fd fd) (λ _. refl) (λ _. refl)

-- A way to unregister that leaves the relay part alone.
abbrev Quiet : (World → ℕ → Bool × World) → Type 0
Quiet unregister' = (w : World) (fd : ℕ) → wire (unregister' w fd).1 ≡ wire w

module _ (u : World → ℕ → Bool × World) (q : Quiet u) where
  wire-close_target_if : (t : Option ℕ) (w : World) → wire (close_target_if u t w) ≡ wire w
  wire-close_target_if none w = refl
  wire-close_target_if (some fd) w =
      if_lem (λ v. wire v ≡ wire w) (u (set_target_fd none w) fd).0
        (λ _. q (set_target_fd none w) fd) (λ _. q (set_target_fd none w) fd)

  wire-handle_close : (h : Handler) (fd : ℕ) (w : World) → wire (handle_close u h fd w) ≡ wire w
  wire-handle_close client_handler fd w =
      let v : World = if holds w.state.client_fd fd then set_client_fd none w else w in
      wire-release (close_any_target u v)
      ∙ (wire-close_target_if v.state.target_fd v
          ∙ if_lem (λ x. wire x ≡ wire w) (holds w.state.client_fd fd) (λ _. refl) (λ _. refl))
  wire-handle_close target_handler fd w = wire-target_close fd w

  wire-unregister_entry :
      (r : Option Registration) (fd : ℕ) (w : World) → wire (unregister_entry u r fd w).1 ≡ wire w
  wire-unregister_entry none fd w = refl
  wire-unregister_entry (some r) fd w = wire-handle_close r.handler fd w

wire-unregister_to : (depth : ℕ) (w : World) (fd : ℕ) → wire (unregister_to depth w fd).1 ≡ wire w
unfolding unregister_to
wire-unregister_to zero w fd = refl
wire-unregister_to (suc depth) w fd =
    wire-unregister_entry (unregister_to depth) (wire-unregister_to depth) (w.registry fd) fd w

pub wire-unregister : (w : World) (fd : ℕ) → wire (unregister w fd).1 ≡ wire w
unfolding unregister
wire-unregister w fd = wire-unregister_to 2 w fd

pub wire-close_connection : (w : World) → wire (close_connection w) ≡ wire w
unfolding close_connection
wire-close_connection w = either w.state.client_fd
  where
    either : (c : Option ℕ) → wire (close_either c w) ≡ wire w
    either none = wire-close_target_if unregister wire-unregister w.state.target_fd w
    either (some fd) = wire-unregister (set_client_fd none w) fd
