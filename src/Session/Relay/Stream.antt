-- ===== src/Session/Relay/Stream.antt =====
-- The handlers of a connection that relays, one by one, on its two streams.
use protos_tpe_g.Prelude.{
  ℕ, suc, ◌-◌, ◌^◌, ◌≤◌, ◌<◌, ◌==◌, ==_iff, ltb, ◌≡◌, refl, sym, subst, Bool, true, false, not,
  if◌then◌else◌, if_lem, Option, none, some, List, [], append-nil, arith, length,
}
use protos_tpe_g.Session.Defs.{World, relay, server_buffer_size, op_read}
use protos_tpe_g.Session.Flush.{
  Outcome, flushed, blocked, broken, unfinished, Flush, flush_all, would_block,
}
use protos_tpe_g.Session.Close.{update_relay_interests}
use protos_tpe_g.Session.Env.{Env, IsHonest, Recv, received, end_of_stream, failed}
use protos_tpe_g.Session.Target.{
  target_write, target_write_at, target_write_relay, sent_to_target, after_target_flush, clear_c2t,
}
use protos_tpe_g.Session.Client.{
  client_write, client_write_relay, client_read, client_read_relay, client_read_at, target_read,
  sent_to_client, sent_response, after_client_flush, after_response, response_sent, nothing_to_send,
  clear_t2c, clear_response, start_relay, fill_c2t, fill_t2c, read_relay, read_target, read_nothing,
  write_target_if, write_client_if,
}
use protos_tpe_g.Session.Sending.{Sent, flush-Sent}
use protos_tpe_g.Session.Relay.{
  Wire, wire, wire-update_relay_interests, wire-close_connection, wire-set_interest,
}
use protos_tpe_g.Session.Relay.Carried.{
  IsReady, Carried, Carried-none, Carried-trans, Carried-target_loop, Carried-client_loop,
  Carried-response_loop, Carried-clear_c2t, Carried-clear_t2c, Carried-clear_response,
  Carried-fill_c2t, Carried-fill_t2c,
}

-- What leaves the relay part alone adds nothing.
Carried-quiet :
    {x y z : Wire} {up down : List ℕ} → z ≡ y → Carried x y up down → Carried x z up down
Carried-quiet {x} {y} {z} {up} {down} e c = subst (λ t. Carried x t up down) (sym e) c

abbrev pub Moves : World → World → Type 0
Moves v w = Carried (wire v) (wire w) [] []

-- the bytes that one call of `recv` hands over
abbrev pub bytes_of : Recv → List ℕ
bytes_of (received bytes) = bytes
bytes_of _ = []

-- What one call of `client_read`, or of `target_read`, takes from its socket.
abbrev pub client_input : Env → World → List ℕ
client_input env w = if w.state.c2t_len == 0 then bytes_of (env.recv server_buffer_size) else []

abbrev pub target_input : Env → World → List ℕ
target_input env w = if w.state.t2c_len == 0 then bytes_of (env.recv server_buffer_size) else []

module _ (env : Env) (honest : IsHonest env) where
  Sent-all :
      (buffer : List ℕ) (len off counter : ℕ)
      → off ≤ len
      → counter < 2 ^ 64
      → len ≤ length buffer
      → Sent buffer len off [] counter (flush_all env.send buffer len off counter)
  Sent-all buffer len off counter o c b =
      flush-Sent env.send honest.send_le buffer len (suc (len - off)) off [] 0 counter (omega arith)
        o c b

  Moves-after_target_flush :
      (o : Outcome) (w : World)
      → IsReady (wire w)
      → (o ≡ flushed → w.state.c2t_off ≡ w.state.c2t_len)
      → Moves w (after_target_flush o w)
  Moves-after_target_flush flushed w r e =
      Carried-quiet (wire-update_relay_interests (clear_c2t w))
        (Carried-clear_c2t (wire w) r (e refl))
  Moves-after_target_flush broken w r e =
      Carried-quiet (wire-close_connection w) (Carried-none (wire w) r)
  Moves-after_target_flush blocked w r e = Carried-none (wire w) r
  Moves-after_target_flush unfinished w r e = Carried-none (wire w) r

  Moves-target_write_relay : (w : World) → IsReady (wire w) → Moves w (target_write_relay env w)
  unfolding target_write_relay
  Moves-target_write_relay w r =
      Carried-trans sent
        (Moves-after_target_flush f.outcome (sent_to_target f w) sent.ready s.whole)
    where
      f : Flush
      f =
          flush_all env.send w.state.c2t_buffer w.state.c2t_len w.state.c2t_off
            w.metrics.bytes_client_to_target

      s :
          Sent w.state.c2t_buffer w.state.c2t_len w.state.c2t_off []
            w.metrics.bytes_client_to_target f
      s = Sent-all _ _ _ _ r.c2t_sent r.counter_up (omega (arith, r.c2t_fits, r.c2t_size))

      sent : Moves w (sent_to_target f w)
      sent = Carried-target_loop (wire w) f r s

  pub Moves-target_write : (fd : ℕ) (w : World) → IsReady (wire w) → Moves w (target_write env fd w)
  unfolding target_write
  Moves-target_write fd w r =
      subst (λ s. Moves w (target_write_at s env fd w)) (sym r.relaying)
        (Moves-target_write_relay w r)

  Moves-after_client_flush :
      (o : Outcome) (w : World)
      → IsReady (wire w)
      → (o ≡ flushed → w.state.t2c_off ≡ w.state.t2c_len)
      → Moves w (after_client_flush o w)
  Moves-after_client_flush flushed w r e =
      Carried-quiet (wire-update_relay_interests (clear_t2c w))
        (Carried-clear_t2c (wire w) r (e refl))
  Moves-after_client_flush broken w r e =
      Carried-quiet (wire-close_connection w) (Carried-none (wire w) r)
  Moves-after_client_flush blocked w r e = Carried-none (wire w) r
  Moves-after_client_flush unfinished w r e = Carried-none (wire w) r

  Moves-client_write_relay :
      (w : World) → IsReady (wire w) → w.state.write_len ≡ 0 → Moves w (client_write_relay env w)
  unfolding client_write_relay
  Moves-client_write_relay w r z =
      Carried-trans moved
        (Moves-after_client_flush f.outcome (sent_to_client f w) moved.ready s.whole)
    where
      f : Flush
      f =
          flush_all env.send w.state.t2c_buffer w.state.t2c_len w.state.t2c_off
            w.metrics.bytes_target_to_client

      s :
          Sent w.state.t2c_buffer w.state.t2c_len w.state.t2c_off []
            w.metrics.bytes_target_to_client f
      s = Sent-all _ _ _ _ r.t2c_sent r.counter_down (omega (arith, r.t2c_fits, r.t2c_size))

      moved : Moves w (sent_to_client f w)
      moved = Carried-client_loop (wire w) f r z s

  -- `client_write` at the relay stage, with its reply sent whole.
  Moves-response_sent : (fd : ℕ) (w : World) → IsReady (wire w) → Moves w (response_sent relay fd w)
  Moves-response_sent fd w r =
      if_lem (λ v. Moves w v) w.state.relay_started
        (λ _. Carried-quiet (wire-set_interest fd op_read w) (Carried-none (wire w) r))
        (λ _. Carried-quiet (wire-update_relay_interests (start_relay w)) (Carried-none (wire w) r))

  Moves-after_response :
      (fd : ℕ) (o : Outcome) (w : World)
      → IsReady (wire w)
      → (o ≡ flushed → w.state.write_off ≡ w.state.write_len)
      → Moves w (after_response env fd o w)
  Moves-after_response fd flushed w r e =
      if_lem (λ v. Moves w v) (ltb 0 w.state.write_len)
        (λ _.
          let cleared : Moves w (clear_response w) = Carried-clear_response (wire w) r (e refl) in
          Carried-trans cleared (
            subst (λ s. Moves (clear_response w) (response_sent s fd (clear_response w)))
              (sym r.relaying) (Moves-response_sent fd (clear_response w) cleared.ready)))
        (λ none_left.
          subst (λ s. Moves w (nothing_to_send s env fd w)) (sym r.relaying)
            (Moves-client_write_relay w r (ground arith)))
  Moves-after_response fd broken w r e =
      Carried-quiet (wire-close_connection w) (Carried-none (wire w) r)
  Moves-after_response fd blocked w r e = Carried-none (wire w) r
  Moves-after_response fd unfinished w r e = Carried-none (wire w) r

  pub Moves-client_write : (fd : ℕ) (w : World) → IsReady (wire w) → Moves w (client_write env fd w)
  unfolding client_write
  Moves-client_write fd w r =
      Carried-trans moved
        (Moves-after_response fd f.outcome (sent_response f w) moved.ready s.whole)
    where
      f : Flush
      f = flush_all env.send w.state.write_buffer w.state.write_len w.state.write_off 0

      s : Sent w.state.write_buffer w.state.write_len w.state.write_off [] 0 f
      s = Sent-all _ _ _ _ r.write_sent (omega arith) (omega (arith, r.write_fits, r.write_size))

      moved : Moves w (sent_response f w)
      moved = Carried-response_loop (wire w) f 0 r s

  Moves-read_nothing : (r : Recv) (w : World) → IsReady (wire w) → Moves w (read_nothing r w)
  Moves-read_nothing (failed e) w h =
      if_lem (λ v. Moves w v) (would_block e) (λ _. Carried-none (wire w) h)
        (λ _. Carried-quiet (wire-close_connection w) (Carried-none (wire w) h))
  Moves-read_nothing end_of_stream w h =
      Carried-quiet (wire-close_connection w) (Carried-none (wire w) h)
  Moves-read_nothing (received bytes) w h =
      Carried-quiet (wire-close_connection w) (Carried-none (wire w) h)

  Moves-write_target_if :
      (t : Option ℕ) (w : World) → IsReady (wire w) → Moves w (write_target_if env t w)
  Moves-write_target_if none w h = Carried-none (wire w) h
  Moves-write_target_if (some fd) w h = Moves-target_write fd w h

  Moves-write_client_if :
      (t : Option ℕ) (w : World) → IsReady (wire w) → Moves w (write_client_if env t w)
  Moves-write_client_if none w h = Carried-none (wire w) h
  Moves-write_client_if (some fd) w h = Moves-client_write fd w h

  Carried-read_relay :
      (r : Recv) (w : World)
      → IsReady (wire w)
      → w.state.c2t_len ≡ 0
      → length (bytes_of r) ≤ server_buffer_size
      → Carried (wire w) (wire (read_relay env r w)) (bytes_of r) []
  Carried-read_relay (received bytes) w h z fits =
      let filled : World = update_relay_interests (fill_c2t bytes w) in
      let moved : Carried (wire w) (wire filled) bytes [] =
        Carried-quiet (wire-update_relay_interests (fill_c2t bytes w))
          (Carried-fill_c2t (wire w) bytes h z fits) in
      subst (λ u. Carried (wire w) (wire (read_relay env (received bytes) w)) u [])
        (append-nil bytes)
        (Carried-trans moved (Moves-write_target_if filled.state.target_fd filled moved.ready))
  Carried-read_relay end_of_stream w h z fits = Moves-read_nothing end_of_stream w h
  Carried-read_relay (failed e) w h z fits = Moves-read_nothing (failed e) w h

  Carried-read_target :
      (r : Recv) (w : World)
      → IsReady (wire w)
      → w.state.t2c_len ≡ 0
      → length (bytes_of r) ≤ server_buffer_size
      → Carried (wire w) (wire (read_target env r w)) [] (bytes_of r)
  Carried-read_target (received bytes) w h z fits =
      let filled : World = update_relay_interests (fill_t2c bytes w) in
      let moved : Carried (wire w) (wire filled) [] bytes =
        Carried-quiet (wire-update_relay_interests (fill_t2c bytes w))
          (Carried-fill_t2c (wire w) bytes h z fits) in
      subst (λ u. Carried (wire w) (wire (read_target env (received bytes) w)) [] u)
        (append-nil bytes)
        (Carried-trans moved (Moves-write_client_if filled.state.client_fd filled moved.ready))
  Carried-read_target end_of_stream w h z fits = Moves-read_nothing end_of_stream w h
  Carried-read_target (failed e) w h z fits = Moves-read_nothing (failed e) w h

  bytes_of-fits :
      (r : Recv) → env.recv server_buffer_size ≡ r → length (bytes_of r) ≤ server_buffer_size
  bytes_of-fits (received bytes) e = honest.recv_le server_buffer_size bytes e
  bytes_of-fits end_of_stream e = omega arith
  bytes_of-fits (failed x) e = omega arith

  pub Carried-client_read :
      (fd : ℕ) (w : World)
      → IsReady (wire w)
      → Carried (wire w) (wire (client_read env fd w)) (client_input env w) []
  unfolding client_read client_read_relay
  Carried-client_read fd w h =
      subst (λ s. Carried (wire w) (wire (client_read_at s env fd w)) (client_input env w) [])
        (sym h.relaying) (go (w.state.c2t_len == 0) refl)
    where
      go :
          (b : Bool)
          → (w.state.c2t_len == 0) ≡ b
          → Carried
              (wire w)
              (wire (
                if not b
                then update_relay_interests w
                else read_relay env (env.recv server_buffer_size) w))
              (if b then bytes_of (env.recv server_buffer_size) else [])
              []
      go true e =
          Carried-read_relay (env.recv server_buffer_size) w h ((==_iff w.state.c2t_len 0).0 e)
            (bytes_of-fits (env.recv server_buffer_size) refl)
      go false e = Carried-quiet (wire-update_relay_interests w) (Carried-none (wire w) h)

  pub Carried-target_read :
      (w : World)
      → IsReady (wire w)
      → Carried (wire w) (wire (target_read env w)) [] (target_input env w)
  unfolding target_read
  Carried-target_read w h = go (w.state.t2c_len == 0) refl
    where
      go :
          (b : Bool)
          → (w.state.t2c_len == 0) ≡ b
          → Carried
              (wire w)
              (wire (
                if not b
                then update_relay_interests w
                else read_target env (env.recv server_buffer_size) w))
              []
              (if b then bytes_of (env.recv server_buffer_size) else [])
      go true e =
          Carried-read_target (env.recv server_buffer_size) w h ((==_iff w.state.t2c_len 0).0 e)
            (bytes_of-fits (env.recv server_buffer_size) refl)
      go false e = Carried-quiet (wire-update_relay_interests w) (Carried-none (wire w) h)
