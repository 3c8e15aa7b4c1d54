-- ===== src/Session/Relay/Carried.antt =====
-- The two streams of a connection that relays, and what one operation carries over.
use protos_tpe_g.Prelude.{
  ℕ, ◌+◌, ◌-◌, ◌%◌, ◌^◌, ◌≤◌, ◌<◌, ◌≡◌, ◌∙◌, refl, ap, sym, List, [], ◌++◌, append-nil,
  append_assoc, arith, length, length-append, length-drop, length-take, take, drop, take-append,
}
use protos_tpe_g.Session.Defs.{relay, server_buffer_size, write_at}
use protos_tpe_g.Session.Flush.{Flush}
use protos_tpe_g.Session.Sending.{left, Sent}
use protos_tpe_g.Session.Relay.{Wire}

-- What has gone to the target or waits for it, and to the client: replies before relayed bytes.
abbrev pub upstream : Wire → List ℕ
upstream x = x.to_target ++ left x.c2t_buffer x.c2t_len x.c2t_off

abbrev pub downstream : Wire → List ℕ
downstream x =
    (x.to_client ++ left x.write_buffer x.write_len x.write_off)
    ++ left x.t2c_buffer x.t2c_len x.t2c_off

pub record IsReady (x : Wire) : Type 0 where
  pub relaying : x.stage ≡ relay
  pub c2t_size : length x.c2t_buffer ≡ server_buffer_size
  pub c2t_fits : x.c2t_len ≤ server_buffer_size
  pub c2t_sent : x.c2t_off ≤ x.c2t_len
  pub t2c_size : length x.t2c_buffer ≡ server_buffer_size
  pub t2c_fits : x.t2c_len ≤ server_buffer_size
  pub t2c_sent : x.t2c_off ≤ x.t2c_len
  pub write_size : length x.write_buffer ≡ server_buffer_size
  pub write_fits : x.write_len ≤ server_buffer_size
  pub write_sent : x.write_off ≤ x.write_len
  pub counter_up : x.bytes_client_to_target < 2 ^ 64
  pub counter_down : x.bytes_target_to_client < 2 ^ 64

-- From `x` to `y`, with `up` read from the client and `down` from the target.
pub record Carried (x y : Wire) (up down : List ℕ) : Type 0 where
  pub ready : IsReady y
  pub up_kept : upstream y ≡ upstream x ++ up
  pub down_kept : downstream y ≡ downstream x ++ down
  pub sent_up : ℕ
  pub to_target_grows : length y.to_target ≡ length x.to_target + sent_up
  pub up_counted : y.bytes_client_to_target ≡ (x.bytes_client_to_target + sent_up) % 2 ^ 64
  pub sent_down : ℕ
  pub down_moves :
      sent_down + length (left y.t2c_buffer y.t2c_len y.t2c_off)
      ≡ length (left x.t2c_buffer x.t2c_len x.t2c_off) + length down
  pub down_counted : y.bytes_target_to_client ≡ (x.bytes_target_to_client + sent_down) % 2 ^ 64

pub Carried-none : (x : Wire) → IsReady x → Carried x x [] []
Carried-none x r = record {
  ready = r;
  up_kept = sym (append-nil (upstream x));
  down_kept = sym (append-nil (downstream x));
  sent_up = 0;
  to_target_grows = omega arith;
  up_counted = omega (arith, r.counter_up);
  sent_down = 0;
  down_moves = omega arith;
  down_counted = omega (arith, r.counter_down);
}

pub Carried-trans :
    {x y z : Wire} {u d u' d' : List ℕ}
    → Carried x y u d
    → Carried y z u' d'
    → Carried x z (u ++ u') (d ++ d')
Carried-trans {x} {y} {z} {u} {d} {u'} {d'} p q = record {
  ready = q.ready;
  up_kept = q.up_kept ∙ (ap (λ r. r ++ u') p.up_kept ∙ append_assoc (upstream x) u u');
  down_kept = q.down_kept ∙ (ap (λ r. r ++ d') p.down_kept ∙ append_assoc (downstream x) d d');
  sent_up = p.sent_up + q.sent_up;
  to_target_grows = omega (arith, p.to_target_grows, q.to_target_grows);
  up_counted = omega (arith, p.up_counted, q.up_counted);
  sent_down = p.sent_down + q.sent_down;
  down_moves = omega (arith, p.down_moves, q.down_moves, length-append d d');
  down_counted = omega (arith, p.down_counted, q.down_counted);
}

-- A change that leaves both streams and the counter as they were.
pub Carried-same :
    (x y : Wire)
    → IsReady x
    → IsReady y
    → upstream y ≡ upstream x
    → downstream y ≡ downstream x
    → y.to_target ≡ x.to_target
    → y.bytes_client_to_target ≡ x.bytes_client_to_target
    → y.bytes_target_to_client ≡ x.bytes_target_to_client
    → left y.t2c_buffer y.t2c_len y.t2c_off ≡ left x.t2c_buffer x.t2c_len x.t2c_off
    → Carried x y [] []
Carried-same x y r s u d t c c' l = record {
  ready = s;
  up_kept = u ∙ sym (append-nil (upstream x));
  down_kept = d ∙ sym (append-nil (downstream x));
  sent_up = 0;
  to_target_grows = omega (arith, ap length t);
  up_counted = omega (arith, r.counter_up);
  sent_down = 0;
  down_moves = omega (arith, ap length l);
  down_counted = omega (arith, r.counter_down);
}

length-left :
    (buffer : List ℕ) (len off : ℕ) → len ≤ length buffer → length (left buffer len off) ≡ len - off
length-left buffer len off h =
    omega (arith, length-take (len - off) (drop off buffer), length-drop off buffer)

-- How many bytes a loop has sent, by its offsets.
length-out :
    (buffer : List ℕ) (len off counter : ℕ) (f : Flush)
    → len ≤ length buffer
    → Sent buffer len off [] counter f
    → length f.out ≡ f.off - off
length-out buffer len off counter f h s = omega (
  arith,
  ap length s.bytes,
  length-append f.out (left buffer len f.off),
  length-left buffer len f.off h,
  length-left buffer len off h,
  s.forward,
  s.within,
)

left_end : (buffer : List ℕ) (len off : ℕ) → off ≡ len → left buffer len off ≡ []
left_end buffer len off e =
    let none_left : len - off ≡ 0 = omega arith in ap (λ k. take k (drop off buffer)) none_left

-- The loop of `target_write`.
pub Carried-target_loop :
    (x : Wire) (f : Flush)
    → IsReady x
    → Sent x.c2t_buffer x.c2t_len x.c2t_off [] x.bytes_client_to_target f
    → Carried x
        (record x {
          c2t_off = f.off;
          to_target = x.to_target ++ f.out;
          bytes_client_to_target = f.counter;
        })
        []
        []
Carried-target_loop x f r s = record {
  ready = ground (arith, s.counted);
  up_kept =
      append_assoc x.to_target f.out (left x.c2t_buffer x.c2t_len f.off)
      ∙ (ap (λ t. x.to_target ++ t) s.bytes ∙ sym (append-nil (upstream x)));
  down_kept = sym (append-nil (downstream x));
  sent_up = f.off - x.c2t_off;
  to_target_grows = omega (
    arith,
    length-append x.to_target f.out,
    length-out x.c2t_buffer x.c2t_len x.c2t_off x.bytes_client_to_target f (omega arith) s,
  );
  up_counted = s.counted;
  sent_down = 0;
  down_moves = omega arith;
  down_counted = omega (arith, r.counter_down);
}

-- The second loop of `client_write`, with no reply left in front of the relayed bytes.
pub Carried-client_loop :
    (x : Wire) (f : Flush)
    → IsReady x
    → x.write_len ≡ 0
    → Sent x.t2c_buffer x.t2c_len x.t2c_off [] x.bytes_target_to_client f
    → Carried x
        (record x {
          t2c_off = f.off;
          to_client = x.to_client ++ f.out;
          bytes_target_to_client = f.counter;
        })
        []
        []
Carried-client_loop x f r z s = record {
  ready = ground (arith, s.counted);
  up_kept = sym (append-nil (upstream x));
  down_kept =
      ap (λ l. ((x.to_client ++ f.out) ++ l) ++ left x.t2c_buffer x.t2c_len f.off) no_reply
      ∙ (ap (λ l. l ++ left x.t2c_buffer x.t2c_len f.off) (append-nil (x.to_client ++ f.out))
          ∙ (append_assoc x.to_client f.out (left x.t2c_buffer x.t2c_len f.off)
              ∙ (ap (λ t. x.to_client ++ t) s.bytes
                  ∙ (ap (λ l. l ++ left x.t2c_buffer x.t2c_len x.t2c_off)
                        (sym (append-nil x.to_client) ∙ ap (λ l. x.to_client ++ l) (sym no_reply))
                      ∙ sym (append-nil (downstream x))))));
  sent_up = 0;
  to_target_grows = omega arith;
  up_counted = omega (arith, r.counter_up);
  sent_down = f.off - x.t2c_off;
  down_moves = omega (
    arith,
    length-left x.t2c_buffer x.t2c_len f.off (omega arith),
    length-left x.t2c_buffer x.t2c_len x.t2c_off (omega arith),
    s.forward,
    s.within,
  );
  down_counted = s.counted;
}
  where
    no_reply : left x.write_buffer x.write_len x.write_off ≡ []
    no_reply = left_end x.write_buffer x.write_len x.write_off (omega arith)

-- The first loop of `client_write`.
pub Carried-response_loop :
    (x : Wire) (f : Flush) (counter : ℕ)
    → IsReady x
    → Sent x.write_buffer x.write_len x.write_off [] counter f
    → Carried x (record x { write_off = f.off; to_client = x.to_client ++ f.out }) [] []
Carried-response_loop x f counter r s =
    Carried-same x (record x { write_off = f.off; to_client = x.to_client ++ f.out }) r
      (ground arith) refl
      (ap (λ l. l ++ left x.t2c_buffer x.t2c_len x.t2c_off)
        (append_assoc x.to_client f.out (left x.write_buffer x.write_len f.off)
          ∙ ap (λ l. x.to_client ++ l) s.bytes))
      refl refl refl refl

-- A buffer that has been sent whole is emptied.
pub Carried-clear_c2t :
    (x : Wire)
    → IsReady x
    → x.c2t_off ≡ x.c2t_len
    → Carried x (record x { c2t_len = 0; c2t_off = 0 }) [] []
Carried-clear_c2t x r e =
    Carried-same x (record x { c2t_len = 0; c2t_off = 0 }) r (ground arith)
      (ap (λ l. x.to_target ++ l) (sym (left_end x.c2t_buffer x.c2t_len x.c2t_off e))) refl refl
      refl refl refl

pub Carried-clear_t2c :
    (x : Wire)
    → IsReady x
    → x.t2c_off ≡ x.t2c_len
    → Carried x (record x { t2c_len = 0; t2c_off = 0 }) [] []
Carried-clear_t2c x r e =
    Carried-same x (record x { t2c_len = 0; t2c_off = 0 }) r (ground arith) refl
      (ap (λ l. (x.to_client ++ left x.write_buffer x.write_len x.write_off) ++ l)
        (sym (left_end x.t2c_buffer x.t2c_len x.t2c_off e)))
      refl refl refl (sym (left_end x.t2c_buffer x.t2c_len x.t2c_off e))

pub Carried-clear_response :
    (x : Wire)
    → IsReady x
    → x.write_off ≡ x.write_len
    → Carried x (record x { write_len = 0; write_off = 0 }) [] []
Carried-clear_response x r e =
    Carried-same x (record x { write_len = 0; write_off = 0 }) r (ground arith) refl
      (ap (λ l. (x.to_client ++ l) ++ left x.t2c_buffer x.t2c_len x.t2c_off)
        (sym (left_end x.write_buffer x.write_len x.write_off e)))
      refl refl refl refl

write_at_front :
    (buffer bytes : List ℕ)
    → length bytes ≤ length buffer
    → (length (write_at buffer 0 bytes) ≡ length buffer)
      × (left (write_at buffer 0 bytes) (length bytes) 0 ≡ bytes)
write_at_front buffer bytes h = (
  omega (
    arith,
    length-append bytes (drop (0 + length bytes) buffer),
    length-drop (0 + length bytes) buffer,
  ),
  (let whole : length bytes - 0 ≡ length bytes = omega arith in
      ap (λ k. take k (write_at buffer 0 bytes)) whole
      ∙ take-append bytes (drop (0 + length bytes) buffer)),
)

-- Bytes read from the client into the empty buffer.
pub Carried-fill_c2t :
    (x : Wire) (bytes : List ℕ)
    → IsReady x
    → x.c2t_len ≡ 0
    → length bytes ≤ server_buffer_size
    → Carried x
        (record x {
          c2t_buffer = write_at x.c2t_buffer 0 bytes;
          c2t_len = length bytes;
          c2t_off = 0;
        })
        bytes
        []
Carried-fill_c2t x bytes r z h = record {
  ready = ground (arith, written.0);
  up_kept =
      ap (λ l. x.to_target ++ l) written.1
      ∙ ap (λ l. l ++ bytes)
          (sym (append-nil x.to_target)
            ∙ ap (λ l. x.to_target ++ l)
                (sym (left_end x.c2t_buffer x.c2t_len x.c2t_off (omega arith))));
  down_kept = sym (append-nil (downstream x));
  sent_up = 0;
  to_target_grows = omega arith;
  up_counted = omega (arith, r.counter_up);
  sent_down = 0;
  down_moves = omega arith;
  down_counted = omega (arith, r.counter_down);
}
  where
    written :
        (length (write_at x.c2t_buffer 0 bytes) ≡ length x.c2t_buffer)
        × (left (write_at x.c2t_buffer 0 bytes) (length bytes) 0 ≡ bytes)
    written = write_at_front x.c2t_buffer bytes (omega arith)

-- Bytes read from the target into the empty buffer.
pub Carried-fill_t2c :
    (x : Wire) (bytes : List ℕ)
    → IsReady x
    → x.t2c_len ≡ 0
    → length bytes ≤ server_buffer_size
    → Carried x
        (record x {
          t2c_buffer = write_at x.t2c_buffer 0 bytes;
          t2c_len = length bytes;
          t2c_off = 0;
        })
        []
        bytes
Carried-fill_t2c x bytes r z h = record {
  ready = ground (arith, written.0);
  up_kept = sym (append-nil (upstream x));
  down_kept =
      ap (λ l. (x.to_client ++ left x.write_buffer x.write_len x.write_off) ++ l) written.1
      ∙ ap (λ l. l ++ bytes)
          (sym (append-nil (x.to_client ++ left x.write_buffer x.write_len x.write_off))
            ∙ ap (λ l. (x.to_client ++ left x.write_buffer x.write_len x.write_off) ++ l)
                (sym (left_end x.t2c_buffer x.t2c_len x.t2c_off (omega arith))));
  sent_up = 0;
  to_target_grows = omega arith;
  up_counted = omega (arith, r.counter_up);
  sent_down = 0;
  down_moves = omega (
    arith,
    ap length written.1,
    ap length (left_end x.t2c_buffer x.t2c_len x.t2c_off (omega arith)),
  );
  down_counted = omega (arith, r.counter_down);
}
  where
    written :
        (length (write_at x.t2c_buffer 0 bytes) ≡ length x.t2c_buffer)
        × (left (write_at x.t2c_buffer 0 bytes) (length bytes) 0 ≡ bytes)
    written = write_at_front x.t2c_buffer bytes (omega arith)
