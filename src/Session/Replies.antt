-- ===== src/Session/Replies.antt =====
-- What a client is told: the method when no users are configured, and the reply when a host name has
-- no usable address.
use protos_tpe_g.Prelude.{
  ℕ, ◌+◌, ◌≡◌, refl, ap, ◌∙◌, Bool, true, false, ◌||◌, if_lem, some, List, [], ◌∷◌, arith, drop,
}
use protos_tpe_g.Socks5.{byte_at, method_username_password, reply_success, request_response}
use protos_tpe_g.Users.{Table, users_count, users_are_configured, users_credentials_are_valid}
use protos_tpe_g.Auth.{auth_is_required, auth_parse_request}
use protos_tpe_g.Metrics.{connection_failed}
use protos_tpe_g.Session.Defs.{
  World, closing, no_error, AddrInfo, gai_success, op_write, prepare, set_stage,
}
use protos_tpe_g.Session.Env.{Env, reply_for_errno, is_inet}
use protos_tpe_g.Session.Client.{choose_method}
use protos_tpe_g.Session.Target.{
  log_connection, is_nil, set_current, start_next, fail_request, await_or_fail, set_addresses,
  resolved,
}
use protos_tpe_g.Session.Relay.{Wire, wire-set_interest}

no_users-credentials :
    (users : Table) (u p : List ℕ) (ul pl : ℕ)
    → users_count users ≡ 0
    → users_credentials_are_valid users u ul p pl ≡ false
unfolding users_count users_credentials_are_valid
no_users-credentials [] u p ul pl h = refl
no_users-credentials (user ∷ users) u p ul pl h =
    ground (arith, no_users-credentials users u p ul pl)

-- With no users configured, a client that offers the user name method is told to use it, whatever
-- else it offers, and no message that it may send then authenticates it.
pub choose_method-no_users :
    (users : Table) (offers_no_auth : Bool) (buffer : List ℕ) (len : ℕ)
    → users_are_configured users ≡ false
    → (choose_method true offers_no_auth (auth_is_required users) ≡ method_username_password)
      × ((auth_parse_request users buffer len).authenticated ≡ false)
unfolding choose_method users_are_configured auth_parse_request
choose_method-no_users users o buffer len h =
    let none_used : users_count users ≡ 0 = ground arith in
    let ul = byte_at buffer 1 in
    let pl = byte_at buffer (2 + ul) in
    (
      refl,
      ground (
        arith,
        no_users-credentials users (drop 2 buffer) (drop (2 + ul + 1) buffer) ul pl none_used,
      ),
    )

-- No address has a family that the program connects to.
abbrev pub NoInet : List AddrInfo → Type 0
NoInet [] = Unit
NoInet (a ∷ as') = (is_inet a.family ≡ false) × NoInet as'

start_next-NoInet :
    (env : Env) (k : ℕ) (as' : List AddrInfo) (w : World)
    → NoInet as'
    → ((start_next env k as' w).0 ≡ false)
      × ((start_next env k as' w).1.state.last_connect_error ≡ w.state.last_connect_error)
unfolding start_next
start_next-NoInet env k [] w h = (refl, refl)
start_next-NoInet env k (a ∷ rest) w h =
    rw (h.0, start_next) (start_next-NoInet env k rest (set_current rest w) h.1)

await_or_fail-false :
    (fd : ℕ) (r : Bool × World)
    → r.0 ≡ false
    → await_or_fail fd r ≡ fail_request fd (reply_for_errno r.1.state.last_connect_error) r.1
await_or_fail-false fd (true, w) h = absurd (cc)
await_or_fail-false fd (false, w) h = refl

buffer-log_connection :
    (success : Bool) (w : World)
    → (log_connection success w).state.write_buffer ≡ w.state.write_buffer
unfolding log_connection
buffer-log_connection success w =
    if_lem (λ (v : World). v.state.write_buffer ≡ w.state.write_buffer)
      (w.state.access_logged || is_nil w.state.destination_host) (λ _. refl) (λ _. refl)

-- What a failed request leaves: the reply at its place in the buffer, and the last stage.
fail_request_leaves :
    (fd reply : ℕ) (w : World)
    → ((fail_request fd reply w).state.stage ≡ closing)
      × (byte_at (fail_request fd reply w).state.write_buffer 1 ≡ reply)
fail_request_leaves fd reply w =
    let v = prepare (request_response reply) w in
    let u : World = record v { metrics = connection_failed v.metrics } in
    let t : World = set_stage closing (log_connection false u) in
    (
      ap (λ (x : Wire). x.stage) (wire-set_interest fd op_write t),
      ap (λ (x : Wire). byte_at x.write_buffer 1) (wire-set_interest fd op_write t)
          ∙ ap (λ b. byte_at b 1) (buffer-log_connection false u),
    )

-- If every address that a host name resolves to has a family other than the two that the program
-- connects to, and no connection was tried before, the client is told of success while the
-- connection goes to its last stage.
pub resolved-NoInet :
    (env : Env) (fd : ℕ) (as' : List AddrInfo) (w : World)
    → NoInet as'
    → w.state.last_connect_error ≡ no_error
    → ((resolved env fd gai_success (some as') w).state.stage ≡ closing)
      × (byte_at (resolved env fd gai_success (some as') w).state.write_buffer 1 ≡ reply_success)
unfolding reply_for_errno
resolved-NoInet env fd as' w h e =
    let r = start_next env 0 as' (set_addresses as' w) in
    let (stuck, kept) = start_next-NoInet env 0 as' (set_addresses as' w) h in
    let same = await_or_fail-false fd r stuck in
    let (stage, reply) =
      fail_request_leaves fd (reply_for_errno r.1.state.last_connect_error) r.1 in
    (
      ap (λ (v : World). v.state.stage) same ∙ stage,
      ap (λ (v : World). byte_at v.state.write_buffer 1) same
          ∙ (reply ∙ ap reply_for_errno (kept ∙ e)),
    )
