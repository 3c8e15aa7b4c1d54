-- ===== src/Session/Guard/Handshake.antt =====
-- The greeting and the sub-negotiation, and what is known of the user after them.
use protos_tpe_g.Prelude.{
  ℕ, ◌≡◌, ◌≢◌, refl, ap, sym, subst, ◌∙◌, ◌+◌, Bool, true, false, not, ◌==◌, ltb, if◌then◌else◌,
  if_lem, Option, none, some, List, Bool-cases, inl, inr, take, drop,
}
use protos_tpe_g.Socks5.{
  byte_at, socks5_version, auth_version, greeting_response, auth_response, auth_success,
  auth_failure, client_offers_username_password, client_offers_no_auth,
}
use protos_tpe_g.Users.{Table, users_are_configured, users_credentials_are_valid}
use protos_tpe_g.Users.View.{password_of, Distinct}
use protos_tpe_g.Users.Refine.{credentials_sound}
use protos_tpe_g.Auth.{auth_is_required, auth_parse_request, check_credentials}
use protos_tpe_g.Auth
use protos_tpe_g.Session.Defs.{
  World, Stage, greeting, auth, request, resolving, connecting, relay, closing, op_write,
  set_interest, set_stage, set_read_len, prepare,
}
use protos_tpe_g.Session.Flush.{would_block}
use protos_tpe_g.Session.Close.{unregister, close_connection}
use protos_tpe_g.Session.Env.{Env}
use protos_tpe_g.Session.Client.{
  handshake, read_greeting, read_auth, choose_method, stage_of_method, keep_username,
  unexpected_bytes,
}
use protos_tpe_g.Session.Guard.{
  who, is_served, who-set_interest, who-unregister, who-close_connection,
}
use protos_tpe_g.Session.Guard.Served.{Guarded, same, unserved, Guarded-read_request}

-- What a parsed message says, if it is granted.
record Granted (users : Table) (o : Auth.Outcome) : Type 0 where
  name : List ℕ
  stored : o.username ≡ some name
  known : password_of users name ≢ none

abbrev Sound : Table → Auth.Outcome → Type 0
Sound users o = o.authenticated ≡ true → Granted users o

some-none : {o : Option (List ℕ)} {v : List ℕ} → o ≡ some v → o ≢ none
some-none e h = cc

Sound-check_credentials :
    (users : Table) (buffer : List ℕ) (ul pl : ℕ)
    → Distinct users
    → Sound users (check_credentials users buffer ul pl)
Sound-check_credentials users buffer ul pl d =
    if_lem (Sound users)
      (users_credentials_are_valid users (drop 2 buffer) ul (drop (2 + ul + 1) buffer) pl)
      (λ e h. record {
        name = take ul (drop 2 buffer);
        stored = refl;
        known =
            some-none
              (credentials_sound (drop 2 buffer) (drop (2 + ul + 1) buffer) ul pl users d e);
      })
      (λ _ h. absurd (cc))

Sound-auth_parse_request :
    (users : Table) (buffer : List ℕ) (len : ℕ)
    → Distinct users
    → Sound users (auth_parse_request users buffer len)
unfolding auth_parse_request
Sound-auth_parse_request users buffer len d =
    let ul = byte_at buffer 1 in
    let pl = byte_at buffer (2 + ul) in
    if_lem (Sound users) (ltb len 2) (λ _ h. absurd (cc))
      λ _.
        if_lem (Sound users) (not (byte_at buffer 0 == auth_version)) (λ _ h. absurd (cc))
          λ _.
            if_lem (Sound users) (ltb len (2 + ul + 1)) (λ _ h. absurd (cc))
              λ _.
                if_lem (Sound users) (ltb len (2 + ul + 1 + pl)) (λ _ h. absurd (cc))
                  (λ _. Sound-check_credentials users buffer ul pl d)

users-keep_username : (o : Option (List ℕ)) (w : World) → (keep_username o w).users ≡ w.users
users-keep_username none w = refl
users-keep_username (some name) w = refl

-- Where there are users, the method is never the one without authentication.
choose_method-required : (p n : Bool) → is_served (stage_of_method (choose_method p n true)) ≡ false
unfolding choose_method
choose_method-required true n = refl
choose_method-required false n = refl

module _ (users : Table) (configured : users_are_configured users ≡ true) (d : Distinct users) where
  Guarded-read_greeting :
      (fd : ℕ) (w : World) → Guarded users (who w) → Guarded users (who (read_greeting fd w))
  unfolding read_greeting auth_is_required
  Guarded-read_greeting fd w g =
      let b = w.state.read_buffer in
      let n = byte_at b 1 in
      let p = client_offers_username_password (drop 2 b) n in
      let q = client_offers_no_auth (drop 2 b) n in
      let method = choose_method p q (auth_is_required w.users) in
      let required : auth_is_required w.users ≡ true =
        ap (λ t. users_are_configured t) g.same_users ∙ configured in
      let u : World =
        set_read_len 0
          (set_stage (stage_of_method method) (prepare (greeting_response method) w)) in
      if_lem (λ v. Guarded users (who v)) (ltb w.state.read_len 2) (λ _. g)
        λ _.
          if_lem (λ v. Guarded users (who v)) (not (byte_at b 0 == socks5_version))
            (λ _. same users w (unregister w fd).1 (who-unregister w fd) g)
            (λ _.
              if_lem (λ v. Guarded users (who v)) (ltb w.state.read_len (2 + n)) (λ _. g)
                (λ _. same users u (set_interest fd op_write u) (who-set_interest fd op_write u) (
                  unserved users u g.same_users (
                    ap (λ r. is_served (stage_of_method (choose_method p q r))) required
                    ∙ choose_method-required p q))))

  Guarded-answered :
      (o : Auth.Outcome) (w : World)
      → Sound users o
      → w.users ≡ users
      → Guarded users (
          who
            (set_stage (if o.authenticated then request else closing) (keep_username o.username w)))
  Guarded-answered o w s e = elim (Bool-cases o.authenticated) [
    | inl a ↦
        let r = s a in
        record {
          same_users = users-keep_username o.username w ∙ e;
          known = λ _.
              subst (λ x. password_of users (keep_username x w).state.username ≢ none)
                (sym r.stored) r.known;
        }
    | inr a ↦
        unserved users
          (set_stage (if o.authenticated then request else closing) (keep_username o.username w))
          (users-keep_username o.username w ∙ e)
          (ap (λ b. is_served (if b then request else closing)) a)
  ]

  Guarded-read_auth :
      (fd : ℕ) (w : World) → Guarded users (who w) → Guarded users (who (read_auth fd w))
  unfolding read_auth
  Guarded-read_auth fd w g =
      let o = auth_parse_request w.users w.state.read_buffer w.state.read_len in
      let s = if o.authenticated then request else closing in
      let u : World = set_read_len 0 (
        set_stage s (
          prepare (auth_response (if o.authenticated then auth_success else auth_failure))
            (keep_username o.username w))) in
      let sound : Sound users o =
        subst (λ t. Sound users (auth_parse_request t w.state.read_buffer w.state.read_len))
          (sym g.same_users)
          (Sound-auth_parse_request users w.state.read_buffer w.state.read_len d) in
      if_lem (λ v. Guarded users (who v)) (not o.complete) (λ _. g)
        (λ _.
          same users u (set_interest fd op_write u) (who-set_interest fd op_write u)
            (Guarded-answered o w sound g.same_users))

  pub Guarded-unexpected_bytes :
      (env : Env) (w : World) → Guarded users (who w) → Guarded users (who (unexpected_bytes env w))
  Guarded-unexpected_bytes env w g =
      if_lem (λ v. Guarded users (who v)) (would_block env.stale_errno) (λ _. g)
        (λ _. same users w (close_connection w) (who-close_connection w) g)

  pub Guarded-handshake :
      (s : Stage) (env : Env) (fd : ℕ) (w : World)
      → w.state.stage ≡ s
      → Guarded users (who w)
      → Guarded users (who (handshake s env fd w))
  Guarded-handshake greeting env fd w e g = Guarded-read_greeting fd w g
  Guarded-handshake auth env fd w e g = Guarded-read_auth fd w g
  Guarded-handshake request env fd w e g = Guarded-read_request users env fd w (ap is_served e) g
  Guarded-handshake resolving env fd w e g = Guarded-unexpected_bytes env w g
  Guarded-handshake connecting env fd w e g = Guarded-unexpected_bytes env w g
  Guarded-handshake relay env fd w e g = Guarded-unexpected_bytes env w g
  Guarded-handshake closing env fd w e g = Guarded-unexpected_bytes env w g
