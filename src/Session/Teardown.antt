-- ===== src/Session/Teardown.antt =====
-- Closing a connection: src/server/client_session.c, with `selector_unregister_fd`.
pub mod Depth
use protos_tpe_g.Prelude.{
  ℕ, suc, ==_self, ◌≡◌, ◌≢◌, ◌⊎◌, ◌∙◌, refl, ap, sym, subst, Bool, true, false, if◌then◌else◌,
  if_lem, Option, none, some, List, [], ◌∷◌, ◌++◌, arith, inl, inr,
}
use protos_tpe_g.Metrics.{connection_closed}
use protos_tpe_g.Session.Defs.{
  World, Handler, client_handler, target_handler, Registration, Interest, update, Registry,
  AddrInfo,
}
use protos_tpe_g.Session.Close.{
  close_fd, holds, set_client_fd, set_target_fd, free_addresses_of, detach_resolver, dec_active,
  release, close_target_if, close_any_target, handle_close, forget, unregister_entry, unregister_to,
  unregister, close_either, close_connection,
}

abbrev pub fds : Option ℕ → List ℕ
fds none = []
fds (some fd) = fd ∷ []

-- The registration of the target's descriptor, if there is one, apart from the client's.
abbrev pub TargetRegistered : Option ℕ → ℕ → Registry → Type 0
TargetRegistered none c registry = Unit
TargetRegistered (some t) c registry =
    (i : Interest) × (registry t ≡ some (record { handler = target_handler; interest = i }))
    × (t ≢ c)

-- Client `c` and target `t` are registered with their handlers.
pub record IsOpen (w : World) (c : ℕ) (t : Option ℕ) : Type 0 where
  pub client_open : w.state.client_fd ≡ some c
  pub target_open : w.state.target_fd ≡ t
  pub interest : Interest
  pub client_registered :
      w.registry c ≡ some (record { handler = client_handler; interest = interest })
  pub target_registered : TargetRegistered t c w.registry

abbrev pub without : Option ℕ → Registry → Registry
without none r = r
without (some t) r = update r t none

-- Each descriptor is closed once, in order, and no longer registered, the state is freed once, the
-- gauge and the count of connections go down, and the state owns nothing any more.
pub record Torn (w : World) (c : ℕ) (t : Option ℕ) (v : World) : Type 0 where
  pub closed : v.closed ≡ c ∷ (fds t ++ w.closed)
  pub registry : v.registry ≡ update (without t w.registry) c none
  pub frees : v.frees ≡ suc w.frees
  pub metrics : v.metrics ≡ connection_closed w.metrics
  pub active : v.active ≡ dec_active w.active
  pub no_client : v.state.client_fd ≡ none
  pub no_target : v.state.target_fd ≡ none
  pub no_addresses : v.state.target_addresses ≡ none
  pub no_resolver : v.state.resolver_job ≡ none

-- `release` keeps the descriptors and the registrations.
record Released (w v : World) : Type 0 where
  closed : v.closed ≡ w.closed
  registry : v.registry ≡ w.registry
  frees : v.frees ≡ suc w.frees
  metrics : v.metrics ≡ connection_closed w.metrics
  active : v.active ≡ dec_active w.active
  same_client : v.state.client_fd ≡ w.state.client_fd
  same_target : v.state.target_fd ≡ w.state.target_fd
  no_addresses : v.state.target_addresses ≡ none
  no_resolver : v.state.resolver_job ≡ none

release-Released : (w : World) → Released w (release w)
release-Released w = go w.state.target_addresses refl
  where
    go :
        (a : Option (List AddrInfo))
        → w.state.target_addresses ≡ a
        → Released w (
            let v = free_addresses_of a (detach_resolver w) in
            record v {
              metrics = connection_closed v.metrics;
              active = dec_active v.active;
              frees = suc v.frees;
            })
    go none e = record {
      closed = refl;
      registry = refl;
      frees = refl;
      metrics = refl;
      active = refl;
      same_client = refl;
      same_target = refl;
      no_addresses = e;
      no_resolver = refl;
    }
    go (some a) e = record {
      closed = refl;
      registry = refl;
      frees = refl;
      metrics = refl;
      active = refl;
      same_client = refl;
      same_target = refl;
      no_addresses = refl;
      no_resolver = refl;
    }

-- What letting go of the target leaves.
record Dropped (w : World) (t : Option ℕ) (v : World) : Type 0 where
  closed : v.closed ≡ fds t ++ w.closed
  registry : v.registry ≡ without t w.registry
  frees : v.frees ≡ w.frees
  metrics : v.metrics ≡ w.metrics
  active : v.active ≡ w.active
  same_client : v.state.client_fd ≡ w.state.client_fd
  no_target : v.state.target_fd ≡ none

pub unregister_to-entry :
    (depth : ℕ) (w : World) (fd : ℕ) (r : Option Registration)
    → w.registry fd ≡ r
    → unregister_to (suc depth) w fd ≡ unregister_entry (unregister_to depth) r fd w
unfolding unregister_to
unregister_to-entry depth w fd r e = ap (λ o. unregister_entry (unregister_to depth) o fd w) e

close_target-Dropped :
    (depth c : ℕ) (t : Option ℕ) (w : World)
    → w.state.target_fd ≡ t
    → TargetRegistered t c w.registry
    → Dropped w t (close_target_if (unregister_to (suc depth)) t w)
close_target-Dropped depth c none w e r = record {
  closed = refl;
  registry = refl;
  frees = refl;
  metrics = refl;
  active = refl;
  same_client = refl;
  no_target = e;
}
close_target-Dropped depth c (some t) w e (i, r, ne) =
    rw
      (unregister_to-entry depth (set_target_fd none w) t
        (some (record { handler = target_handler; interest = i })) r)
      (record {
        closed = refl;
        registry = refl;
        frees = refl;
        metrics = refl;
        active = refl;
        same_client = refl;
        no_target = refl;
      })

-- A state that has forgotten its client's descriptor.
record Disowned (w v : World) : Type 0 where
  closed : v.closed ≡ w.closed
  registry : v.registry ≡ w.registry
  frees : v.frees ≡ w.frees
  metrics : v.metrics ≡ w.metrics
  active : v.active ≡ w.active
  no_client : v.state.client_fd ≡ none
  same_target : v.state.target_fd ≡ w.state.target_fd

Disowned-forgotten : (w : World) → Disowned w (set_client_fd none w)
Disowned-forgotten w = record {
  closed = refl;
  registry = refl;
  frees = refl;
  metrics = refl;
  active = refl;
  no_client = refl;
  same_target = refl;
}

-- The state's own descriptor is the one that is closed, or is forgotten already.
abbrev Own : ℕ → Option ℕ → Type 0
Own c o = (o ≡ none) ⊎ (o ≡ some c)

fd_apart : (c : ℕ) (o : Option ℕ) → Own c o → holds o c ≡ false → o ≡ none
fd_apart c none p h = refl
fd_apart c (some f) p h = ground (arith, ==_self c)

disowned :
    (c : ℕ) (w : World)
    → Own c w.state.client_fd
    → Disowned w (if holds w.state.client_fd c then set_client_fd none w else w)
disowned c w own =
    if_lem (λ v. Disowned w v) (holds w.state.client_fd c) (λ _. Disowned-forgotten w)
      λ other. record {
        closed = refl;
        registry = refl;
        frees = refl;
        metrics = refl;
        active = refl;
        no_client = fd_apart c w.state.client_fd own other;
        same_target = refl;
      }

-- `client_close` behind the state's own descriptor.
close_rest-Torn :
    (c : ℕ) (t : Option ℕ) (w v : World)
    → Disowned w v
    → v.state.target_fd ≡ t
    → TargetRegistered t c v.registry
    → Torn w c t (forget c (close_fd c (release (close_any_target (unregister_to 1) v))))
close_rest-Torn c t w v d e r = record {
  closed = ap (λ l. c ∷ l) (rel.closed ∙ (drop.closed ∙ ap (λ l. fds t ++ l) d.closed));
  registry = ap (λ g. update g c none) (rel.registry ∙ (drop.registry ∙ ap (without t) d.registry));
  frees = rel.frees ∙ ap suc (drop.frees ∙ d.frees);
  metrics = rel.metrics ∙ ap connection_closed (drop.metrics ∙ d.metrics);
  active = rel.active ∙ ap dec_active (drop.active ∙ d.active);
  no_client = rel.same_client ∙ (drop.same_client ∙ d.no_client);
  no_target = rel.same_target ∙ drop.no_target;
  no_addresses = rel.no_addresses;
  no_resolver = rel.no_resolver;
}
  where
    drop : Dropped v t (close_any_target (unregister_to 1) v)
    drop =
        subst (λ o. Dropped v t (close_target_if (unregister_to 1) o v)) (sym e)
          (close_target-Dropped 0 c t v e r)

    rel :
        Released
          (close_any_target (unregister_to 1) v)
          (release (close_any_target (unregister_to 1) v))
    rel = release-Released (close_any_target (unregister_to 1) v)

unregister-Torn_of :
    (c : ℕ) (t : Option ℕ) (w : World) (i : Interest)
    → Own c w.state.client_fd
    → w.state.target_fd ≡ t
    → w.registry c ≡ some (record { handler = client_handler; interest = i })
    → TargetRegistered t c w.registry
    → Torn w c t (unregister w c).1
unfolding unregister
unregister-Torn_of c t w i own e reg r =
    rw (unregister_to-entry 1 w c (some (record { handler = client_handler; interest = i })) reg) (
      close_rest-Torn c t w _ d (d.same_target ∙ e)
        (subst (λ g. TargetRegistered t c g) (sym d.registry) r))
  where
    d : Disowned w (if holds w.state.client_fd c then set_client_fd none w else w)
    d = disowned c w own

-- `selector_unregister_fd` of the client's descriptor tears an open connection down: each of its
-- descriptors is closed exactly once and unregistered, the state is freed once, the gauge and the
-- count of connections are lowered once, and no address list or resolver job is left attached.
pub unregister-Torn :
    (w : World) (c : ℕ) (t : Option ℕ) → IsOpen w c t → Torn w c t (unregister w c).1
unregister-Torn w c t o =
    unregister-Torn_of c t w o.interest (inr o.client_open) o.target_open o.client_registered
      o.target_registered

close_connection-either :
    (w : World) (o : Option ℕ) → w.state.client_fd ≡ o → close_connection w ≡ close_either o w
unfolding close_connection
close_connection-either w o e = ap (λ x. close_either x w) e

-- `client_session_close_connection` does the same, through the selector and `client_close`.
pub close_connection-Torn :
    (w : World) (c : ℕ) (t : Option ℕ) → IsOpen w c t → Torn w c t (close_connection w)
close_connection-Torn w c t o = rw (close_connection-either w (some c) o.client_open) (record {
  closed = torn.closed;
  registry = torn.registry;
  frees = torn.frees;
  metrics = torn.metrics;
  active = torn.active;
  no_client = torn.no_client;
  no_target = torn.no_target;
  no_addresses = torn.no_addresses;
  no_resolver = torn.no_resolver;
})
  where
    torn : Torn (set_client_fd none w) c t (unregister (set_client_fd none w) c).1
    torn =
        unregister-Torn_of c t (set_client_fd none w) o.interest (inl refl) o.target_open
          o.client_registered o.target_registered
