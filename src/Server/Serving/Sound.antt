-- ===== src/Server/Serving/Sound.antt =====
-- The handlers of the server, as `selector_select` calls them.
use protos_tpe_g.Prelude.{
  ℕ, suc, ◌<◌, ◌≡◌, ◌⊎◌, refl, sym, subst, ap, ◌∙◌, Bool, inl, inr, arith, true, false, Option,
  some, List, [], ◌∷◌,
}
use protos_tpe_g.Session.Defs.{World, op_read, eagain}
use protos_tpe_g.Session.Target.{target_write, target_connection_on_resolve}
use protos_tpe_g.Session.Client.{client_read, client_write, target_read}
use protos_tpe_g.Management.Handlers.{Management, management_read, management_write}
use protos_tpe_g.Selector.{
  Item, Selector, Status, success, enomem, maxfd, iargs, fdinuse, io, item_at,
}
use protos_tpe_g.Selector.Operations.{used_item, length-item_at}
use protos_tpe_g.Selector.Dispatch.{Loop, Key, key_of}
use protos_tpe_g.Selector.Dispatch.Calls.{Keeps, IsSound}
use protos_tpe_g.Accept.{
  no_connection, Acceptor, Kind, client_kind, management_kind, registered, accept_one, then_accept,
  accept_all,
}
use protos_tpe_g.Server.Table.{
  table_size, Waits, register-Fits, Fits-suc, Fits-rest, fresh-Apart, item-Apart, rest-Apart,
}
use protos_tpe_g.Server.Serving.{
  Connections, System, session_call, management_call, acceptor, accept_call, accepted, new_clients,
  new_managements, wanted_of, wanted_management, table_of, server_handlers, descriptors,
}
use protos_tpe_g.Server.Serving.Keeping.{
  IsConnection, IsListening, IsServer, IsApart, Leaves, follow_all-Leaves, Wants-wanted_of,
  Wants-wanted_management,
}

-- The table of the server, and the jobs in it.
abbrev pub Served : Loop Connections → Type 0
Served l = IsServer l.app.next l.jobs l.selector

-- A key with the state of a connection that no finished job tells of.
abbrev pub Active : Key → Loop Connections → Type 0
Active key l = IsApart key.data_of l.selector l.jobs × (key.data_of < l.app.next)

session_call-Served :
    (f : World → World) (key : Key) (l : Loop Connections)
    → Served l
    → Active key l
    → Served (session_call f key l) × Active key (session_call f key l)
session_call-Served f key l p (a, h) =
    let v = f (l.app.clients key.data_of) in
    let q =
      follow_all-Leaves l.app.next key.data_of l.jobs (λ fd. wanted_of (v.registry fd))
        (descriptors key (l.app.clients key.data_of) v) l.selector p a h
        (λ fd. Wants-wanted_of (v.registry fd)) in
    (q.0, (q.1 key.data_of a, h))

management_call-Served :
    (f : Management → Management) (key : Key) (l : Loop Connections)
    → Served l
    → Active key l
    → Served (management_call f key l) × Active key (management_call f key l)
management_call-Served f key l p (a, h) =
    let m = f (l.app.managements key.data_of) in
    let q =
      follow_all-Leaves l.app.next key.data_of l.jobs (λ fd. wanted_management m.registered)
        (key.fd ∷ []) l.selector p a h (λ fd. Wants-wanted_management m.registered) in
    (q.0, (q.1 key.data_of a, h))

module _ {State : Type 0} (kind : Kind State) (c : IsConnection kind.handler) where
  -- whatever `selector_register` answers, the table is the one that it leaves
  registered-selector :
      (fd : ℕ) (status : Status) (t : Selector) (a : Acceptor State)
      → (out : Acceptor State) × (registered kind fd (some (status, t)) a ≡ some out)
        × (out.selector ≡ t)
  registered-selector fd success t a = go kind.counts
    where
      go :
          (b : Bool)
          → (out : Acceptor State) × (registered
                (record kind { counts = b })
                fd
                (some (success, t))
                a
              ≡ some out)
            × (out.selector ≡ t)
      go true = (_, refl, refl)
      go false = (_, refl, refl)
  registered-selector fd enomem t a = (_, refl, refl)
  registered-selector fd maxfd t a = (_, refl, refl)
  registered-selector fd iargs t a = (_, refl, refl)
  registered-selector fd fdinuse t a = (_, refl, refl)
  registered-selector fd io t a = (_, refl, refl)

  accept_one-Leaves :
      (fd next : ℕ) (nonblocking : Bool) (jobs : List ℕ) (a : Acceptor State)
      → IsServer next jobs a.selector
      → (out : Acceptor State) × (accept_one kind fd nonblocking (some next) true a ≡ some out)
        × Leaves (suc next) jobs a.selector out.selector
  unfolding accept_one
  accept_one-Leaves fd next false jobs a f = (
    _,
    refl,
    (Fits-suc IsConnection IsListening client_kind.handler next jobs a.selector f, λ k b. b),
  )
  accept_one-Leaves fd next true jobs a f =
      let (o, e, p) =
        register-Fits IsConnection IsListening client_kind.handler true (suc next) next fd
          kind.handler op_read jobs a.selector
          (Fits-suc IsConnection IsListening client_kind.handler next jobs a.selector f)
          (fresh-Apart IsConnection IsListening client_kind.handler next a.selector jobs f.known)
          (omega arith) (inl c) in
      let (out, g, same) = registered-selector fd o.0 o.1 a in
      (
        out,
        ap (λ r. registered kind fd r a) e ∙ g,
        subst (λ s. Leaves (suc next) jobs a.selector s) (sym same) p,
      )

  accept_call-Served :
      (news : ℕ → List (ℕ × State) → Connections → Connections) (system : System) (key : Key)
      (l : Loop Connections)
      → Served l
      → Active key l
      → Served (accepted news (accept_call kind system key l) l)
        × Active key (accepted news (accept_call kind system key l) l)
  unfolding accept_all
  accept_call-Served news system key l p (b, h) =
      let (fd, nonblocking) = system.accepts key in
      let (out, e, q) = accept_one-Leaves fd l.app.next nonblocking l.jobs (acceptor l) p in
      subst (λ o. Served (accepted news o l) × Active key (accepted news o l))
        (sym (ap (then_accept kind (accept_all kind (no_connection eagain ∷ []))) e))
        (q.0, (q.1 key.data_of b, omega (arith, h)))

module _ (system : System) where
  abbrev ServerKeeps :
      (Loop Connections → Type 0)
      → Option (Key → Loop Connections → Loop Connections)
      → Key
      → Loop Connections
      → Type 0
  ServerKeeps = Keeps (server_handlers system) Served Active

  -- The item of a descriptor that asks to read or to write names no state that a finished job
  -- tells of.
  asks-Active :
      (l : Loop Connections) (i : ℕ) (item : Item)
      → Served l
      → item_at l.selector.fds i ≡ some (some item)
      → (item.interest.reads ≡ true) ⊎ (item.interest.writes ≡ true)
      → Active (key_of item) l
  asks-Active l i item p e asks = (
    item-Apart IsConnection IsListening client_kind.handler l.selector l.jobs i item p.waiting e
        (λ fd w same. quiet fd w same asks),
    (p.known i item e).data_of,
  )
    where
      quiet :
          (fd : ℕ) (w : Waits IsConnection IsListening client_kind.handler l.selector fd)
          → w.item ≡ item
          → (item.interest.reads ≡ true) ⊎ (item.interest.writes ≡ true)
          → ⊥
      quiet fd w same (inl r) =
          let x : item.interest.reads ≡ false =
            ap (λ (y : Item). y.interest.reads) (sym same) ∙ w.reads in
          cc (x, r)
      quiet fd w same (inr r) =
          let x : item.interest.writes ≡ false =
            ap (λ (y : Item). y.interest.writes) (sym same) ∙ w.writes in
          cc (x, r)

  reads-Keeps :
      (l : Loop Connections) (i : ℕ) (item : Item)
      → Served l
      → item_at l.selector.fds i ≡ some (some item)
      → item.interest.reads ≡ true
      → ServerKeeps
          (λ l'. Served l' × Active (key_of item) l')
          ((server_handlers system).handle_read item.handler)
          (key_of item)
          l
  reads-Keeps l i item p e r = by_role (p.known i item e).role
    where
      active : Active (key_of item) l
      active = asks-Active l i item p e (inl r)

      by_role :
          IsConnection item.handler ⊎ (IsListening item.handler × (item.interest.writes ≡ false))
          → ServerKeeps
              (λ l'. Served l' × Active (key_of item) l')
              ((server_handlers system).handle_read item.handler)
              (key_of item)
              l
      by_role (inl (inl h)) = record {
        run = λ key. session_call (client_read (system.env key) key.fd) key;
        present = ap (λ n. (table_of system n).handle_read) h;
        kept =
            session_call-Served (client_read (system.env (key_of item)) item.fd) (key_of item) l p
              active;
      }
      by_role (inl (inr (inl h))) = record {
        run = λ key. management_call (management_read (system.recv key)) key;
        present = ap (λ n. (table_of system n).handle_read) h;
        kept =
            management_call-Served (management_read (system.recv (key_of item))) (key_of item) l p
              active;
      }
      by_role (inl (inr (inr h))) = record {
        run = λ key. session_call (target_read (system.env key)) key;
        present = ap (λ n. (table_of system n).handle_read) h;
        kept =
            session_call-Served (target_read (system.env (key_of item))) (key_of item) l p active;
      }
      by_role (inr (inl h, w)) = record {
        run = λ key l. accepted new_clients (accept_call client_kind system key l) l;
        present = ap (λ n. (table_of system n).handle_read) h;
        kept =
            accept_call-Served client_kind (inl refl) new_clients system (key_of item) l p active;
      }
      by_role (inr (inr h, w)) = record {
        run = λ key l. accepted new_managements (accept_call management_kind system key l) l;
        present = ap (λ n. (table_of system n).handle_read) h;
        kept =
            accept_call-Served management_kind (inr (inl refl)) new_managements system (key_of item)
              l p active;
      }

  writes-Keeps :
      (l : Loop Connections) (i : ℕ) (key : Key) (item : Item)
      → Served l
      → Active key l
      → item_at l.selector.fds i ≡ some (some item)
      → item.interest.writes ≡ true
      → ServerKeeps Served ((server_handlers system).handle_write item.handler) key l
  writes-Keeps l i key item p active e r = by_role (p.known i item e).role
    where
      by_role :
          IsConnection item.handler ⊎ (IsListening item.handler × (item.interest.writes ≡ false))
          → ServerKeeps Served ((server_handlers system).handle_write item.handler) key l
      by_role (inl (inl h)) = record {
        run = λ key. session_call (client_write (system.env key) key.fd) key;
        present = ap (λ n. (table_of system n).handle_write) h;
        kept = (session_call-Served (client_write (system.env key) key.fd) key l p active).0;
      }
      by_role (inl (inr (inl h))) = record {
        run = λ key. management_call (management_write (system.send key)) key;
        present = ap (λ n. (table_of system n).handle_write) h;
        kept = (management_call-Served (management_write (system.send key)) key l p active).0;
      }
      by_role (inl (inr (inr h))) = record {
        run = λ key. session_call (target_write (system.env key) key.fd) key;
        present = ap (λ n. (table_of system n).handle_write) h;
        kept = (session_call-Served (target_write (system.env key) key.fd) key l p active).0;
      }
      by_role (inr (h, w)) = absurd (cc (w, r))

  blocks-Keeps :
      (l : Loop Connections) (fd : ℕ) (jobs : List ℕ) (item : Item)
      → Served (record l { jobs = fd ∷ jobs })
      → item_at l.selector.fds fd ≡ some (some item)
      → ServerKeeps
          (λ l'. Served (record l' { jobs = jobs }))
          ((server_handlers system).handle_block item.handler)
          (key_of item)
          l
  blocks-Keeps l fd jobs item p e =
      let (w, (n, ws)) = p.waiting in
      let same : w.item ≡ item = used_item (sym w.at ∙ e) in
      let h : item.handler ≡ client_kind.handler =
        ap (λ (x : Item). x.handler) (sym same) ∙ w.handler in
      record {
        run = λ key. session_call (target_connection_on_resolve (system.env key) key.fd) key;
        present = ap (λ n. (table_of system n).handle_block) h;
        kept =
            (session_call-Served (target_connection_on_resolve (system.env (key_of item)) item.fd)
              (key_of item) (record l { jobs = jobs })
              (Fits-rest IsConnection IsListening client_kind.handler l.app.next fd jobs l.selector
                p)
              (
                rest-Apart IsConnection IsListening client_kind.handler l.selector fd jobs item w n
                    e ws,
                (p.known fd item e).data_of,
              )).0;
      }

  -- The handlers of the server keep its table, and each that is called is there.
  pub server_handlers-IsSound : IsSound (server_handlers system) Served Active table_size
  server_handlers-IsSound = record {
    sized = λ l p. (p.size, p.highest);
    reads = reads-Keeps;
    live = λ l i item p e r. asks-Active l i item p e (inr r);
    writes = writes-Keeps;
    blocks = blocks-Keeps;
    skips = λ l fd jobs p.
        let w = p.waiting.0 in
        (
          omega (arith, length-item_at l.selector.fds fd (some w.item) w.at, p.size),
          λ e. absurd (cc (e, w.at)),
        );
  }
