-- ===== src/Selector/Dispatch/Calls.antt =====
-- What the handlers may rely on when `selector_select` calls them.
use protos_tpe_g.Prelude.{
  ℕ, zero, suc, ◌+◌, ◌≤◌, ◌<◌, ◌≡◌, refl, sym, subst, Bool, true, false, ◌&&◌, ◌==◌, if_lem, Option,
  none, some, List, [], ◌∷◌, ◌>>=◌, length, arith,
}
use protos_tpe_g.Selector.{Status, success, io, Item, item_at}
use protos_tpe_g.Selector.Table.{item_at-within}
use protos_tpe_g.Selector.Dispatch.{
  Loop, Key, Handlers, key_of, Wait, ready, fails, invoke, write_item, read_item, after_read,
  visit_item, visit_from, handle_iteration, notify_item, notify_from, handle_block_notifications,
  is_interruption, with_status, selector_select,
}

and_right : (a b : Bool) → (a && b) ≡ true → b ≡ true
and_right true b e = e
and_right false b e = absurd cc

module _ {App : Type 0} (handlers : Handlers App) (P : Loop App → Type 0)
    (Live : Key → Loop App → Type 0) where
  -- A handler that is there and leaves what `Q` says.
  pub record Keeps (Q : Loop App → Type 0) (handler : Option (Key → Loop App → Loop App))
      (key : Key) (l : Loop App) : Type 0 where
    pub run : Key → Loop App → Loop App
    pub present : handler ≡ some run
    pub kept : Q (run key l)

  -- Each handler is there and keeps `P` if it is called the way `selector_select` may: for reading
  -- with an item that is registered for it, for writing with an item that is registered for it and a
  -- key that is `Live` still, and for a finished job, the first of those that are left, with the item
  -- that the job's descriptor has. The table keeps its size.
  pub record IsSound (size : ℕ) : Type 0 where
    pub sized : (l : Loop App) → P l → (length l.selector.fds ≡ size) × (l.selector.max_fd < size)
    pub reads :
        (l : Loop App) (i : ℕ) (item : Item)
        → P l
        → item_at l.selector.fds i ≡ some (some item)
        → item.interest.reads ≡ true
        → Keeps
            (λ l'. P l' × Live (key_of item) l')
            (handlers.handle_read item.handler)
            (key_of item)
            l
    pub live :
        (l : Loop App) (i : ℕ) (item : Item)
        → P l
        → item_at l.selector.fds i ≡ some (some item)
        → item.interest.writes ≡ true
        → Live (key_of item) l
    pub writes :
        (l : Loop App) (i : ℕ) (key : Key) (item : Item)
        → P l
        → Live key l
        → item_at l.selector.fds i ≡ some (some item)
        → item.interest.writes ≡ true
        → Keeps P (handlers.handle_write item.handler) key l
    pub blocks :
        (l : Loop App) (fd : ℕ) (jobs : List ℕ) (item : Item)
        → P (record l { jobs = fd ∷ jobs })
        → item_at l.selector.fds fd ≡ some (some item)
        → Keeps
            (λ l'. P (record l' { jobs = jobs }))
            (handlers.handle_block item.handler)
            (key_of item)
            l
    pub skips :
        (l : Loop App) (fd : ℕ) (jobs : List ℕ)
        → P (record l { jobs = fd ∷ jobs })
        → (fd < size) × (item_at l.selector.fds fd ≡ some none → P (record l { jobs = jobs }))

  -- a result that is there and of which `Q` holds
  abbrev pub Ends : (Loop App → Type 0) → Option (Loop App) → Type 0
  Ends Q none = ⊥
  Ends Q (some l) = Q l

  Ends->>= :
      (Q R : Loop App → Type 0) (m : Option (Loop App)) (f : Loop App → Option (Loop App))
      → Ends Q m
      → ((l : Loop App) → Q l → Ends R (f l))
      → Ends R (m >>= f)
  Ends->>= Q R none f h k = elim h [ ]
  Ends->>= Q R (some l) f h k = k l h

  Ends-invoke :
      (Q : Loop App → Type 0) (handler : Option (Key → Loop App → Loop App)) (key : Key)
      (l : Loop App)
      → Keeps Q handler key l
      → Ends Q (invoke handlers handler key l)
  Ends-invoke Q handler key l k =
      subst (λ h. Ends Q (invoke handlers h key l)) (sym k.present) k.kept

  module _ (size : ℕ) (sound : IsSound size) (slave_r slave_w : ℕ → Bool) where
    -- The key is live, or the item does not ask to write.
    abbrev MayWrite : Key → Option (Option Item) → Loop App → Type 0
    MayWrite key none l = ⊥
    MayWrite key (some none) l = Unit
    MayWrite key (some (some item)) l = item.interest.writes ≡ true → Live key l

    Ends-write_item :
        (i : ℕ) (key : Key) (l : Loop App) (o : Option (Option Item))
        → P l
        → MayWrite key o l
        → item_at l.selector.fds i ≡ o
        → Ends P (write_item handlers slave_w i key o l)
    Ends-write_item i key l none p may e = elim may [ ]
    Ends-write_item i key l (some none) p may e = p
    Ends-write_item i key l (some (some item)) p may e =
        if_lem (Ends P) (slave_w i && item.interest.writes)
          (λ b.
            let w = and_right (slave_w i) item.interest.writes b in
            Ends-invoke P (handlers.handle_write item.handler) key l
              (sound.writes l i key item p (may w) e w))
          (λ _. p)

    Ends-after_read :
        (i : ℕ) (key : Key) (l : Loop App)
        → P l
        → MayWrite key (item_at l.selector.fds i) l
        → Ends P (after_read handlers slave_w i key size l)
    Ends-after_read i key l p may =
        let same : (length l.selector.fds == size) ≡ true =
          let (e, _) = sound.sized l p in ground arith in
        rw same (Ends-write_item i key l (item_at l.selector.fds i) p may refl)

    Live-MayWrite :
        (i : ℕ) (key : Key) (l : Loop App)
        → P l
        → i < size
        → Live key l
        → MayWrite key (item_at l.selector.fds i) l
    Live-MayWrite i key l p h a =
        let (o, at) = item_at-within l.selector.fds i (omega (arith, (sound.sized l p).0)) in
        subst (λ o. MayWrite key o l) (sym at) (any_item o)
      where
        any_item : (o : Option Item) → MayWrite key (some o) l
        any_item none = tt
        any_item (some item) = λ _. a

    Ends-visit_item :
        (i : ℕ) (l : Loop App) (o : Option (Option Item))
        → P l
        → i < size
        → item_at l.selector.fds i ≡ o
        → Ends P (visit_item handlers slave_r slave_w i o l)
    Ends-visit_item i l none p h e =
        let (item, at) = item_at-within l.selector.fds i (omega (arith, (sound.sized l p).0)) in
        absurd (cc (e, at))
    Ends-visit_item i l (some none) p h e = p
    Ends-visit_item i l (some (some item)) p h e =
        let key = key_of item in
        subst
          (λ n. Ends P (read_item handlers slave_r item l >>= after_read handlers slave_w i key n))
          (sym (sound.sized l p).0)
          (Ends->>= (λ l'. P l' × MayWrite key (item_at l'.selector.fds i) l') P
            (read_item handlers slave_r item l) (after_read handlers slave_w i key size)
            (if_lem (Ends (λ l'. P l' × MayWrite key (item_at l'.selector.fds i) l'))
              (slave_r item.fd && item.interest.reads)
              (λ b.
                let k =
                  sound.reads l i item p e (and_right (slave_r item.fd) item.interest.reads b) in
                Ends-invoke (λ l'. P l' × MayWrite key (item_at l'.selector.fds i) l')
                  (handlers.handle_read item.handler) key l
                  (record {
                    run = k.run;
                    present = k.present;
                    kept = (k.kept.0, Live-MayWrite i key (k.run key l) k.kept.0 h k.kept.1);
                  }))
              (λ _. (p, subst (λ o. MayWrite key o l) (sym e) (λ w. sound.live l i item p e w))))
            (λ l' (p', may). Ends-after_read i key l' p' may))

    Ends-visit_from :
        (rounds i : ℕ) (l : Loop App)
        → P l
        → i + rounds ≤ size
        → Ends P (visit_from handlers rounds i slave_r slave_w l)
    unfolding visit_from
    Ends-visit_from zero i l p h = p
    Ends-visit_from (suc rounds) i l p h =
        Ends->>= P P (visit_item handlers slave_r slave_w i (item_at l.selector.fds i) l)
          (visit_from handlers rounds (suc i) slave_r slave_w)
          (Ends-visit_item i l (item_at l.selector.fds i) p (omega arith) refl)
          (λ l' p'. Ends-visit_from rounds (suc i) l' p' (omega arith))

    Ends-handle_iteration :
        (l : Loop App) → P l → Ends P (handle_iteration handlers slave_r slave_w l)
    unfolding handle_iteration
    Ends-handle_iteration l p =
        Ends-visit_from (suc l.selector.max_fd) 0 l p (omega (arith, (sound.sized l p).1))

  module _ (size : ℕ) (sound : IsSound size) where
    -- Of a loop in which the jobs `jobs` are left.
    abbrev Left : List ℕ → Loop App → Type 0
    Left jobs l = P (record l { jobs = jobs })

    Ends-notify_item :
        (fd : ℕ) (jobs : List ℕ) (l : Loop App) (o : Option (Option Item))
        → Left (fd ∷ jobs) l
        → item_at l.selector.fds fd ≡ o
        → Ends (Left jobs) (notify_item handlers o l)
    Ends-notify_item fd jobs l none p e =
        let h = (sound.skips l fd jobs p).0 in
        let (item, at) =
          item_at-within l.selector.fds fd
            (omega (arith, h, (sound.sized (record l { jobs = fd ∷ jobs }) p).0)) in
        absurd (cc (e, at))
    Ends-notify_item fd jobs l (some none) p e = (sound.skips l fd jobs p).1 e
    Ends-notify_item fd jobs l (some (some item)) p e =
        Ends-invoke (Left jobs) (handlers.handle_block item.handler) (key_of item) l
          (sound.blocks l fd jobs item p e)

    Ends-notify_from :
        (jobs : List ℕ) (l : Loop App) → Left jobs l → Ends (Left []) (notify_from handlers jobs l)
    unfolding notify_from
    Ends-notify_from [] l p = p
    Ends-notify_from (fd ∷ jobs) l p =
        Ends->>= (Left jobs) (Left []) (notify_item handlers (item_at l.selector.fds fd) l)
          (notify_from handlers jobs)
          (Ends-notify_item fd jobs l (item_at l.selector.fds fd) p refl)
          (λ l' p'. Ends-notify_from jobs l' p')

    Ends-handle_block_notifications :
        (l : Loop App) → P l → Ends P (handle_block_notifications handlers l)
    unfolding handle_block_notifications
    Ends-handle_block_notifications l p =
        Ends->>= (Left []) P (notify_from handlers l.jobs l) (λ l'. some (record l' { jobs = [] }))
          (Ends-notify_from l.jobs l p) (λ l' p'. p')

    Ends-with_status :
        (status : Status) (o : Option (Loop App))
        → Ends P o
        → (out : Status × Loop App) × (with_status status o ≡ some out) × P out.1
    Ends-with_status status none h = elim h [ ]
    Ends-with_status status (some l) h = ((status, l), refl, h)

    -- If the handlers are there and keep `P` when they are called for reading with an item that is
    -- registered for it, which leaves the key live, for writing with an item that is registered for
    -- it and a key that is live, and for the first of the finished jobs that are left with the item
    -- of its descriptor, if any, which keeps `P` of the other jobs, and if under `P` the table has
    -- a fixed size, then `selector_select` makes no other call and keeps `P`, whatever the system
    -- answers: no null handler, no failing assertion, no access outside the table or to one that
    -- was moved.
    pub selector_select-Keeps :
        (wait : Wait) (l : Loop App)
        → P l
        → (out : Status × Loop App) × (selector_select handlers wait l ≡ some out) × P out.1
    unfolding selector_select
    selector_select-Keeps (ready slave_r slave_w) l p =
        Ends-with_status success
          (handle_iteration handlers slave_r slave_w l >>= handle_block_notifications handlers)
          (Ends->>= P P (handle_iteration handlers slave_r slave_w l)
            (handle_block_notifications handlers)
            (Ends-handle_iteration size sound slave_r slave_w l p) Ends-handle_block_notifications)
    selector_select-Keeps (fails e) l p =
        if_lem (λ o. (out : Status × Loop App) × (o ≡ some out) × P out.1) (is_interruption e)
          (λ _.
            Ends-with_status success (handle_block_notifications handlers l)
              (Ends-handle_block_notifications l p))
          (λ _. ((io, l), refl, p))
