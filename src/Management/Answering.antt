-- ===== src/Management/Answering.antt =====
-- A management connection from its first call on, as `accept_management_connection` registers it.
use protos_tpe_g.Prelude.{
  ℕ, zero, suc, inl, inr, ◌+◌, ◌-◌, ◌≤◌, ◌<◌, ◌≡◌, ◌≢◌, ◌∙◌, ap, length, ltb, take, drop,
  length-take, length-drop, Bool-cases, refl, sym, subst, Bool, true, false, Option, none, some,
  List, [], ◌∷◌, ◌++◌, append_assoc, append-nil, arith,
}
use protos_tpe_g.Users.{Table}
use protos_tpe_g.Metrics.{Metrics, add64}
use protos_tpe_g.Session.Defs.{Interest, op_read, op_write, c_str}
use protos_tpe_g.Session.Flush.{Kernel, sent, Honest, flushed, flush, flush_all}
use protos_tpe_g.Session.Sending.{left, flush-Sent}
use protos_tpe_g.Session.Env.{Recv}
use protos_tpe_g.Management.Respond.{management_buffer_size, respond}
use protos_tpe_g.Management.Handlers.{
  new_management, Management, Call, reads, writes, dispatch_if, management_read, management_write,
  contains, manage,
}
use protos_tpe_g.Management.Runs.{Progress-receive, Progress-management_write}
use protos_tpe_g.Management.Progress.{
  input_at, inputs, given, IsHonestCall, AllHonest, Freed, complete, Waits, Answered, Progress,
  waiting, answering, gave_up, over,
}

-- what `calloc` and `selector_register` make of an accepted connection
unfoldable pub accepted : Table → Metrics → Management
accepted users metrics = record {
  state = new_management;
  registered = some op_read;
  frees = 0;
  closes = 0;
  users = users;
  metrics = metrics;
  to_client = [];
}

module _ (w : Management) where
  Progress-read :
      (got : List ℕ) (v : Management) (recv : ℕ → Recv)
      → v.registered ≡ some op_read
      → Freed 0 v
      → complete got ≡ false
      → Waits w got v
      → IsHonestCall (reads recv)
      → Progress w
          (got ++ given (recv (management_buffer_size - v.state.read_len - 1)))
          (management_read recv v)
  unfolding management_read
  Progress-read got v recv r f c h l =
      Progress-receive w got v r f c h (recv (management_buffer_size - v.state.read_len - 1))
        (λ bytes e. l (management_buffer_size - v.state.read_len - 1) bytes e)

  dispatch_if-Progress :
      (got : List ℕ) (v : Management) (c : Call)
      → Progress w got v
      → IsHonestCall c
      → Progress w (got ++ input_at v.registered c v) (dispatch_if v.registered c v)
  dispatch_if-Progress got v (reads recv) (waiting r f c h) l =
      subst (λ o. Progress w (got ++ input_at o (reads recv) v) (dispatch_if o (reads recv) v))
        (sym r) (Progress-read got v recv r f c h l)
  dispatch_if-Progress got v (writes send) (waiting r f c h) l =
      subst (λ o. Progress w (got ++ input_at o (writes send) v) (dispatch_if o (writes send) v))
        (sym r) (subst (λ g. Progress w g v) (sym (append-nil got)) (waiting r f c h))
  dispatch_if-Progress got v (reads recv) (answering r f c a) l =
      subst (λ o. Progress w (got ++ input_at o (reads recv) v) (dispatch_if o (reads recv) v))
        (sym r) (subst (λ g. Progress w g v) (sym (append-nil got)) (answering r f c a))
  dispatch_if-Progress got v (writes send) (answering r f c a) l =
      subst (λ o. Progress w (got ++ input_at o (writes send) v) (dispatch_if o (writes send) v))
        (sym r)
        (subst (λ g. Progress w g (management_write send v)) (sym (append-nil got))
          (Progress-management_write w got c send v l r f a))
  dispatch_if-Progress got v c (gave_up r f d h) l =
      subst (λ o. Progress w (got ++ input_at o c v) (dispatch_if o c v)) (sym r)
        (subst (λ g. Progress w g v) (sym (append-nil got)) (gave_up r f d h))
  dispatch_if-Progress got v c (over r f d a) l =
      subst (λ o. Progress w (got ++ input_at o c v) (dispatch_if o c v)) (sym r)
        (subst (λ g. Progress w g v) (sym (append-nil got)) (over r f d a))

  Progress-manage :
      (cs : List Call) (got : List ℕ) (v : Management)
      → Progress w got v
      → AllHonest cs
      → Progress w (got ++ inputs cs v) (manage cs v)
  unfolding inputs manage
  Progress-manage [] got v p h = subst (λ g. Progress w g v) (sym (append-nil got)) p
  Progress-manage (c ∷ cs) got v p (h, hs) =
      subst (λ g. Progress w g (manage cs (dispatch_if v.registered c v)))
        (append_assoc got (input_at v.registered c v) (inputs cs (dispatch_if v.registered c v)))
        (Progress-manage cs (got ++ input_at v.registered c v) (dispatch_if v.registered c v)
          (dispatch_if-Progress got v c p h) hs)

-- Over any calls of its handlers a new connection has answered exactly if the bytes it received are
-- a request, and the answer is the one to these bytes; the bytes sent and those still to be sent
-- are that answer. It is freed and closed once, when the selector has forgotten it. `recv` and
-- `send` do not report more bytes than they were given room for.
pub manage-Progress :
    (users : Table) (metrics : Metrics) (cs : List Call)
    → AllHonest cs
    → Progress
        (accepted users metrics)
        (inputs cs (accepted users metrics))
        (manage cs (accepted users metrics))
unfolding accepted contains
manage-Progress users metrics cs h =
    Progress-manage (accepted users metrics) cs [] (accepted users metrics)
      (waiting refl (refl, refl) refl
        (record {
          same_users = refl;
          same_metrics = refl;
          silent = refl;
          size = refl;
          fits = omega arith;
          requested = refl;
        }))
      h

-- The kernel takes a byte of every offer that has one.
abbrev pub Willing : Kernel → Type 0
Willing send =
    (k : ℕ) (bytes : List ℕ) → 0 < length bytes → (n : ℕ) × (send k bytes ≡ sent n) × (0 < n)

module _ (send : Kernel) (honest : Honest send) (willing : Willing send) (buffer : List ℕ)
    (len : ℕ) where
  flush-flushed :
      (fuel off : ℕ) (out : List ℕ) (calls counter : ℕ)
      → len - off < fuel
      → len ≤ length buffer
      → (flush fuel send buffer len off out calls counter).outcome ≡ flushed
  unfolding flush
  flush-flushed zero off out calls counter h b = absurd (omega arith)
  flush-flushed (suc fuel) off out calls counter h b = elim (Bool-cases (ltb off len)) [
    | inr done ↦ rw (done, flush) refl
    | inl more ↦
        let (n, s, positive) =
          willing calls (left buffer len off)
            (ground (arith, length-take (len - off) (drop off buffer), length-drop off buffer)) in
        let some_sent : ltb 0 n ≡ true = ground arith in
        rw (more, s, some_sent, flush)
          (flush-flushed fuel (off + n) (out ++ take n (left buffer len off)) (suc calls)
            (add64 counter n) (ground arith) b)
  ]

module _ (w : Management) (got : List ℕ) (v : Management) (r : v.registered ≡ some op_write)
    (f : Freed 0 v) (a : Answered w got v) where
  -- the write handler with a willing kernel
  management_write-over :
      (send : Kernel)
      → Honest send
      → Willing send
      → ((management_write send v).to_client ≡ c_str (respond w.users w.metrics got).1)
        × ((management_write send v).registered ≡ none)
        × Freed 1 (management_write send v)
  unfolding management_write
  management_write-over send honest willing =
      let t = flush_all send v.state.write_buffer v.state.write_len v.state.write_off 0 in
      let done =
        flush-flushed send honest willing v.state.write_buffer v.state.write_len
          (suc (v.state.write_len - v.state.write_off)) v.state.write_off [] 0 0 (omega arith)
          a.memory in
      let s =
        flush-Sent send honest v.state.write_buffer v.state.write_len
          (suc (v.state.write_len - v.state.write_off)) v.state.write_off [] 0 0 (omega arith)
          a.within (omega arith) a.memory in
      let end : v.state.write_len - t.off ≡ 0 = omega (arith, s.whole done) in
      let none_left : left v.state.write_buffer v.state.write_len t.off ≡ [] =
        ap (λ k. take k (drop t.off v.state.write_buffer)) end in
      let all_sent : t.out ≡ left v.state.write_buffer v.state.write_len v.state.write_off =
        sym (append-nil t.out) ∙ (ap (λ r. t.out ++ r) (sym none_left) ∙ s.bytes) in
      rw done (ap (λ r. v.to_client ++ r) all_sent ∙ a.sent, refl, (ap suc f.0, ap suc f.1))

abbrev wants_write : Option Interest → Bool
wants_write none = false
wants_write (some i) = i.writes

not_both : some op_read ≢ some op_write
not_both e = let b : false ≡ true = ap wants_write e in cc

-- A new connection that is waiting to write after any calls of its handlers, with a kernel that
-- takes a byte of every offer: the next call of the write handler sends all that is left of the
-- answer to the bytes received, and the connection is freed and closed, once.
pub manage-over :
    (users : Table) (metrics : Metrics) (cs : List Call) (send : Kernel)
    → AllHonest cs
    → (manage cs (accepted users metrics)).registered ≡ some op_write
    → Honest send
    → Willing send
    → let v = management_write send (manage cs (accepted users metrics)) in
      (v.to_client ≡ c_str (respond users metrics (inputs cs (accepted users metrics))).1)
      × (v.registered ≡ none)
      × Freed 1 v
unfolding accepted
manage-over users metrics cs send h r honest willing = elim (manage-Progress users metrics cs h) [
  | waiting r' f c w ↦ absurd (not_both (sym r' ∙ r))
  | gave_up r' f c w ↦ absurd cc
  | over r' f c a ↦ absurd cc
  | answering r' f c a ↦
      management_write-over (accepted users metrics) (inputs cs (accepted users metrics))
        (manage cs (accepted users metrics)) r f a send honest willing
]
