-- ===== src/Management/Runs.antt =====
-- A management connection over any sequence of the selector's calls.
use protos_tpe_g.Prelude.{
  ℕ, suc, ◌-◌, ◌≤◌, ◌≡◌, ◌==◌, refl, ap, sym, subst, ap₂, ◌∙◌, true, false, ◌||◌, if◌then◌else◌,
  if_lem, some, List, [], ◌++◌, append_assoc, append-nil, length, length-take, take, arith,
}
use protos_tpe_g.Users.{Table}
use protos_tpe_g.Session.Defs.{op_read, op_write, c_str}
use protos_tpe_g.Session.Flush.{
  Kernel, Honest, Outcome, flushed, blocked, broken, unfinished, flush_all, would_block,
}
use protos_tpe_g.Session.Sending.{left, flush-Sent}
use protos_tpe_g.Session.Env.{Recv, received, end_of_stream, failed}
use protos_tpe_g.Management.Respond.{management_buffer_size, respond}
use protos_tpe_g.Management.Handlers.{
  Management, management_close, management_prepare_response, contains, append_received,
  answer_if_complete, receive, sent_answer, after_answer, management_write,
}
use protos_tpe_g.Management.Progress.{
  waiting, answering, gave_up, over, request, given, Waits, Answered, Freed, complete, Progress,
  length-c_str, left-c_str, take-write_at, length-write_at,
}

module _ (w : Management) (got : List ℕ) where
  Waits-append_received :
      (bytes : List ℕ) (v : Management)
      → Waits w got v
      → length bytes ≤ management_buffer_size - v.state.read_len - 1
      → Waits w (got ++ bytes) (append_received bytes v)
  Waits-append_received bytes v h l = record {
    same_users = h.same_users;
    same_metrics = h.same_metrics;
    silent = h.silent;
    size =
        length-write_at v.state.read_buffer bytes v.state.read_len (omega (arith, h.size, h.fits))
        ∙ h.size;
    fits = omega (arith, h.fits);
    requested =
        take-write_at v.state.read_buffer bytes v.state.read_len (omega (arith, h.size, h.fits))
        ∙ ap (λ r. r ++ bytes) h.requested;
  }

  Answered-management_prepare_response :
      (v : Management) → Waits w got v → Answered w got (management_prepare_response v)
  unfolding management_prepare_response
  Answered-management_prepare_response v h =
      let answer = respond v.users v.metrics (request v) in
      let same : answer ≡ respond w.users w.metrics got =
        cc (h.same_users, h.same_metrics, h.requested) in
      record {
        table = ap (λ (p : Table × List ℕ). p.0) same;
        sent =
            ap (λ r. r ++ left answer.1 (length (c_str answer.1)) 0) h.silent
            ∙ (left-c_str answer.1 ∙ ap (λ (p : Table × List ℕ). c_str p.1) same);
        within = omega arith;
        memory = length-c_str answer.1;
      }

  complete-Waits :
      (v : Management)
      → Waits w got v
      → (contains 10 (request v) || v.state.read_len == (management_buffer_size - 1)) ≡ complete got
  complete-Waits v h =
      let same : v.state.read_len ≡ length got = omega (
        arith,
        ap length h.requested,
        length-take v.state.read_len v.state.read_buffer,
        h.size,
        h.fits,
      ) in
      ap₂ (λ r n. contains 10 r || n == (management_buffer_size - 1)) h.requested same

  Progress-answer_if_complete :
      (v : Management)
      → v.registered ≡ some op_read
      → Freed 0 v
      → Waits w got v
      → Progress w got (answer_if_complete v)
  unfolding management_prepare_response
  Progress-answer_if_complete v r f h =
      let a = Answered-management_prepare_response v h in
      if_lem (Progress w got)
        (contains 10 (take v.state.read_len v.state.read_buffer)
          || v.state.read_len == (management_buffer_size - 1))
        (λ e.
          answering refl f (sym (complete-Waits v h) ∙ e)
            (record { table = a.table; sent = a.sent; within = a.within; memory = a.memory }))
        (λ e. waiting r f (sym (complete-Waits v h) ∙ e) h)

module _ (w : Management) (got : List ℕ) (v : Management) (r : v.registered ≡ some op_read)
    (f : Freed 0 v) (c : complete got ≡ false) (h : Waits w got v) where
  Progress-gave_up : Progress w got (management_close v)
  Progress-gave_up =
      gave_up refl (ap suc f.0, ap suc f.1) c
        (record {
          same_users = h.same_users;
          same_metrics = h.same_metrics;
          silent = h.silent;
          size = h.size;
          fits = h.fits;
          requested = h.requested;
        })

  pub Progress-receive :
      (x : Recv)
      → ((bytes : List ℕ)
          → x ≡ received bytes
          → length bytes ≤ management_buffer_size - v.state.read_len - 1)
      → Progress w (got ++ given x) (receive x v)
  Progress-receive (received bytes) l =
      Progress-answer_if_complete w (got ++ bytes) (append_received bytes v) r f
        (Waits-append_received w got bytes v h (l bytes refl))
  Progress-receive end_of_stream l =
      subst (λ g. Progress w g (management_close v)) (sym (append-nil got)) Progress-gave_up
  Progress-receive (failed e) l =
      subst (λ g. Progress w g (if would_block e then v else management_close v))
        (sym (append-nil got))
        (if_lem (Progress w got) (would_block e) (λ _. waiting r f c h) (λ _. Progress-gave_up))

module _ (w : Management) (got : List ℕ) (c : complete got ≡ true) where
  Progress-after_answer :
      (o : Outcome) (v : Management)
      → v.registered ≡ some op_write
      → Freed 0 v
      → Answered w got v
      → Progress w got (after_answer o v)
  Progress-after_answer flushed v r f a =
      over refl (ap suc f.0, ap suc f.1) c
        (record { table = a.table; sent = a.sent; within = a.within; memory = a.memory })
  Progress-after_answer broken v r f a =
      over refl (ap suc f.0, ap suc f.1) c
        (record { table = a.table; sent = a.sent; within = a.within; memory = a.memory })
  Progress-after_answer blocked v r f a = answering r f c a
  Progress-after_answer unfinished v r f a = answering r f c a

  pub Progress-management_write :
      (send : Kernel) (v : Management)
      → Honest send
      → v.registered ≡ some op_write
      → Freed 0 v
      → Answered w got v
      → Progress w got (management_write send v)
  unfolding management_write
  Progress-management_write send v honest r f a =
      let t = flush_all send v.state.write_buffer v.state.write_len v.state.write_off 0 in
      let s =
        flush-Sent send honest v.state.write_buffer v.state.write_len
          (suc (v.state.write_len - v.state.write_off)) v.state.write_off [] 0 0 (omega arith)
          a.within (omega arith) a.memory in
      Progress-after_answer t.outcome (sent_answer t v) r f (record {
        table = a.table;
        sent =
            append_assoc v.to_client t.out (left v.state.write_buffer v.state.write_len t.off)
            ∙ (ap (λ r. v.to_client ++ r) s.bytes ∙ a.sent);
        within = s.within;
        memory = a.memory;
      })
