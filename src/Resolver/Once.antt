-- ===== src/Resolver/Once.antt =====
-- How often the job and its result are given back, by src/server/target_connection.c.
use protos_tpe_g.Prelude.{
  ℕ, suc, ◌⊎◌, ◌+◌, ◌≡◌, ◌≢◌, ◌≤◌, refl, sym, ap, ◌∙◌, subst, Bool, inl, inr, arith, true, false,
  if_lem, Option, none, List, [], ◌∷◌,
}
use protos_tpe_g.Resolver.{
  Phase, looking_up, posted, ended, Resolver, count, started, post, post_at, end_at, detach,
  take_result, Event, thread_posts, thread_ends, detaches, takes, step, run_events,
}

-- What the counts are, by where the thread is and whether the connection still holds the job.
record Held (s : Resolver) (done : Bool) (result : Option ℕ) : Type 0 where
  holding : s.held ≡ true
  attached : s.attached ≡ true
  is_done : s.done ≡ done
  stored : s.result ≡ result
  frees : s.frees ≡ 0
  given : s.released + s.taken ≡ 0

record Gone (s : Resolver) (freed given : ℕ) (done : Bool) : Type 0 where
  letting : s.held ≡ false
  detached : s.attached ≡ false
  is_done : s.done ≡ done
  frees : s.frees ≡ freed
  given_up : s.released + s.taken ≡ given

abbrev Account : Phase → Resolver → Type 0
Account looking_up s = Held s false none ⊎ Gone s 0 0 false
Account (posted true r) s = Held s true r ⊎ Gone s 1 (count r) true
Account (posted false r) s = Gone s 0 0 true
Account (ended true r) s = Held s true r ⊎ Gone s 1 (count r) true
Account (ended false r) s = Gone s 1 (count r) true

Account-post :
    (p : Phase) (r : Option ℕ) (s : Resolver)
    → s.phase ≡ p
    → Account p s
    → Account (post_at p r s).phase (post_at p r s)
Account-post looking_up r s e (inl h) =
    subst (λ b. Account (posted b r) (post r s)) (sym h.attached)
      (inl (record {
        holding = h.holding;
        attached = h.attached;
        is_done = refl;
        stored = refl;
        frees = h.frees;
        given = h.given;
      }))
Account-post looking_up r s e (inr g) =
    subst (λ b. Account (posted b r) (post r s)) (sym g.detached)
      (record {
        letting = g.letting;
        detached = g.detached;
        is_done = refl;
        frees = g.frees;
        given_up = g.given_up;
      })
Account-post (posted w q) r s e h = subst (λ x. Account x s) (sym e) h
Account-post (ended w q) r s e h = subst (λ x. Account x s) (sym e) h

Account-end :
    (p : Phase) (s : Resolver) → s.phase ≡ p → Account p s → Account (end_at p s).phase (end_at p s)
Account-end looking_up s e h = subst (λ x. Account x s) (sym e) h
Account-end (posted true r) s e (inl h) = inl (record {
  holding = h.holding;
  attached = h.attached;
  is_done = h.is_done;
  stored = h.stored;
  frees = h.frees;
  given = h.given;
})
Account-end (posted true r) s e (inr g) = inr (record {
  letting = g.letting;
  detached = g.detached;
  is_done = g.is_done;
  frees = g.frees;
  given_up = g.given_up;
})
Account-end (posted false r) s e g = record {
  letting = g.letting;
  detached = g.detached;
  is_done = g.is_done;
  frees = ap suc g.frees;
  given_up = omega (arith, g.given_up);
}
Account-end (ended w r) s e h = subst (λ x. Account x s) (sym e) h

-- A step of the connection leaves a job that it does not hold alone, frees a job that is done, and
-- leaves one that is not done to the thread or as it was.
record Settles (op : Resolver → Resolver) : Type 0 where
  phase : (s : Resolver) → (op s).phase ≡ s.phase
  gone : (s : Resolver) → s.held ≡ false → op s ≡ s
  finished : (s : Resolver) (r : Option ℕ) → Held s true r → Gone (op s) 1 (count r) true
  early : (s : Resolver) → Held s false none → Account looking_up (op s)

detach-Settles : Settles detach
unfolding detach
detach-Settles = record {
  phase = λ s.
      if_lem (λ (t : Resolver). t.phase ≡ s.phase) s.held
        (λ _. if_lem (λ (t : Resolver). t.phase ≡ s.phase) s.done (λ _. refl) (λ _. refl))
        (λ _. refl);
  gone = λ s e. rw e refl;
  finished = λ s r h.
      rw (h.holding, h.is_done)
        (record {
          letting = refl;
          detached = refl;
          is_done = refl;
          frees = ap suc h.frees;
          given_up = omega (arith, h.given, ap count h.stored);
        });
  early = λ s h.
      rw (h.holding, h.is_done)
        (inr (record {
          letting = refl;
          detached = refl;
          is_done = refl;
          frees = h.frees;
          given_up = h.given;
        }));
}

take_result-Settles : Settles take_result
unfolding take_result
take_result-Settles = record {
  phase = λ s.
      if_lem (λ (t : Resolver). t.phase ≡ s.phase) s.held
        (λ _. if_lem (λ (t : Resolver). t.phase ≡ s.phase) s.done (λ _. refl) (λ _. refl))
        (λ _. refl);
  gone = λ s e. rw e refl;
  finished = λ s r h.
      rw (h.holding, h.is_done)
        (record {
          letting = refl;
          detached = refl;
          is_done = refl;
          frees = ap suc h.frees;
          given_up = omega (arith, h.given, ap count h.stored);
        });
  early = λ s h.
      rw (h.holding, h.is_done)
        (inl (record {
          holding = refl;
          attached = h.attached;
          is_done = refl;
          stored = h.stored;
          frees = h.frees;
          given = h.given;
        }));
}

Account-settled :
    (op : Resolver → Resolver) (o : Settles op) (p : Phase) (s : Resolver)
    → Account p s
    → Account p (op s)
Account-settled op o looking_up s (inl h) = o.early s h
Account-settled op o looking_up s (inr g) =
    subst (λ t. Account looking_up t) (sym (o.gone s g.letting)) (inr g)
Account-settled op o (posted true r) s (inl h) = inr (o.finished s r h)
Account-settled op o (posted true r) s (inr g) =
    subst (λ t. Account (posted true r) t) (sym (o.gone s g.letting)) (inr g)
Account-settled op o (posted false r) s g =
    subst (λ t. Account (posted false r) t) (sym (o.gone s g.letting)) g
Account-settled op o (ended true r) s (inl h) = inr (o.finished s r h)
Account-settled op o (ended true r) s (inr g) =
    subst (λ t. Account (ended true r) t) (sym (o.gone s g.letting)) (inr g)
Account-settled op o (ended false r) s g =
    subst (λ t. Account (ended false r) t) (sym (o.gone s g.letting)) g

Account-op :
    (op : Resolver → Resolver) (o : Settles op) (s : Resolver)
    → Account s.phase s
    → Account (op s).phase (op s)
Account-op op o s a =
    subst (λ p. Account p (op s)) (sym (o.phase s)) (Account-settled op o s.phase s a)

Account-step : (e : Event) (s : Resolver) → Account s.phase s → Account (step e s).phase (step e s)
unfolding step
Account-step (thread_posts r) s a = Account-post s.phase r s refl a
Account-step thread_ends s a = Account-end s.phase s refl a
Account-step detaches s a = Account-op detach detach-Settles s a
Account-step takes s a = Account-op take_result take_result-Settles s a

Account-run :
    (es : List Event) (s : Resolver)
    → Account s.phase s
    → Account (run_events es s).phase (run_events es s)
unfolding run_events
Account-run [] s a = a
Account-run (e ∷ es) s a = Account-run es (step e s) (Account-step e s a)

-- While the thread will still use the job, it is not freed; once the thread has ended and the
-- connection has let go, the job is freed and its result, if any, is freed or taken, once.
abbrev pub Live : Phase → Resolver → Type 0
Live looking_up s = s.frees ≡ 0
Live (posted true r) s = Unit
Live (posted false r) s = s.frees ≡ 0
Live (ended w r) s = s.held ≡ false → (s.frees ≡ 1) × (s.released + s.taken ≡ count r)

true_not_false : true ≢ false
true_not_false e = cc

Held-Gone : (s : Resolver) (d : Bool) (r : Option ℕ) → Held s d r → s.held ≢ false
Held-Gone s d r h e = true_not_false (sym h.holding ∙ e)

Account-Live :
    (p : Phase) (s : Resolver)
    → Account p s
    → Live p s × (s.frees ≤ 1) × (s.held ≡ true → s.frees ≡ 0)
Account-Live looking_up s (inl h) = (h.frees, omega (arith, h.frees), λ _. h.frees)
Account-Live looking_up s (inr g) = (g.frees, omega (arith, g.frees), λ _. g.frees)
Account-Live (posted true r) s (inl h) = (tt, omega (arith, h.frees), λ _. h.frees)
Account-Live (posted true r) s (inr g) =
    (tt, omega (arith, g.frees), λ k. absurd (true_not_false (sym k ∙ g.letting)))
Account-Live (posted false r) s g = (g.frees, omega (arith, g.frees), λ _. g.frees)
Account-Live (ended true r) s (inl h) =
    ((λ k. absurd (Held-Gone s true r h k)), omega (arith, h.frees), λ _. h.frees)
Account-Live (ended true r) s (inr g) = (
  (λ _. (g.frees, g.given_up)),
  omega (arith, g.frees),
  λ k. absurd (true_not_false (sym k ∙ g.letting)),
)
Account-Live (ended false r) s g = (
  (λ _. (g.frees, g.given_up)),
  omega (arith, g.frees),
  λ k. absurd (true_not_false (sym k ∙ g.letting)),
)

-- Whatever the order in which the thread posts its result and ends, and the connection takes the
-- result or lets go: the job is freed at most once, never while the connection holds it nor while the
-- thread has yet to use it, and once the thread has ended and the connection holds it no more it is
-- freed, and its result, if there is one, has been freed or taken exactly once.
pub run_events-Live :
    (es : List Event)
    → Live (run_events es started).phase (run_events es started)
      × ((run_events es started).frees ≤ 1)
      × ((run_events es started).held ≡ true → (run_events es started).frees ≡ 0)
run_events-Live es = Account-Live (run_events es started).phase (run_events es started) (
    Account-run es started (
      inl (record {
        holding = refl;
        attached = refl;
        is_done = refl;
        stored = refl;
        frees = refl;
        given = refl;
      })))
