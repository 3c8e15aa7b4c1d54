-- ===== src/Session/Teardown/Depth.antt =====
-- How deep the calls of `selector_unregister_fd` nest.
use protos_tpe_g.Prelude.{
  ℕ, suc, ◌≡◌, ◌∙◌, refl, ap, sym, Bool, true, if◌then◌else◌, if_lem, Option, none, some,
}
use protos_tpe_g.Session.Defs.{World, Handler, client_handler, target_handler, Registration}
use protos_tpe_g.Session.Close.{
  close_fd, holds, set_client_fd, set_target_fd, release, close_target_if, close_any_target,
  handle_close, forget, unregister_entry, unregister_to, unregister,
}
use protos_tpe_g.Session.Teardown.{unregister_to-entry}

abbrev Unregister : Type 0
Unregister = World → ℕ → Bool × World

-- The nested call is made with no target left, and then nests no further.
entry_same :
    (u u' : Unregister) (r : Option Registration) (fd : ℕ) (w : World)
    → ((v : World) → close_any_target u v ≡ close_any_target u' v)
    → unregister_entry u r fd w ≡ unregister_entry u' r fd w
entry_same u u' none fd w h = refl
entry_same u u' (some r) fd w h = go r.handler
  where
    go :
        (k : Handler)
        → ◌≡◌ {A = Bool × World}
            (true, forget fd (handle_close u k fd w))
            (true, forget fd (handle_close u' k fd w))
    go client_handler =
        ap (λ (v : World). (true, forget fd (close_fd fd (release v))))
          (h (if holds w.state.client_fd fd then set_client_fd none w else w))
    go target_handler = refl

close_none : (u : Unregister) (v : World) → v.state.target_fd ≡ none → close_any_target u v ≡ v
close_none u v e = ap (λ o. close_target_if u o v) e

-- `client_close` does not call `selector_unregister_fd` where there is no target.
entry_alone :
    (u u' : Unregister) (r : Option Registration) (fd : ℕ) (w : World)
    → w.state.target_fd ≡ none
    → unregister_entry u r fd w ≡ unregister_entry u' r fd w
entry_alone u u' none fd w e = refl
entry_alone u u' (some r) fd w e = go r.handler
  where
    v : World
    v = if holds w.state.client_fd fd then set_client_fd none w else w

    still : v.state.target_fd ≡ none
    still =
        if_lem (λ (x : World). x.state.target_fd ≡ none) (holds w.state.client_fd fd) (λ _. e)
          (λ _. e)

    go :
        (k : Handler)
        → ◌≡◌ {A = Bool × World}
            (true, forget fd (handle_close u k fd w))
            (true, forget fd (handle_close u' k fd w))
    go client_handler =
        ap (λ (x : World). (true, forget fd (close_fd fd (release x))))
          (close_none u v still ∙ sym (close_none u' v still))
    go target_handler = refl

alone :
    (d e : ℕ) (w : World) (fd : ℕ)
    → w.state.target_fd ≡ none
    → unregister_to (suc d) w fd ≡ unregister_to (suc e) w fd
alone d e w fd h =
    unregister_to-entry d w fd (w.registry fd) refl
    ∙ (entry_alone (unregister_to d) (unregister_to e) (w.registry fd) fd w h
        ∙ sym (unregister_to-entry e w fd (w.registry fd) refl))

close_target_depth :
    (d : ℕ) (t : Option ℕ) (v : World)
    → close_target_if (unregister_to (suc d)) t v ≡ close_target_if (unregister_to 1) t v
close_target_depth d none v = refl
close_target_depth d (some t) v =
    ap (λ (p : Bool × World). if p.0 then p.1 else close_fd t p.1)
      (alone d 0 (set_target_fd none v) t refl)

-- Unregistering nests twice at most, in any world: a deeper limit changes nothing.
pub unregister_depth :
    (depth : ℕ) (w : World) (fd : ℕ) → unregister_to (suc (suc depth)) w fd ≡ unregister w fd
unfolding unregister
unregister_depth depth w fd =
    unregister_to-entry (suc depth) w fd (w.registry fd) refl
    ∙ (entry_same (unregister_to (suc depth)) (unregister_to 1) (w.registry fd) fd w
          (λ v. close_target_depth depth v.state.target_fd v)
        ∙ sym (unregister_to-entry 1 w fd (w.registry fd) refl))
