-- ===== src/Server/Serving/Keeping.antt =====
-- What the handlers of the server leave of the table.
use protos_tpe_g.Prelude.{
  ℕ, leb, ◌<◌, ◌≡◌, ◌==◌, ◌⊎◌, refl, sym, subst, ap, ◌∙◌, Bool, Bool-cases, inl, inr, arith, if_lem,
  ◌&&◌, true, false, Option, none, some, List, [], ◌∷◌,
}
use protos_tpe_g.Session.Defs.{Interest, Handler, client_handler, target_handler, Registration}
use protos_tpe_g.Selector.{
  Item, Selector, Status, success, items_max_size, item_at, selector_register,
  selector_unregister_fd, selector_set_interest,
}
use protos_tpe_g.Selector.Operations.{
  used_item, selector_unregister_fd-Answers, selector_set_interest-Answers, with_interest,
  some_item,
}
use protos_tpe_g.Accept.{client_kind, management_kind}
use protos_tpe_g.Server.Table.{Known, Fits, Apart, Fits-answer, register-Fits}
use protos_tpe_g.Server.Serving.{
  follow_item, follow, follow_all, table_after, wanted_of, number, target_number, accept_number,
  management_accept_number, wanted_management,
}

abbrev pub IsConnection : ℕ → Type 0
IsConnection h = (h ≡ client_kind.handler) ⊎ ((h ≡ management_kind.handler) ⊎ (h ≡ target_number))

abbrev pub IsListening : ℕ → Type 0
IsListening h = (h ≡ accept_number) ⊎ (h ≡ management_accept_number)

-- The table of the server, of which the jobs tell that are left.
abbrev pub IsServer : ℕ → List ℕ → Selector → Type 0
IsServer next jobs s = Fits IsConnection IsListening client_kind.handler next jobs s

abbrev pub IsApart : ℕ → Selector → List ℕ → Type 0
IsApart d s jobs = Apart IsConnection IsListening client_kind.handler d s jobs

-- A change that leaves a server's table, in which the jobs tell of no more states than before.
abbrev pub Leaves : ℕ → List ℕ → Selector → Selector → Type 0
Leaves next jobs s t = IsServer next jobs t × ((k : ℕ) → IsApart k s jobs → IsApart k t jobs)

Leaves-trans :
    (next : ℕ) (jobs : List ℕ) (s t u : Selector)
    → Leaves next jobs s t
    → Leaves next jobs t u
    → Leaves next jobs s u
Leaves-trans next jobs s t u p q = (q.0, λ k a. q.1 k (p.1 k a))

after_answer :
    (next : ℕ) (jobs : List ℕ) (s t : Selector) (status : Status) (o : Option (Status × Selector))
    → o ≡ some (status, t)
    → Leaves next jobs s t
    → Leaves next jobs s (table_after o s)
after_answer next jobs s t status o e p =
    subst (λ o. Leaves next jobs s (table_after o s)) (sym e) p

abbrev pub Wants : Option (ℕ × Interest) → Type 0
Wants none = Unit
Wants (some (handler, i)) = IsConnection handler

module _ (next d : ℕ) (jobs : List ℕ) (s : Selector) (f : IsServer next jobs s)
    (apart : IsApart d s jobs) (h : d < next) where
  follow_none_inside :
      (fd : ℕ) (item : Item)
      → fd < items_max_size
      → item_at s.fds fd ≡ some (some item)
      → item.data_of ≡ d
      → Leaves next jobs s (table_after (selector_unregister_fd (λ _ t. t) (some fd) s) s)
  follow_none_inside fd item inside at own =
      let a = selector_unregister_fd-Answers (λ _ t. t) s fd item item inside at f.valid refl at in
      after_answer next jobs s a.table success _ a.returns (
        Fits-answer IsConnection IsListening client_kind.handler next d fd jobs _ success s none a f
          apart (omega arith) (λ it e. absurd (cc e))
          (λ it e. ap (λ (x : Item). x.data_of) (used_item (sym e ∙ at)) ∙ own))

  follow_none :
      (fd : ℕ) (item : Item)
      → item_at s.fds fd ≡ some (some item)
      → item.data_of ≡ d
      → Leaves next jobs s (table_after (selector_unregister_fd (λ _ t. t) (some fd) s) s)
  unfolding selector_unregister_fd
  follow_none fd item at own = elim (Bool-cases (leb items_max_size fd)) [
    | inl outside ↦ rw outside (f, λ k a. a)
    | inr inside ↦ follow_none_inside fd item (ground arith) at own
  ]

  follow_interest_inside :
      (fd handler : ℕ) (i : Interest) (item : Item)
      → fd < items_max_size
      → item_at s.fds fd ≡ some (some item)
      → IsConnection handler
      → item.handler ≡ handler
      → item.data_of ≡ d
      → Leaves next jobs s (table_after (selector_set_interest (some fd) i s) s)
  follow_interest_inside fd handler i item inside at c same own =
      let a = selector_set_interest-Answers s fd i (some item) f.valid inside at in
      after_answer next jobs s a.table success _ a.returns (
        Fits-answer IsConnection IsListening client_kind.handler next d fd jobs _ success s
          (with_interest i (some item)) a f apart (omega arith)
          (λ it e.
            subst
              (λ (x : Item).
                (x.data_of ≡ d) × Known IsConnection IsListening client_kind.handler next x)
              (some_item e)
              (
                own,
                record {
                  data_of = omega (arith, own);
                  role = inl (subst IsConnection (sym same) c);
                },
              ))
          (λ it e. ap (λ (x : Item). x.data_of) (used_item (sym e ∙ at)) ∙ own))

  follow_interest :
      (fd handler : ℕ) (i : Interest) (item : Item)
      → item_at s.fds fd ≡ some (some item)
      → IsConnection handler
      → item.handler ≡ handler
      → item.data_of ≡ d
      → Leaves next jobs s (table_after (selector_set_interest (some fd) i s) s)
  unfolding selector_set_interest
  follow_interest fd handler i item at c same own = elim (Bool-cases (leb items_max_size fd)) [
    | inl outside ↦ rw outside (f, λ k a. a)
    | inr inside ↦ follow_interest_inside fd handler i item (ground arith) at c same own
  ]

  follow_register :
      (fd handler : ℕ) (i : Interest)
      → IsConnection handler
      → Leaves next jobs s (table_after (selector_register true (some fd) (some handler) i d s) s)
  follow_register fd handler i c =
      let (out, e, p) =
        register-Fits IsConnection IsListening client_kind.handler true next d fd handler i jobs s f
          apart h (inl c) in
      after_answer next jobs s out.1 out.0 _ e p

  follow_item-Leaves :
      (fd : ℕ) (wanted : Option (ℕ × Interest)) (o : Option (Option Item))
      → item_at s.fds fd ≡ o
      → Wants wanted
      → Leaves next jobs s (follow_item d fd wanted o s)
  follow_item-Leaves fd none none at w = (f, λ k a. a)
  follow_item-Leaves fd (some (handler, i)) none at w = (f, λ k a. a)
  follow_item-Leaves fd none (some none) at w = (f, λ k a. a)
  follow_item-Leaves fd (some (handler, i)) (some none) at w = follow_register fd handler i w
  follow_item-Leaves fd none (some (some item)) at w =
      if_lem (Leaves next jobs s) (item.data_of == d) (λ e. follow_none fd item at (ground arith))
        (λ _. (f, λ k a. a))
  follow_item-Leaves fd (some (handler, i)) (some (some item)) at w =
      if_lem (Leaves next jobs s) (item.handler == handler && item.data_of == d)
        (λ e.
          let (a, b) = both (item.handler == handler) (item.data_of == d) e in
          follow_interest fd handler i item at w (ground arith) (ground arith))
        (λ _. (f, λ k a. a))
    where
      both : (a b : Bool) → (a && b) ≡ true → (a ≡ true) × (b ≡ true)
      both true b e = (refl, e)
      both false b e = absurd cc

-- A handler that brings descriptors of the connection `d` to what it wants.
pub follow_all-Leaves :
    (next d : ℕ) (jobs : List ℕ) (wanted : ℕ → Option (ℕ × Interest)) (fds : List ℕ) (s : Selector)
    → IsServer next jobs s
    → IsApart d s jobs
    → d < next
    → ((fd : ℕ) → Wants (wanted fd))
    → Leaves next jobs s (follow_all d wanted fds s)
follow_all-Leaves next d jobs wanted [] s f a h w = (f, λ k b. b)
follow_all-Leaves next d jobs wanted (fd ∷ fds) s f a h w =
    let p = follow_item-Leaves next d jobs s f a h fd (wanted fd) (item_at s.fds fd) refl (w fd) in
    let t = follow d fd (wanted fd) s in
    Leaves-trans next jobs s t (follow_all d wanted fds t) p
      (follow_all-Leaves next d jobs wanted fds t p.0 (p.1 d a) h w)

pub Wants-wanted_of : (r : Option Registration) → Wants (wanted_of r)
Wants-wanted_of none = tt
Wants-wanted_of (some r) = go r.handler
  where
    go : (h : Handler) → IsConnection (number h)
    go client_handler = inl refl
    go target_handler = inr (inr refl)

pub Wants-wanted_management : (i : Option Interest) → Wants (wanted_management i)
Wants-wanted_management none = tt
Wants-wanted_management (some i) = inr (inl refl)
