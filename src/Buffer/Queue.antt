-- ===== src/Buffer/Queue.antt =====
-- The contents of a buffer, between its pointers, and what src/utils/buffer.c does to them.
use protos_tpe_g.Prelude.{
  ℕ, zero, suc, ◌+◌, ◌-◌, ◌≤◌, ◌<◌, ◌≡◌, refl, ap, sym, ◌∙◌, ◌==◌, true, false, if◌then◌else◌,
  if_lem, Bool-cases, inl, inr, Option, none, some, List, [], ◌∷◌, ◌++◌, arith, ltb, leb, length,
  length-take, length-drop, length-set, set, take, drop, take-append, drop-add,
}
use protos_tpe_g.Buffer.{
  Buffer, bytes, buffer_compact, buffer_write_adv, buffer_read_adv, buffer_write, memmove_front,
  compact_if_empty,
}
use protos_tpe_g.Buffer.Invariant.{IsValid, buffer_compact-IsValid}

abbrev pub contents : Buffer → List ℕ
contents b = take (b.write - b.read) (drop b.read b.memory)

take-set_end :
    (memory : List ℕ) (w c : ℕ)
    → w < length memory
    → take (suc w) (set memory w c) ≡ take w memory ++ (c ∷ [])
take-set_end [] w c h = absurd (omega arith)
take-set_end (x ∷ memory) zero c h = refl
take-set_end (x ∷ memory) (suc w) c h = ap (λ r. x ∷ r) (take-set_end memory w c (omega arith))

-- A byte written at the write pointer joins the end of the contents.
window-set :
    (memory : List ℕ) (r w c n m : ℕ)
    → r ≤ w
    → w < length memory
    → n ≡ w - r
    → m ≡ suc n
    → take m (drop r (set memory w c)) ≡ take n (drop r memory) ++ (c ∷ [])
window-set memory zero w c n m o h e f =
    ap (λ k. take k (set memory w c)) (f ∙ ap suc (omega arith))
    ∙ (take-set_end memory w c h ∙ ap (λ k. take k memory ++ (c ∷ [])) (omega arith))
window-set [] (suc r) w c n m o h e f = absurd (omega arith)
window-set (x ∷ memory) (suc r) zero c n m o h e f = absurd (omega arith)
window-set (x ∷ memory) (suc r) (suc w) c n m o h e f =
    window-set memory r w c n m (omega arith) (omega arith) (omega arith) f

take_front : (xs ys : List ℕ) (n : ℕ) → length xs ≡ n → take n (xs ++ ys) ≡ xs
take_front xs ys n e = ap (λ k. take k (xs ++ ys)) (sym e) ∙ take-append xs ys

-- `buffer_compact` keeps the contents.
pub contents-buffer_compact : (b : Buffer) → IsValid b → contents (buffer_compact b) ≡ contents b
unfolding buffer_compact
contents-buffer_compact b v =
    if_lem (λ (c : Buffer). contents c ≡ contents b) (b.read == 0) (λ _. refl)
      λ _.
        if_lem (λ (c : Buffer). contents c ≡ contents b) (b.read == b.write)
          (λ e.
            let none_left : b.write - b.read ≡ 0 = ground arith in
            ap (λ k. take k (drop b.read b.memory)) (sym none_left))
          (λ _.
            let whole : b.write - b.read - 0 ≡ b.write - b.read = omega arith in
            ap (λ k. take k (memmove_front b.memory b.read (b.write - b.read))) whole
            ∙ take_front (contents b) (drop (b.write - b.read) b.memory) (b.write - b.read) (
                omega (
                  arith,
                  length-take (b.write - b.read) (drop b.read b.memory),
                  length-drop b.read b.memory,
                  v.ordered,
                  v.within,
                  v.room,
                )))

-- What an operation returns: a valid buffer with these contents.
pub record Yields (o : Option Buffer) (limit : ℕ) (queue : List ℕ) : Type 0 where
  pub buffer : Buffer
  pub returns : o ≡ some buffer
  pub valid : IsValid buffer
  pub same_limit : buffer.limit ≡ limit
  pub holds : contents buffer ≡ queue

-- `buffer_write` on a valid buffer never fails: with room it appends the byte, else it changes
-- nothing.
pub buffer_write-Yields :
    (b : Buffer) (c : ℕ)
    → IsValid b
    → Yields
        (buffer_write b c)
        b.limit
        (if ltb b.write b.limit then contents b ++ (c ∷ []) else contents b)
unfolding buffer_write buffer_write_adv
buffer_write-Yields b c v = elim (Bool-cases (ltb b.write b.limit)) [
  | inl space ↦ rw space (record {
    buffer = record b { memory = set b.memory b.write c; write = b.write + 1 };
    returns = ground arith;
    valid = ground (arith, length-set b.memory b.write c);
    same_limit = refl;
    holds =
        window-set b.memory b.read b.write c (b.write - b.read) (b.write + 1 - b.read) v.ordered
          (ground arith) refl (omega (arith, v.ordered));
  })
  | inr full ↦
      rw full (record { buffer = b; returns = refl; valid = v; same_limit = refl; holds = refl })
]

take-nil : (n : ℕ) → take {A = ℕ} n [] ≡ []
take-nil zero = refl
take-nil (suc n) = refl

drop-take : (xs : List ℕ) (n m k : ℕ) → k ≡ m - n → drop n (take m xs) ≡ take k (drop n xs)
drop-take xs zero m k e = ap (λ j. take j xs) (omega arith)
drop-take [] (suc n) zero k e = sym (take-nil k)
drop-take [] (suc n) (suc m) k e = sym (take-nil k)
drop-take (x ∷ xs) (suc n) zero zero e = refl
drop-take (x ∷ xs) (suc n) zero (suc k) e = absurd (omega arith)
drop-take (x ∷ xs) (suc n) (suc m) k e = drop-take xs n m k (omega arith)

contents-advance :
    (b : Buffer) (n : ℕ)
    → b.read + n ≤ b.write
    → contents (record b { read = b.read + n }) ≡ drop n (contents b)
contents-advance b n h =
    ap (λ l. take (b.write - (b.read + n)) l) (drop-add b.memory (b.read + n) b.read n refl)
    ∙ sym (
        drop-take (drop b.read b.memory) n (b.write - b.read) (b.write - (b.read + n))
          (omega arith))

compact_if_empty-Yields :
    (b : Buffer) → IsValid b → Yields (some (compact_if_empty b)) b.limit (contents b)
compact_if_empty-Yields b v = record {
  buffer = compact_if_empty b;
  returns = refl;
  valid =
      if_lem (λ (c : Buffer). IsValid c) (b.read == b.write) (λ _. (buffer_compact-IsValid b v).0)
        (λ _. v);
  same_limit =
      if_lem (λ (c : Buffer). c.limit ≡ b.limit) (b.read == b.write)
        (λ _. (buffer_compact-IsValid b v).3) (λ _. refl);
  holds =
      if_lem (λ (c : Buffer). contents c ≡ contents b) (b.read == b.write)
        (λ _. contents-buffer_compact b v) (λ _. refl);
}

-- `buffer_read_adv` on a valid buffer takes `n` bytes off the front of its contents, if it holds as
-- many, and fails its assertion exactly if it does not.
pub buffer_read_adv-Yields :
    (b : Buffer) (n : ℕ)
    → IsValid b
    → (n ≤ length (contents b) → Yields (buffer_read_adv b (bytes n)) b.limit (drop n (contents b)))
      × (length (contents b) < n → buffer_read_adv b (bytes n) ≡ none)
unfolding buffer_read_adv
buffer_read_adv-Yields b n v = (
  (λ h.
      let fits : b.read + n ≤ b.write = omega (arith, size, v.ordered) in
      let test : leb (b.read + n) b.write ≡ true = ground arith in
      rw (test, ← contents-advance b n fits)
        (compact_if_empty-Yields (record b { read = b.read + n })
          (record { ordered = fits; within = v.within; room = v.room }))),
  (λ h.
      let test : leb (b.read + n) b.write ≡ false = ground (arith, size, v.ordered) in
      rw test refl),
)
  where
    size : length (contents b) ≡ b.write - b.read
    size = omega (
      arith,
      length-take (b.write - b.read) (drop b.read b.memory),
      length-drop b.read b.memory,
      v.ordered,
      v.within,
      v.room,
    )
