-- ===== src/Buffer/Reading.antt =====
-- `buffer_read` of src/utils/buffer.c, on the contents of a buffer.
use protos_tpe_g.Prelude.{
  ℕ, zero, suc, ◌-◌, ◌<◌, ◌≡◌, refl, ap, sym, ◌∙◌, true, Option, some, List, [], ◌∷◌, arith, ltb,
  length, length-take, length-drop, take, drop, get_or,
}
use protos_tpe_g.Buffer.{Buffer, buffer_can_read, buffer_read}
use protos_tpe_g.Buffer.Invariant.{IsValid}
use protos_tpe_g.Buffer.Queue.{contents, buffer_read_adv-Yields}

window-head :
    (memory : List ℕ) (r n : ℕ)
    → r < length memory
    → 0 < n
    → take n (drop r memory) ≡ get_or memory r 0 ∷ drop 1 (take n (drop r memory))
window-head [] r n h k = absurd (omega arith)
window-head (x ∷ memory) zero zero h k = absurd (omega arith)
window-head (x ∷ memory) zero (suc n) h k = refl
window-head (x ∷ memory) (suc r) n h k = window-head memory r n (omega arith) k

-- A byte off the front, and the rest.
pub record Reads (b : Buffer) (o : Option (ℕ × Buffer)) : Type 0 where
  pub byte : ℕ
  pub rest : Buffer
  pub returns : o ≡ some (byte, rest)
  pub valid : IsValid rest
  pub front : contents b ≡ byte ∷ contents rest

-- `buffer_read` on a valid buffer that is not empty never fails: it returns the first byte of the
-- contents and leaves a valid buffer with the others.
pub buffer_read-Reads : (b : Buffer) → IsValid b → 0 < length (contents b) → Reads b (buffer_read b)
unfolding buffer_read buffer_can_read
buffer_read-Reads b v h =
    let size : length (contents b) ≡ b.write - b.read = omega (
      arith,
      length-take (b.write - b.read) (drop b.read b.memory),
      length-drop b.read b.memory,
      v.ordered,
      v.within,
      v.room,
    ) in
    let y = (buffer_read_adv-Yields b 1 v).0 (omega arith) in
    let more : ltb b.read b.write ≡ true = ground arith in
    record {
      byte = get_or b.memory b.read 0;
      rest = y.buffer;
      returns = rw (more, y.returns) refl;
      valid = y.valid;
      front =
          window-head b.memory b.read (b.write - b.read) (omega (arith, v.within, v.room, size))
            (omega (arith, size))
          ∙ ap (λ l. get_or b.memory b.read 0 ∷ l) (sym y.holds);
    }
