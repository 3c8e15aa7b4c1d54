-- ===== src/Buffer/Invariant.antt =====
-- R <= W <= limit, as src/utils/include/buffer.h states it, with the memory large enough.
use protos_tpe_g.Prelude.{
  ℕ, ◌+◌, ◌-◌, ◌≤◌, ◌≡◌, List, arith, length, length-append, length-take, length-drop, take, drop,
}
use protos_tpe_g.Buffer.{Buffer, buffer_reset, buffer_init, buffer_compact, memmove_front}

pub record IsValid (b : Buffer) : Type 0 where
  pub ordered : b.read ≤ b.write
  pub within : b.write ≤ b.limit
  pub room : b.limit ≤ length b.memory

-- `buffer_init` over at least `n` bytes gives a valid buffer.
pub buffer_init-IsValid :
    (n : ℕ) (memory : List ℕ) → n ≤ length memory → IsValid (buffer_init n memory)
unfolding buffer_init
buffer_init-IsValid n memory h = omega arith

pub buffer_reset-IsValid : (b : Buffer) → IsValid b → IsValid (buffer_reset b)
unfolding buffer_reset
buffer_reset-IsValid b v = omega arith

pub length-memmove_front :
    (memory : List ℕ) (from n : ℕ)
    → from + n ≤ length memory
    → length (memmove_front memory from n) ≡ length memory
length-memmove_front memory from n h = omega (
  arith,
  length-append (take n (drop from memory)) (drop n memory),
  length-take n (drop from memory),
  length-drop from memory,
  length-drop n memory,
)

-- `buffer_compact` keeps a buffer valid, with its limit, and puts the read pointer at the front.
pub buffer_compact-IsValid :
    (b : Buffer)
    → IsValid b
    → IsValid (buffer_compact b)
      × ((buffer_compact b).read ≡ 0)
      × ((buffer_compact b).write ≡ b.write - b.read)
      × ((buffer_compact b).limit ≡ b.limit)
unfolding buffer_compact
buffer_compact-IsValid b v = ground (arith, length-memmove_front b.memory b.read (b.write - b.read))
