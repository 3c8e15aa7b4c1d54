-- ===== src/Buffer.antt =====
-- src/utils/buffer.c: a byte buffer with a read and a write pointer. The memory is the list of the
-- bytes at `data`; the pointers are offsets into it. `none` is a failed `assert`.
pub mod Invariant
pub mod Queue
pub mod Reading
mod Tests
use protos_tpe_g.Prelude.{
  ℕ, ◌+◌, ◌-◌, ◌==◌, Bool, true, false, if◌then◌else◌, Option, none, some, List, [], ◌∷◌, ◌++◌, ltb,
  leb, length, get_or, set, take, drop,
}
use mathlib.Core.Option

-- `struct buffer`, with `data` and `limit` as the memory and the offset `limit - data`
pub record Buffer : Type 0 where
  pub memory : List ℕ
  pub limit : ℕ
  pub read : ℕ
  pub write : ℕ

-- a `ssize_t`: a number of bytes, or an error
pub data SSize : Type 0 where
  bytes : ℕ → SSize
  negative : SSize

unfoldable pub buffer_reset : Buffer → Buffer
buffer_reset b = record b { read = 0; write = 0 }

unfoldable pub buffer_init : ℕ → List ℕ → Buffer
unfolding buffer_reset
buffer_init n memory =
    record (buffer_reset (record { memory = memory; limit = 0; read = 0; write = 0 })) { limit = n }

unfoldable pub buffer_can_write : Buffer → Bool
buffer_can_write b = ltb b.write b.limit

unfoldable pub buffer_can_read : Buffer → Bool
buffer_can_read b = ltb b.read b.write

-- the offset of the pointer that is returned, and `*nbyte`
unfoldable pub buffer_write_ptr : Buffer → Option (ℕ × ℕ)
buffer_write_ptr b = if leb b.write b.limit then some (b.write, b.limit - b.write) else none

unfoldable pub buffer_read_ptr : Buffer → Option (ℕ × ℕ)
buffer_read_ptr b = if leb b.read b.write then some (b.read, b.write - b.read) else none

-- `memmove(data, read, n)`
abbrev pub memmove_front : List ℕ → ℕ → ℕ → List ℕ
memmove_front memory from n = take n (drop from memory) ++ drop n memory

unfoldable pub buffer_compact : Buffer → Buffer
buffer_compact b =
    if b.read == 0
    then b
    else if b.read == b.write
    then record b { read = 0; write = 0 }
    else record b {
      memory = memmove_front b.memory b.read (b.write - b.read);
      read = 0;
      write = b.write - b.read;
    }

unfoldable pub buffer_write_adv : Buffer → SSize → Option Buffer
buffer_write_adv b negative = some b
buffer_write_adv b (bytes n) =
    if leb (b.write + n) b.limit then some (record b { write = b.write + n }) else none

abbrev pub compact_if_empty : Buffer → Buffer
compact_if_empty b = if b.read == b.write then buffer_compact b else b

unfoldable pub buffer_read_adv : Buffer → SSize → Option Buffer
buffer_read_adv b negative = some b
buffer_read_adv b (bytes n) =
    if leb (b.read + n) b.write
    then some (compact_if_empty (record b { read = b.read + n }))
    else none

-- the byte, and the buffer afterwards
unfoldable pub buffer_read : Buffer → Option (ℕ × Buffer)
unfolding buffer_can_read
buffer_read b =
    if buffer_can_read b
    then Option.map (λ c. (get_or b.memory b.read 0, c)) (buffer_read_adv b (bytes 1))
    else some (0, b)

unfoldable pub buffer_write : Buffer → ℕ → Option Buffer
unfolding buffer_can_write
buffer_write b c =
    if buffer_can_write b
    then buffer_write_adv (record b { memory = set b.memory b.write c }) (bytes 1)
    else some b
