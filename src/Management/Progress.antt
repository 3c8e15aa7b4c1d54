-- ===== src/Management/Progress.antt =====
-- Where a management connection can be, and what its buffers hold.
use protos_tpe_g.Prelude.{
  ℕ, ◌+◌, ◌-◌, ◌≤◌, ◌<◌, ◌≡◌, ◌==◌, refl, ap, ◌∙◌, Bool, true, false, ◌||◌, if◌then◌else◌, Option,
  none, some, List, [], ◌∷◌, ◌++◌, length, length-append, length-take, length-drop, take, drop,
  take-append, take-append_past, arith,
}
use protos_tpe_g.Session.Defs.{Interest, op_read, op_write, write_at, c_str}
use protos_tpe_g.Session.Flush.{Honest}
use protos_tpe_g.Session.Sending.{left}
use protos_tpe_g.Session.Env.{Recv, received}
use protos_tpe_g.Management.Respond.{management_buffer_size, respond}
use protos_tpe_g.Management.Handlers.{Management, contains, Call, reads, writes, dispatch_if}

-- the bytes received so far
abbrev pub request : Management → List ℕ
request v = take v.state.read_len v.state.read_buffer

-- what one call takes from the socket
abbrev pub given : Recv → List ℕ
given (received bytes) = bytes
given _ = []

abbrev pub input_at : Option Interest → Call → Management → List ℕ
input_at none c w = []
input_at (some i) (reads recv) w =
    if i.reads then given (recv (management_buffer_size - w.state.read_len - 1)) else []
input_at (some i) (writes send) w = []

unfoldable pub inputs : List Call → Management → List ℕ
inputs [] w = []
inputs (c ∷ cs) w = input_at w.registered c w ++ inputs cs (dispatch_if w.registered c w)

abbrev pub IsHonestCall : Call → Type 0
IsHonestCall (reads recv) =
    (room : ℕ) (bytes : List ℕ) → recv room ≡ received bytes → length bytes ≤ room
IsHonestCall (writes send) = Honest send

abbrev pub AllHonest : List Call → Type 0
AllHonest [] = Unit
AllHonest (c ∷ cs) = IsHonestCall c × AllHonest cs

-- No answer yet: the table is as it was, and nothing is sent.
pub record Waits (w : Management) (got : List ℕ) (v : Management) : Type 0 where
  pub same_users : v.users ≡ w.users
  pub same_metrics : v.metrics ≡ w.metrics
  pub silent : v.to_client ≡ []
  pub size : length v.state.read_buffer ≡ management_buffer_size
  pub fits : v.state.read_len < management_buffer_size
  pub requested : request v ≡ got

-- The answer to what was received is in the table, and sent or still to be sent.
pub record Answered (w : Management) (got : List ℕ) (v : Management) : Type 0 where
  pub table : v.users ≡ (respond w.users w.metrics got).0
  pub sent :
      v.to_client ++ left v.state.write_buffer v.state.write_len v.state.write_off
      ≡ c_str (respond w.users w.metrics got).1
  pub within : v.state.write_off ≤ v.state.write_len
  pub memory : v.state.write_len ≤ length v.state.write_buffer

abbrev pub Freed : ℕ → Management → Type 0
Freed n v = (v.frees ≡ n) × (v.closes ≡ n)

-- The bytes make a request: a line, or all that fits into the buffer.
abbrev pub complete : List ℕ → Bool
complete got = contains 10 got || length got == (management_buffer_size - 1)

-- From `w`, with the bytes `got` received: where a connection can be.
pub data Progress (w : Management) (got : List ℕ) (v : Management) : Type 0 where
  waiting :
      v.registered ≡ some op_read
      → Freed 0 v
      → complete got ≡ false
      → Waits w got v
      → Progress w got v
  answering :
      v.registered ≡ some op_write
      → Freed 0 v
      → complete got ≡ true
      → Answered w got v
      → Progress w got v
  gave_up :
      v.registered ≡ none → Freed 1 v → complete got ≡ false → Waits w got v → Progress w got v
  over : v.registered ≡ none → Freed 1 v → complete got ≡ true → Answered w got v → Progress w got v

pub length-c_str : (t : List ℕ) → length (c_str t) ≤ length t
unfolding c_str
length-c_str [] = omega arith
length-c_str (b ∷ t) = ground (arith, length-c_str t)

take-c_str : (t : List ℕ) → take (length (c_str t)) t ≡ c_str t
unfolding c_str
take-c_str [] = refl
take-c_str (b ∷ t) = ground (arith, take-c_str t)

pub left-c_str : (t : List ℕ) → left t (length (c_str t)) 0 ≡ c_str t
left-c_str t =
    let all : length (c_str t) - 0 ≡ length (c_str t) = omega arith in
    ap (λ k. take k t) all ∙ take-c_str t

-- What stands in a buffer once more bytes are put behind the first `n`.
pub take-write_at :
    (buffer bytes : List ℕ) (n : ℕ)
    → n ≤ length buffer
    → take (n + length bytes) (write_at buffer n bytes) ≡ take n buffer ++ bytes
take-write_at buffer bytes n h =
    take-append_past (take n buffer) (bytes ++ drop (n + length bytes) buffer) (n + length bytes)
      (length bytes) (omega (arith, length-take n buffer))
    ∙ ap (λ r. take n buffer ++ r) (take-append bytes (drop (n + length bytes) buffer))

pub length-write_at :
    (buffer bytes : List ℕ) (n : ℕ)
    → n + length bytes ≤ length buffer
    → length (write_at buffer n bytes) ≡ length buffer
length-write_at buffer bytes n h = omega (
  arith,
  length-append (take n buffer) (bytes ++ drop (n + length bytes) buffer),
  length-append bytes (drop (n + length bytes) buffer),
  length-take n buffer,
  length-drop (n + length bytes) buffer,
)
