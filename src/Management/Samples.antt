-- ===== src/Management/Samples.antt =====
-- A system that sends all it is offered and gives a text as far as there is room, and a table of
-- users: what the tests of the protocol and of its client run on.
use protos_tpe_g.Prelude.{
  ℕ, ◌≡◌, ◌≤◌, refl, ap, subst, some, List, [], ◌∷◌, codes, length, length-take, take, arith,
}
use protos_tpe_g.Users.{Table, users_init_from_args}
use protos_tpe_g.Session.Flush.{Kernel, Honest, Send, sent, refused}
use protos_tpe_g.Session.Env.{Recv, received, end_of_stream, failed}
use protos_tpe_g.Management.Handlers.{reads}
use protos_tpe_g.Management.Progress.{IsHonestCall}
use protos_tpe_g.Management.Answering.{Willing}

abbrev pub all_of : Kernel
all_of k bytes = sent (length bytes)

abbrev count_of : Send → ℕ
count_of (sent n) = n
count_of (refused e) = 0

pub all_of-Honest : Honest all_of
all_of-Honest k bytes n e = let same : length bytes ≡ n = ap count_of e in omega arith

pub all_of-Willing : Willing all_of
all_of-Willing k bytes h = (length bytes, refl, h)

abbrev pub chunk : List ℕ → ℕ → Recv
chunk text room = received (take room text)

abbrev bytes_in : Recv → List ℕ
bytes_in (received bytes) = bytes
bytes_in end_of_stream = []
bytes_in (failed e) = []

pub chunk-IsHonestCall : (text : List ℕ) → IsHonestCall (reads (chunk text))
chunk-IsHonestCall text room bytes e =
    let same : take room text ≡ bytes = ap bytes_in e in
    subst (λ b. length b ≤ room) same (omega (arith, length-take room text))

abbrev pub ana : Table
ana = users_init_from_args (some ((some (codes "ana"), some (codes "eva")) ∷ []))
