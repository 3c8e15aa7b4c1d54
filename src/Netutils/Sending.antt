-- ===== src/Netutils/Sending.antt =====
-- `sock_blocking_write` on the contents of a buffer.
use protos_tpe_g.Prelude.{
  ℕ, ◌+◌, ◌-◌, ◌<◌, ◌≡◌, refl, ap, sym, ◌∙◌, true, false, Option, some, List, [], ◌∷◌, ◌++◌,
  append_assoc, ltb, leb, length, length-take, length-drop, take, drop, take_all, take-append-drop,
  map, arith,
}
use protos_tpe_g.Session.Defs.{Errno}
use protos_tpe_g.Session.Flush.{Send, sent}
use protos_tpe_g.Buffer.{Buffer, bytes, buffer_read_ptr, buffer_read_adv, buffer_can_read}
use protos_tpe_g.Buffer.Invariant.{IsValid}
use protos_tpe_g.Buffer.Queue.{contents, buffer_read_adv-Yields}
use protos_tpe_g.Netutils.{Wrote, done, go_on, sock_blocking_write}

abbrev pub total : List ℕ → ℕ
total [] = 0
total (n ∷ ns) = n + total ns

abbrev pub Positive : List ℕ → Type 0
Positive [] = Unit
Positive (n ∷ ns) = (0 < n) × Positive ns

abbrev pub Sends : Option (Wrote × Buffer × List ℕ) → List ℕ → Type 0
Sends o out = (b : Buffer) × (o ≡ some (done, b, out)) × IsValid b × (contents b ≡ [])

length-contents : (b : Buffer) → IsValid b → length (contents b) ≡ b.write - b.read
length-contents b v = omega (
  arith,
  length-take (b.write - b.read) (drop b.read b.memory),
  length-drop b.read b.memory,
  v.ordered,
  v.within,
  v.room,
)

nothing : (xs : List ℕ) → length xs ≡ 0 → xs ≡ []
nothing [] h = refl
nothing (x ∷ xs) h = absurd (omega arith)

-- one round
step :
    (stale : Errno) (n : ℕ) (answers : List Send) (b c : Buffer) (out : List ℕ)
    → IsValid b
    → 0 < n
    → buffer_read_adv b (bytes n) ≡ some c
    → sock_blocking_write stale (sent n ∷ answers) b out
      ≡ go_on
          (λ b'. sock_blocking_write stale answers b' (out ++ take n (contents b)))
          (out ++ take n (contents b))
          c
unfolding sock_blocking_write buffer_read_ptr
step stale n answers b c out v h e =
    let ordered : leb b.read b.write ≡ true = ground (arith, v.ordered) in
    let positive : ltb 0 n ≡ true = ground arith in rw (ordered, positive, e) refl

module _ (stale : Errno) where
  sock_blocking_write_lem :
      (ns : List ℕ) (n : ℕ) (b : Buffer) (out : List ℕ)
      → IsValid b
      → 0 < n
      → Positive ns
      → n + total ns ≡ length (contents b)
      → Sends (sock_blocking_write stale (map sent (n ∷ ns)) b out) (out ++ contents b)
  unfolding buffer_can_read
  sock_blocking_write_lem [] n b out v h p t =
      let y = (buffer_read_adv-Yields b n v).0 (omega arith) in
      let size = length-contents y.buffer y.valid in
      let empty : length (contents y.buffer) ≡ 0 =
        ap length y.holds ∙ omega (arith, length-drop n (contents b)) in
      let ended : ltb y.buffer.read y.buffer.write ≡ false = ground arith in
      let all : take n (contents b) ≡ contents b = take_all n (contents b) (omega arith) in
      (
        y.buffer,
        step stale n [] b y.buffer out v h y.returns
            ∙ rw ended (ap (λ r. some (done, y.buffer, out ++ r)) all),
        y.valid,
        nothing (contents y.buffer) empty,
      )
  sock_blocking_write_lem (m ∷ ns) n b out v h (q, p) t =
      let y = (buffer_read_adv-Yields b n v).0 (omega arith) in
      let size = length-contents y.buffer y.valid in
      let left : length (contents y.buffer) ≡ m + total ns =
        ap length y.holds ∙ omega (arith, length-drop n (contents b)) in
      let more : ltb y.buffer.read y.buffer.write ≡ true = ground arith in
      let (b', e, v', z) =
        sock_blocking_write_lem ns m y.buffer (out ++ take n (contents b)) y.valid q p (sym left) in
      let whole : (out ++ take n (contents b)) ++ contents y.buffer ≡ out ++ contents b =
        append_assoc out (take n (contents b)) (contents y.buffer)
        ∙ ap (λ r. out ++ r)
            (ap (λ r. take n (contents b) ++ r) y.holds ∙ take-append-drop n (contents b)) in
      (
        b',
        step stale n (map sent (m ∷ ns)) b y.buffer out v h y.returns
            ∙ (rw more refl ∙ (e ∙ ap (λ r. some (done, b', r)) whole)),
        v',
        z,
      )

-- Over any positive results of `send` that add up to the contents of a valid buffer, one at least,
-- `sock_blocking_write` returns 0 with all of the contents sent in order, and leaves a valid buffer
-- with nothing in it.
pub sock_blocking_write-Sends :
    (stale : Errno) (n : ℕ) (ns : List ℕ) (b : Buffer)
    → IsValid b
    → Positive (n ∷ ns)
    → total (n ∷ ns) ≡ length (contents b)
    → Sends (sock_blocking_write stale (map sent (n ∷ ns)) b []) (contents b)
sock_blocking_write-Sends stale n ns b v (h, p) t = sock_blocking_write_lem stale ns n b [] v h p t
