-- ===== src/Session/Sending.antt =====
-- The loop of `send` calls of Session/Flush: what it has sent, and what is left.
use protos_tpe_g.Prelude.{
  ℕ, zero, suc, ◌+◌, ◌-◌, ◌%◌, ◌^◌, ◌≤◌, ◌<◌, ◌≡◌, ◌≢◌, ◌⊎◌, ◌∙◌, refl, ap, List, ◌++◌,
  append_assoc, length, length-take, ltb, take, drop, drop-add, take-take-drop, arith, inl, inr,
  Bool-cases,
}
use protos_tpe_g.Metrics.{add64}
use protos_tpe_g.Session.Defs.{Errno}
use protos_tpe_g.Session.Flush.{
  Send, sent, refused, flushed, unfinished, Flush, Kernel, Honest, flush,
}

-- the bytes of `buffer[off .. len)`
abbrev pub left : List ℕ → ℕ → ℕ → List ℕ
left buffer len off = take (len - off) (drop off buffer)

Send-cases : (s : Send) → ((n : ℕ) × (s ≡ sent n)) ⊎ ((e : Errno) × (s ≡ refused e))
Send-cases (sent n) = inl (n, refl)
Send-cases (refused e) = inr (e, refl)

left-split :
    (buffer : List ℕ) (len off n : ℕ)
    → off < len
    → n ≤ len - off
    → take n (left buffer len off) ++ left buffer len (off + n) ≡ left buffer len off
left-split buffer len off n h k =
    rw (drop-add buffer (off + n) off n refl)
      (take-take-drop (drop off buffer) n (len - off) (len - (off + n)) (omega arith))

-- A loop that started at `off` with `out` sent and `counter` counted, and has ended.
pub record Sent (buffer : List ℕ) (len off : ℕ) (out : List ℕ) (counter : ℕ) (f : Flush)
    : Type 0 where
  pub ended : f.outcome ≢ unfinished
  pub bytes : f.out ++ left buffer len f.off ≡ out ++ left buffer len off
  pub forward : off ≤ f.off
  pub within : f.off ≤ len
  pub whole : f.outcome ≡ flushed → f.off ≡ len
  pub counted : f.counter ≡ (counter + (f.off - off)) % 2 ^ 64

module _ (send : Kernel) (honest : Honest send) (buffer : List ℕ) (len : ℕ) where
  Sent-next :
      (off n : ℕ) (out : List ℕ) (counter : ℕ) (f : Flush)
      → off < len
      → n ≤ len - off
      → Sent buffer len (off + n) (out ++ take n (left buffer len off)) (add64 counter n) f
      → Sent buffer len off out counter f
  Sent-next off n out counter f h k s = record {
    ended = s.ended;
    bytes =
        s.bytes
        ∙ (append_assoc out (take n (left buffer len off)) (left buffer len (off + n))
            ∙ ap (λ r. out ++ r) (left-split buffer len off n h k));
    forward = omega (arith, s.forward);
    within = s.within;
    whole = s.whole;
    counted = omega (arith, s.counted, s.forward);
  }

  pub flush-Sent :
      (fuel off : ℕ) (out : List ℕ) (calls counter : ℕ)
      → len - off < fuel
      → off ≤ len
      → counter < 2 ^ 64
      → len ≤ length buffer
      → Sent buffer len off out counter (flush fuel send buffer len off out calls counter)
  unfolding flush
  flush-Sent zero off out calls counter h o c b = absurd (omega arith)
  flush-Sent (suc fuel) off out calls counter h o c b = elim (Bool-cases (ltb off len)) [
    | inr done ↦
        rw (done, flush)
          (record {
            ended = λ e. cc;
            bytes = refl;
            forward = omega arith;
            within = o;
            whole = λ _. ground arith;
            counted = omega arith;
          })
    | inl more ↦ elim (Send-cases (send calls (left buffer len off))) [
      | inr (e, s) ↦
          rw (more, s, flush)
            (record {
              ended = ground arith;
              bytes = refl;
              forward = omega arith;
              within = o;
              whole = ground arith;
              counted = omega arith;
            })
      | inl (n, s) ↦ elim (Bool-cases (ltb 0 n)) [
        | inr zero_sent ↦
            rw (more, s, zero_sent, flush)
              (record {
                ended = λ e. cc;
                bytes = refl;
                forward = omega arith;
                within = o;
                whole = λ e. cc;
                counted = omega arith;
              })
        | inl some_sent ↦
            rw (more, s, some_sent, flush)
              (Sent-next off n out counter _ (ground arith) (fits n s) (
                flush-Sent fuel (off + n) (out ++ take n (left buffer len off)) (suc calls)
                  (add64 counter n) (ground (arith, fits n s)) (ground (arith, fits n s))
                  (omega arith) b))
      ]
    ]
  ]
    where
      fits : (n : ℕ) → send calls (left buffer len off) ≡ sent n → n ≤ len - off
      fits n s =
          omega (
            arith,
            honest calls (left buffer len off) n s,
            length-take (len - off) (drop off buffer),
          )
