-- ===== src/Session/Flush.antt =====
-- The loop of `send` calls that `client_write`, `target_write` and `management_write` write out:
-- `while (off < len) { sent = send(...); ... }`.
use protos_tpe_g.Prelude.{
  ℕ, zero, suc, ◌+◌, ◌-◌, Bool, true, false, if◌then◌else◌, List, [], ◌++◌, ltb, take, drop, length,
  ◌≡◌, ◌≤◌,
}
use protos_tpe_g.Metrics.{add64}
use protos_tpe_g.Session.Defs.{Errno, eagain, ewouldblock}

-- what one call of `send` returns: a count, or -1 with `errno`
pub data Send : Type 0 where
  sent : ℕ → Send
  refused : Errno → Send

abbrev pub would_block : Errno → Bool
would_block eagain = true
would_block ewouldblock = true
would_block _ = false

pub data Outcome : Type 0 where
  flushed blocked broken unfinished : Outcome

-- How the loop ended, the offset, the bytes that were sent, the number of calls made, and the
-- counter of bytes that it keeps up to date.
pub record Flush : Type 0 where
  pub outcome : Outcome
  pub off : ℕ
  pub out : List ℕ
  pub calls : ℕ
  pub counter : ℕ

-- The kernel: the result of the k-th call, for the bytes that the call offers.
abbrev pub Kernel : Type 0
Kernel = ℕ → List ℕ → Send

-- `send` does not report more bytes than it was given.
abbrev pub Honest : Kernel → Type 0
Honest send = (k : ℕ) (bytes : List ℕ) (n : ℕ) → send k bytes ≡ sent n → n ≤ length bytes

abbrev pub stop : Outcome → ℕ → List ℕ → ℕ → ℕ → Flush
stop o off out calls counter = record {
  outcome = o;
  off = off;
  out = out;
  calls = calls;
  counter = counter;
}

-- The first argument bounds the rounds; each sends a byte at least, so `len - off` and one more to
-- see the end.
unfoldable pub flush : ℕ → Kernel → List ℕ → ℕ → ℕ → List ℕ → ℕ → ℕ → Flush
flush zero send buffer len off out calls counter = stop unfinished off out calls counter
flush (suc fuel) send buffer len off out calls counter = elim (ltb off len) [
  | false ↦ stop flushed off out calls counter
  | true ↦ elim (send calls (take (len - off) (drop off buffer))) [
    | refused e ↦ stop (if would_block e then blocked else broken) off out (suc calls) counter
    | sent n ↦ elim (ltb 0 n) [
      | false ↦ stop broken off out (suc calls) counter
      | true ↦
          flush fuel send buffer len (off + n) (out ++ take n (take (len - off) (drop off buffer)))
            (suc calls) (add64 counter n)
    ]
  ]
]

abbrev pub flush_all : Kernel → List ℕ → ℕ → ℕ → ℕ → Flush
flush_all send buffer len off counter = flush (suc (len - off)) send buffer len off [] 0 counter
