-- ===== src/Client/Exchange.antt =====
-- A run of the client against a management connection: what is sent, answered and printed.
use protos_tpe_g.Prelude.{
  ℕ, ◌+◌, ◌≤◌, ◌<◌, ◌≡◌, refl, ap, sym, ◌∙◌, true, false, if_lem, Option, none, some, List, [], ◌∷◌,
  ◌++◌, append_assoc, append-nil, length, length-append, leb, ltb, take, drop, take-append-drop,
  drop_all, drop-add, arith,
}
use protos_tpe_g.Session.Defs.{eintr}
use protos_tpe_g.Session.Flush.{Send, sent, refused}
use protos_tpe_g.Session.Env.{Recv, received, end_of_stream, failed}
use protos_tpe_g.Client.{
  client_buffer_size, Done, returned, send_loop, send_command, print_response, Dial, no_descriptor,
  dialed, connect_first,
}

-- Results of `send`: a count, or an interruption.
abbrev pub of_counts : List (Option ℕ) → List Send
of_counts [] = []
of_counts (some n ∷ counts) = sent n ∷ of_counts counts
of_counts (none ∷ counts) = refused eintr ∷ of_counts counts

abbrev pub total : List (Option ℕ) → ℕ
total [] = 0
total (some n ∷ counts) = n + total counts
total (none ∷ counts) = total counts

abbrev pub Positive : List (Option ℕ) → Type 0
Positive [] = Unit
Positive (some n ∷ counts) = (0 < n) × Positive counts
Positive (none ∷ counts) = Positive counts

at_end :
    (buffer : List ℕ) (off : ℕ) (out : List ℕ)
    → ltb off (length buffer) ≡ false
    → ◌≡◌ {A = Done × List ℕ} (returned true, out) (returned true, out ++ drop off buffer)
at_end buffer off out e =
    ap (λ t. (returned true, t))
      (sym (append-nil out) ∙ ap (λ r. out ++ r) (sym (drop_all off buffer (ground arith))))

send_loop-all :
    (counts : List (Option ℕ)) (buffer : List ℕ) (off : ℕ) (out : List ℕ)
    → Positive counts
    → length buffer ≤ off + total counts
    → send_loop (of_counts counts) buffer off out ≡ (returned true, out ++ drop off buffer)
unfolding send_loop
send_loop-all [] buffer off out p h =
    let e : ltb off (length buffer) ≡ false = ground arith in rw e (at_end buffer off out e)
send_loop-all (none ∷ counts) buffer off out p h =
    if_lem (λ (r : Done × List ℕ). r ≡ (returned true, out ++ drop off buffer))
      (ltb off (length buffer)) (λ _. send_loop-all counts buffer off out p h)
      (at_end buffer off out)
send_loop-all (some n ∷ counts) buffer off out (p, ps) h =
    let positive : ltb 0 n ≡ true = ground arith in
    if_lem (λ (r : Done × List ℕ). r ≡ (returned true, out ++ drop off buffer))
      (ltb off (length buffer))
      (λ _. rw positive (
        send_loop-all counts buffer (off + n) (out ++ take n (drop off buffer)) ps (omega arith)
        ∙ ap (λ t. (returned true, t)) (next_sent n)))
      (at_end buffer off out)
  where
    next_sent :
        (n : ℕ)
        → (out ++ take n (drop off buffer)) ++ drop (off + n) buffer ≡ out ++ drop off buffer
    next_sent n =
        append_assoc out (take n (drop off buffer)) (drop (off + n) buffer)
        ∙ ap (λ r. out ++ r)
            (ap (λ r. take n (drop off buffer) ++ r) (drop-add buffer (off + n) off n refl)
              ∙ take-append-drop n (drop off buffer))

-- A command that fits is sent whole with the end of its line, over any interruptions, once `send`
-- has taken as many bytes as the line has, one at least in each call.
pub send_command-sends :
    (counts : List (Option ℕ)) (command : List ℕ)
    → length command + 1 < client_buffer_size
    → Positive counts
    → length command + 1 ≤ total counts
    → send_command (of_counts counts) command ≡ (returned true, command ++ (10 ∷ []))
unfolding send_command
send_command-sends counts command h p t =
    let fits : leb client_buffer_size (length (command ++ (10 ∷ []))) ≡ false =
      ground (arith, length-append command (10 ∷ [])) in
    rw fits (
      send_loop-all counts (command ++ (10 ∷ [])) 0 [] p
        (omega (arith, length-append command (10 ∷ []))))

-- Results of `recv`, up to the end of the stream: bytes, or an interruption.
abbrev pub of_chunks : List (Option (List ℕ)) → List Recv
of_chunks [] = end_of_stream ∷ []
of_chunks (some bytes ∷ chunks) = received bytes ∷ of_chunks chunks
of_chunks (none ∷ chunks) = failed eintr ∷ of_chunks chunks

abbrev pub bytes_of : List (Option (List ℕ)) → List ℕ
bytes_of [] = []
bytes_of (some bytes ∷ chunks) = bytes ++ bytes_of chunks
bytes_of (none ∷ chunks) = bytes_of chunks

pub print_response-prints :
    (chunks : List (Option (List ℕ))) (shown : List ℕ)
    → print_response (of_chunks chunks) shown ≡ (returned true, shown ++ bytes_of chunks)
unfolding print_response
print_response-prints [] shown = ap (λ t. (returned true, t)) (sym (append-nil shown))
print_response-prints (none ∷ chunks) shown = print_response-prints chunks shown
print_response-prints (some bytes ∷ chunks) shown =
    print_response-prints chunks (shown ++ bytes)
    ∙ ap (λ t. (returned true, t)) (append_assoc shown bytes (bytes_of chunks))

-- the descriptors that `socket` gave
unfoldable pub opened : List Dial → List ℕ
opened [] = []
opened (no_descriptor ∷ dials) = opened dials
opened (dialed fd true ∷ dials) = fd ∷ []
opened (dialed fd false ∷ dials) = fd ∷ opened dials

abbrev pub kept : Option ℕ → List ℕ
kept none = []
kept (some fd) = fd ∷ []

pub connect_first-opened :
    (dials : List Dial) (closed : List ℕ)
    → (connect_first dials closed).1 ++ kept (connect_first dials closed).0 ≡ closed ++ opened dials
unfolding connect_first opened
connect_first-opened [] closed = refl
connect_first-opened (no_descriptor ∷ dials) closed = connect_first-opened dials closed
connect_first-opened (dialed fd true ∷ dials) closed = refl
connect_first-opened (dialed fd false ∷ dials) closed =
    connect_first-opened dials (closed ++ (fd ∷ [])) ∙ append_assoc closed (fd ∷ []) (opened dials)
