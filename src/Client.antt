-- ===== src/Client.antt =====
-- src/client/client.c: the command line client of the management protocol.
pub mod Words
pub mod Exchange
pub mod Whole
mod Tests
use protos_tpe_g.Prelude.{
  ℕ, zero, suc, ◌+◌, ◌-◌, ◌==◌, Bool, true, false, if◌then◌else◌, Option, none, some, List, [], ◌∷◌,
  ◌++◌, ltb, leb, length, take, drop, codes,
}
use protos_tpe_g.Session.Defs.{Errno, eintr}
use protos_tpe_g.Session.Flush.{Send, sent, refused}
use protos_tpe_g.Session.Env.{Recv, received, end_of_stream, failed}

-- `CLIENT_BUFFER_SIZE`
abbrev pub client_buffer_size : ℕ
client_buffer_size = 1024

-- The loop of `build_command` at `used` bytes, the first word having nothing before it.
unfoldable pub build_words : ℕ → List ℕ → List ℕ → List (List ℕ) → Option (List ℕ)
build_words size separator buffer [] = some buffer
build_words size separator buffer (arg ∷ args) =
    let written = separator ++ arg in
    let rest = build_words size (b' ' ∷ []) (buffer ++ written) args in
    if leb (size - length buffer) (length written) then none else rest

-- `build_command`, with the words from `start` on; `none` is `false`.
unfoldable pub build_command : ℕ → List (List ℕ) → Option (List ℕ)
build_command size [] = some (codes "STATS")
build_command size (arg ∷ args) = build_words size [] [] (arg ∷ args)

-- What a loop over a blocking socket has come to: it returned, or it waits in a call for which the
-- system has no answer yet.
pub data Done : Type 0 where
  returned : Bool → Done
  still_waits : Done

-- The loop of `send_command` from `sent` bytes on, over the results of `send` in their order; with
-- the bytes it sent.
unfoldable pub send_loop : List Send → List ℕ → ℕ → List ℕ → Done × List ℕ
send_loop [] buffer off out = (if ltb off (length buffer) then still_waits else returned true, out)
send_loop (sent n ∷ answers) buffer off out =
    let rest = send_loop answers buffer (off + n) (out ++ take n (drop off buffer)) in
    if ltb off (length buffer)
    then if ltb 0 n then rest else (returned false, out)
    else (returned true, out)
send_loop (refused eintr ∷ answers) buffer off out =
    let rest = send_loop answers buffer off out in
    if ltb off (length buffer) then rest else (returned true, out)
send_loop (refused _ ∷ answers) buffer off out =
    if ltb off (length buffer) then (returned false, out) else (returned true, out)

-- `send_command`
unfoldable pub send_command : List Send → List ℕ → Done × List ℕ
send_command answers command =
    let line = command ++ (10 ∷ []) in
    if leb client_buffer_size (length line)
    then (returned false, [])
    else send_loop answers line 0 []

-- `print_response`, over the results of `recv` in their order; with the bytes it printed
unfoldable pub print_response : List Recv → List ℕ → Done × List ℕ
print_response [] printed = (still_waits, printed)
print_response (received bytes ∷ answers) printed = print_response answers (printed ++ bytes)
print_response (end_of_stream ∷ answers) printed = (returned true, printed)
print_response (failed eintr ∷ answers) printed = print_response answers printed
print_response (failed _ ∷ answers) printed = (returned false, printed)

-- What `socket` and `connect` answer for one address of the list: no descriptor, or one and whether
-- it was connected.
pub data Dial : Type 0 where
  no_descriptor : Dial
  dialed : ℕ → Bool → Dial

-- The loop of `connect_to_management` over the addresses; with the descriptors it closed. `none` is
-- -1.
unfoldable pub connect_first : List Dial → List ℕ → Option ℕ × List ℕ
connect_first [] closed = (none, closed)
connect_first (no_descriptor ∷ rest) closed = connect_first rest closed
connect_first (dialed fd true ∷ rest) closed = (some fd, closed)
connect_first (dialed fd false ∷ rest) closed = connect_first rest (closed ++ (fd ∷ []))

-- `connect_to_management`; `none` for the list is a failure of `getaddrinfo`.
unfoldable pub connect_to_management : Option (List Dial) → Option ℕ × List ℕ
connect_to_management none = (none, [])
connect_to_management (some dials) = connect_first dials []

-- What `getopt` returns: an option with its argument, or anything else.
pub data Opt : Type 0 where
  opt_help opt_unknown : Opt
  opt_address opt_port : List ℕ → Opt

-- Either the exit status, or the host and the port.
pub data Options : Type 0 where
  exits : ℕ → Options
  goes_on : List ℕ → List ℕ → Options

-- the loop over `getopt` in `main`
unfoldable pub read_options : List ℕ → List ℕ → List Opt → Options
read_options host port [] = goes_on host port
read_options host port (opt_help ∷ opts) = exits 0
read_options host port (opt_unknown ∷ opts) = exits 1
read_options host port (opt_address h ∷ opts) = read_options h port opts
read_options host port (opt_port p ∷ opts) = read_options host p opts

-- What the system answers to the client, and what becomes of a run: the exit status, unless it still
-- waits, what was sent and printed, and the descriptors that were closed.
pub record Network : Type 0 where
  pub resolve : List ℕ → List ℕ → Option (List Dial)
  pub sends : List Send
  pub recvs : List Recv

pub record Run : Type 0 where
  pub status : Option ℕ
  pub sent_out : List ℕ
  pub shown : List ℕ
  pub closed : List ℕ

abbrev pub exit_status : ℕ → List ℕ → List ℕ → List ℕ → Run
exit_status n out shown closed = record {
  status = some n;
  sent_out = out;
  shown = shown;
  closed = closed;
}

abbrev pub after_print : ℕ → List ℕ → List ℕ → Done × List ℕ → Run
after_print fd closed out (returned ok, shown) =
    exit_status (if ok then 0 else 1) out shown (closed ++ (fd ∷ []))
after_print fd closed out (still_waits, shown) = record {
  status = none;
  sent_out = out;
  shown = shown;
  closed = closed;
}

-- `send_command(...) && print_response(...)`, `close` and the exit status
abbrev pub after_send : Network → ℕ → List ℕ → Done × List ℕ → Run
after_send net fd closed (returned true, out) =
    after_print fd closed out (print_response net.recvs [])
after_send net fd closed (returned false, out) = exit_status 1 out [] (closed ++ (fd ∷ []))
after_send net fd closed (still_waits, out) = record {
  status = none;
  sent_out = out;
  shown = [];
  closed = closed;
}

abbrev pub after_connect : Network → List ℕ → Option ℕ × List ℕ → Run
after_connect net command (none, closed) = exit_status 1 [] [] closed
after_connect net command (some fd, closed) =
    after_send net fd closed (send_command net.sends command)

abbrev pub after_build : Network → List ℕ → List ℕ → Option (List ℕ) → Run
after_build net host port none = exit_status 1 [] [] []
after_build net host port (some command) =
    after_connect net command (connect_to_management (net.resolve host port))

abbrev pub after_options : Network → List (List ℕ) → Options → Run
after_options net args (exits n) = exit_status n [] [] []
after_options net args (goes_on host port) =
    after_build net host port (build_command client_buffer_size args)

-- `main`, with what `getopt` returns and the words behind the options
unfoldable pub client_main : Network → List Opt → List (List ℕ) → Run
client_main net opts args =
    after_options net args (read_options (codes "127.0.0.1") (codes "8080") opts)
