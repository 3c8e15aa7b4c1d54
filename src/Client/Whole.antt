-- ===== src/Client/Whole.antt =====
-- `main` of the client as a whole: its descriptors, and a run of it against the server.
use protos_tpe_g.Prelude.{
  ℕ, ◌+◌, ◌≤◌, ◌<◌, ◌≡◌, ◌≢◌, refl, ap, sym, subst, ◌∙◌, true, false, if◌then◌else◌, Option, none,
  some, List, [], ◌∷◌, ◌++◌, append-nil, length, get_elem?, ltb, codes, arith,
}
use protos_tpe_g.Users.{Table}
use protos_tpe_g.Metrics.{Metrics}
use protos_tpe_g.Session.Defs.{op_write, c_str}
use protos_tpe_g.Session.Flush.{Kernel, Honest}
use protos_tpe_g.Management.Respond.{answer, respond}
use protos_tpe_g.Management.Handlers.{Call, management_write, manage}
use protos_tpe_g.Management.Progress.{inputs, AllHonest}
use protos_tpe_g.Management.Answering.{accepted, Willing, manage-over}
use protos_tpe_g.Client.{
  client_buffer_size, build_command, Done, returned, still_waits, send_command, print_response,
  Dial, connect_to_management, Network, after_connect, after_send, after_print, after_build,
  after_options, goes_on, read_options, Opt, client_main,
}
use protos_tpe_g.Client.Words.{AllWords, joined, respond-joined, build_command-joined}
use protos_tpe_g.Client.Exchange.{
  of_counts, total, Positive, send_command-sends, of_chunks, bytes_of, print_response-prints,
  opened, kept, connect_first-opened,
}

closed-after_print :
    (fd : ℕ) (closed out : List ℕ) (d : Done × List ℕ)
    → (after_print fd closed out d).status ≢ none
    → (after_print fd closed out d).closed ≡ closed ++ (fd ∷ [])
closed-after_print fd closed out (returned ok, shown) h = refl
closed-after_print fd closed out (still_waits, shown) h = absurd (h refl)

closed-after_send :
    (net : Network) (fd : ℕ) (closed : List ℕ) (d : Done × List ℕ)
    → (after_send net fd closed d).status ≢ none
    → (after_send net fd closed d).closed ≡ closed ++ (fd ∷ [])
closed-after_send net fd closed (returned true, out) h =
    closed-after_print fd closed out (print_response net.recvs []) h
closed-after_send net fd closed (returned false, out) h = refl
closed-after_send net fd closed (still_waits, out) h = absurd (h refl)

closed-after_connect :
    (net : Network) (command : List ℕ) (r : Option ℕ × List ℕ)
    → (after_connect net command r).status ≢ none
    → (after_connect net command r).closed ≡ r.1 ++ kept r.0
closed-after_connect net command (none, closed) h = sym (append-nil closed)
closed-after_connect net command (some fd, closed) h =
    closed-after_send net fd closed (send_command net.sends command) h

-- what `connect_to_management` opens
abbrev pub opened_of : Option (List Dial) → List ℕ
opened_of none = []
opened_of (some dials) = opened dials

connect_to_management-opened :
    (d : Option (List Dial))
    → (connect_to_management d).1 ++ kept (connect_to_management d).0 ≡ opened_of d
unfolding connect_to_management
connect_to_management-opened none = refl
connect_to_management-opened (some dials) = connect_first-opened dials []

-- A run that comes to an end, with a command that could be built, has closed each descriptor that
-- it opened, once and in the order in which they were opened.
pub client_main-closed :
    (net : Network) (opts : List Opt) (args : List (List ℕ)) (host port command : List ℕ)
    → read_options (codes "127.0.0.1") (codes "8080") opts ≡ goes_on host port
    → build_command client_buffer_size args ≡ some command
    → (client_main net opts args).status ≢ none
    → (client_main net opts args).closed ≡ opened_of (net.resolve host port)
unfolding client_main
client_main-closed net opts args host port command o b =
    subst
      (λ q.
        (after_options net args q).status ≢ none
        → (after_options net args q).closed ≡ opened_of (net.resolve host port))
      (sym o)
      (subst
        (λ q.
          (after_build net host port q).status ≢ none
          → (after_build net host port q).closed ≡ opened_of (net.resolve host port))
        (sym b)
        (λ h.
          closed-after_connect net command (connect_to_management (net.resolve host port)) h
          ∙ connect_to_management-opened (net.resolve host port)))

module _ (net : Network) (fd : ℕ) (closed command : List ℕ) (counts : List (Option ℕ))
    (chunks : List (Option (List ℕ))) (s : net.sends ≡ of_counts counts)
    (r : net.recvs ≡ of_chunks chunks) (fits : length command + 1 < client_buffer_size)
    (positive : Positive counts) (all : length command + 1 ≤ total counts) where
  after_connect-answered :
      ((after_connect net command (some fd, closed)).status ≡ some 0)
      × ((after_connect net command (some fd, closed)).sent_out ≡ command ++ (10 ∷ []))
      × ((after_connect net command (some fd, closed)).shown ≡ bytes_of chunks)
  after_connect-answered =
      subst
        (λ d.
          ((after_send net fd closed d).status ≡ some 0)
          × ((after_send net fd closed d).sent_out ≡ command ++ (10 ∷ []))
          × ((after_send net fd closed d).shown ≡ bytes_of chunks))
        (sym (
          ap (λ x. send_command x command) s ∙ send_command-sends counts command fits positive all))
        (subst
          (λ d.
            ((after_print fd closed (command ++ (10 ∷ [])) d).status ≡ some 0)
            × ((after_print fd closed (command ++ (10 ∷ [])) d).sent_out ≡ command ++ (10 ∷ []))
            × ((after_print fd closed (command ++ (10 ∷ [])) d).shown ≡ bytes_of chunks))
          (sym (ap (λ x. print_response x []) r ∙ print_response-prints chunks []))
          (refl, refl, refl))

  client_main-run :
      (opts : List Opt) (host port : List ℕ) (arg : List ℕ) (args : List (List ℕ))
      → read_options (codes "127.0.0.1") (codes "8080") opts ≡ goes_on host port
      → build_command client_buffer_size (arg ∷ args) ≡ some command
      → connect_to_management (net.resolve host port) ≡ (some fd, closed)
      → ((client_main net opts (arg ∷ args)).status ≡ some 0)
        × ((client_main net opts (arg ∷ args)).sent_out ≡ command ++ (10 ∷ []))
        × ((client_main net opts (arg ∷ args)).shown ≡ bytes_of chunks)
  unfolding client_main
  client_main-run opts host port arg args o b c = rw (o, b, c) after_connect-answered

-- A whole command: the client sends words over a connection that the system makes and that takes
-- and gives bytes, and the server, whatever calls it got the bytes by, is ready to write to a
-- kernel that takes some. If the server received what the client sent, and the client what the
-- server sent, the client prints the answer to the words and exits with 0.
pub client_main-answered :
    (net : Network) (opts : List Opt) (arg : List ℕ) (args : List (List ℕ)) (host port : List ℕ)
    (fd : ℕ) (closed : List ℕ) (counts : List (Option ℕ)) (chunks : List (Option (List ℕ)))
    (users : Table) (metrics : Metrics) (cs : List Call) (send : Kernel)
    → read_options (codes "127.0.0.1") (codes "8080") opts ≡ goes_on host port
    → AllWords (arg ∷ args)
    → length (joined (arg ∷ args)) + 1 < client_buffer_size
    → connect_to_management (net.resolve host port) ≡ (some fd, closed)
    → net.sends ≡ of_counts counts
    → Positive counts
    → length (joined (arg ∷ args)) + 1 ≤ total counts
    → net.recvs ≡ of_chunks chunks
    → AllHonest cs
    → (manage cs (accepted users metrics)).registered ≡ some op_write
    → Honest send
    → Willing send
    → inputs cs (accepted users metrics) ≡ (client_main net opts (arg ∷ args)).sent_out
    → bytes_of chunks ≡ (management_write send (manage cs (accepted users metrics))).to_client
    → ((client_main net opts (arg ∷ args)).status ≡ some 0)
      × ((client_main net opts (arg ∷ args)).shown
          ≡ c_str
              (answer users metrics
                (some arg)
                (get_elem? args 0)
                (get_elem? args 1)
                (get_elem? args 2)).1)
client_main-answered net opts arg args host port fd closed counts chunks users metrics cs send o
      words fits c s p t r h w honest willing there back =
    let small : ltb (length (joined (arg ∷ args))) client_buffer_size ≡ true = ground arith in
    let built : build_command client_buffer_size (arg ∷ args) ≡ some (joined (arg ∷ args)) =
      build_command-joined client_buffer_size arg args (omega arith)
      ∙ ap (λ b. if b then some (joined (arg ∷ args)) else none) small in
    let run =
      client_main-run net fd closed (joined (arg ∷ args)) counts chunks s r fits p t opts host port
        arg args o built c in
    let over = manage-over users metrics cs send h w honest willing in
    let answered =
      ap (λ (p : Table × List ℕ). c_str p.1)
        (ap (λ b. respond users metrics b) (there ∙ run.1)
          ∙ respond-joined users metrics (arg ∷ args) words) in
    (run.0, run.2 ∙ (back ∙ (over.0 ∙ answered)))
