-- ===== src/Client/Tests.antt =====
-- Runs of the client on small inputs.
use protos_tpe_g.Prelude.{
  ℕ, ◌+◌, true, false, ◌≡◌, ◌≤◌, ◌<◌, refl, append-nil, none, some, List, [], ◌∷◌, ◌++◌, codes,
  length, get_elem?, arith,
}
use protos_tpe_g.Metrics.{initial}
use protos_tpe_g.Session.Defs.{op_write, c_str}
use protos_tpe_g.Management.Respond.{answer, respond}
use protos_tpe_g.Management.Handlers.{
  Call, reads, management_read, management_write, management_prepare_response, contains, manage,
}
use protos_tpe_g.Management.Progress.{inputs, AllHonest}
use protos_tpe_g.Management.Answering.{accepted}
use protos_tpe_g.Client.{
  client_buffer_size, build_command, build_words, send_loop, send_command, print_response, dialed,
  connect_first, connect_to_management, Network, client_main, read_options, opt_port,
}
use protos_tpe_g.Client.Words.{AllWords, joined, joined_behind, respond-joined}
use protos_tpe_g.Client.Exchange.{of_counts, of_chunks}
use protos_tpe_g.Client.Whole.{opened_of, client_main-closed, client_main-answered}
use protos_tpe_g.Management.Samples.{
  all_of, all_of-Honest, all_of-Willing, chunk, chunk-IsHonestCall, ana,
}

build_test :
    build_command 1024 (codes "DELUSER" ∷ (codes "pepe" ∷ [])) ≡ some (codes "DELUSER pepe")
unfolding build_command build_words
build_test = refl

build_long : build_command 12 (codes "DELUSER" ∷ (codes "pepe" ∷ [])) ≡ none
unfolding build_command build_words
build_long = refl

abbrev words : List (List ℕ)
words = codes "deluser" ∷ (codes "ana" ∷ [])

words-AllWords : AllWords words
words-AllWords = ground arith

words_example :
    respond ana initial (joined words ++ (10 ∷ []))
    ≡ answer ana initial
        (get_elem? words 0)
        (get_elem? words 1)
        (get_elem? words 2)
        (get_elem? words 3)
words_example = respond-joined ana initial words words-AllWords

abbrev calls : List Call
calls = reads (chunk (codes "deluser ana\n")) ∷ []

calls-AllHonest : AllHonest calls
calls-AllHonest = (chunk-IsHonestCall (codes "deluser ana\n"), tt)

abbrev reply : List ℕ
reply = (management_write all_of (manage calls (accepted ana initial))).to_client

abbrev net : Network
net = record {
  resolve = λ host port. some (dialed 4 false ∷ (dialed 5 true ∷ []));
  sends = of_counts (none ∷ (some 5 ∷ (some 7 ∷ [])));
  recvs = of_chunks (some reply ∷ []);
}

ready_to_write : (manage calls (accepted ana initial)).registered ≡ some op_write
unfolding manage accepted management_read management_prepare_response contains
ready_to_write = refl

received_all : inputs calls (accepted ana initial) ≡ (client_main net [] words).sent_out
unfolding inputs accepted client_main read_options build_command build_words connect_to_management
    connect_first send_command send_loop print_response
received_all = refl

words_fit : length (joined words) + 1 < client_buffer_size
unfolding joined joined_behind
words_fit = omega arith

total_fits : length (joined words) + 1 ≤ 12
unfolding joined joined_behind
total_fits = omega arith

connected :
    connect_to_management (net.resolve (codes "127.0.0.1") (codes "8080")) ≡ (some 5, 4 ∷ [])
unfolding connect_to_management connect_first
connected = refl

answered_example :
    ((client_main net [] words).status ≡ some 0)
    × ((client_main net [] words).shown
        ≡ c_str (answer ana initial (some (codes "deluser")) (some (codes "ana")) none none).1)
unfolding read_options
answered_example =
    client_main-answered net [] (codes "deluser") (codes "ana" ∷ []) (codes "127.0.0.1")
      (codes "8080") 5 (4 ∷ []) (none ∷ (some 5 ∷ (some 7 ∷ []))) (some reply ∷ []) ana initial
      calls all_of refl words-AllWords words_fit connected refl (omega arith, (omega arith, tt))
      total_fits refl calls-AllHonest ready_to_write all_of-Honest all_of-Willing received_all
      (append-nil reply)

abbrev refused_net : Network
refused_net = record {
  resolve = λ host port. some (dialed 4 false ∷ (dialed 5 true ∷ []));
  sends = of_counts (none ∷ (some 0 ∷ []));
  recvs = [];
}

closed_example :
    (client_main refused_net (opt_port (codes "80") ∷ []) []).closed
    ≡ opened_of (some (dialed 4 false ∷ (dialed 5 true ∷ [])))
unfolding read_options build_command client_main connect_to_management connect_first send_command
    send_loop
closed_example =
    client_main-closed refused_net (opt_port (codes "80") ∷ []) [] (codes "127.0.0.1") (codes "80")
      (codes "STATS") refl refl (λ e. absurd cc)
