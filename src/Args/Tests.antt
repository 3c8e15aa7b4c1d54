-- ===== src/Args/Tests.antt =====
-- Command lines of the server.
use protos_tpe_g.Prelude.{◌≡◌, refl, none, some, List, [], ◌∷◌, codes, decimal, printed, arith}
use protos_tpe_g.Args.{
  skip_spaces, digits_value, strtol, port, Socks5Args, Opt, opt_socks_port, opt_user, default_args,
}
use protos_tpe_g.Args.Ports.{port-decimal}

abbrev opts : List Opt
opts = opt_socks_port (codes " +99") ∷ (opt_user (codes "ana:e:va") ∷ [])

abbrev args : Socks5Args
args = record default_args { socks_port = 99; users = (codes "ana", codes "e:va") ∷ [] }

port_0 : port (codes "-0") ≡ some 0
unfolding port strtol skip_spaces digits_value
port_0 = refl

port_65536 : port (codes "65536") ≡ none
unfolding port strtol skip_spaces digits_value
port_65536 = refl

port_example : port (printed 6 (decimal 65535)) ≡ some 65535
port_example = port-decimal 65535 (omega arith)
