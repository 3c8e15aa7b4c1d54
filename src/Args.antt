-- ===== src/Args.antt =====
-- src/utils/args.c: the command line of the server, and the part of `main` in src/server/server.c
-- that uses it. `exit` is a result of its own.
pub mod Ports
pub mod Bounds
pub mod Setup
mod Tests
use protos_tpe_g.Prelude.{
  ℕ, zero, suc, ◌+◌, ◌-◌, ◌*◌, ◌==◌, Bool, true, false, ◌&&◌, ◌||◌, if◌then◌else◌, Option, none,
  some, List, [], ◌∷◌, ◌++◌, map, ltb, leb, length, codes, decimal, printed,
}
use protos_tpe_g.Users.{Table, users_init_from_args}

abbrev pub max_users : ℕ
max_users = 10

-- what `isspace` is true of
abbrev pub is_space : ℕ → Bool
is_space c = c == b' ' || (leb 9 c && leb c 13)

abbrev pub is_digit : ℕ → Bool
is_digit c = leb b'0' c && leb c b'9'

unfoldable pub skip_spaces : List ℕ → List ℕ
skip_spaces [] = []
skip_spaces (c ∷ s) = if is_space c then skip_spaces s else c ∷ s

-- the digits of a number in front of a string: the number, and where it ends
unfoldable pub digits_value : List ℕ → ℕ → ℕ × List ℕ
digits_value [] n = (n, [])
digits_value (c ∷ s) n =
    let rest = digits_value s (n * 10 + (c - b'0')) in if is_digit c then rest else (n, c ∷ s)

-- The number that `strtol` reads: whether it has a minus, its absolute value, and where it ends.
-- `none` is `end == s`. That a value beyond `long` is cut to `LONG_MAX` is left out: `port` refuses
-- either.
abbrev pub number_of : Bool → List ℕ → Option (Bool × ℕ × List ℕ)
number_of minus [] = none
number_of minus (c ∷ s) =
    let (n, end) = digits_value (c ∷ s) 0 in if is_digit c then some (minus, n, end) else none

abbrev pub signed : List ℕ → Option (Bool × ℕ × List ℕ)
signed [] = none
signed (c ∷ s) =
    if c == b'-'
    then number_of true s
    else if c == b'+'
    then number_of false s
    else number_of false (c ∷ s)

unfoldable pub strtol : List ℕ → Option (Bool × ℕ × List ℕ)
strtol s = signed (skip_spaces s)

abbrev pub port_of : Option (Bool × ℕ × List ℕ) → Option ℕ
port_of none = none
port_of (some (minus, n, c ∷ end)) = none
port_of (some (true, n, [])) = if n == 0 then some 0 else none
port_of (some (false, n, [])) = if leb n 65535 then some n else none

-- `port`; `none` is `exit(1)`.
unfoldable pub port : List ℕ → Option ℕ
port s = port_of (strtol s)

-- `strchr(s, ':')` and what `user` makes of it: the bytes before it and behind it
unfoldable pub user_from : List ℕ → List ℕ → Option (List ℕ × List ℕ)
user_from before [] = none
user_from before (c ∷ s) =
    let rest = user_from (before ++ (c ∷ [])) s in if c == b':' then some (before, s) else rest

-- `user`; `none` is `exit(1)`.
unfoldable pub user : List ℕ → Option (List ℕ × List ℕ)
unfolding user_from
user s = user_from [] s

-- `struct socks5args`; `users` has the entries that are set.
pub record Socks5Args : Type 0 where
  pub socks_addr : List ℕ
  pub socks_port : ℕ
  pub mng_addr : List ℕ
  pub mng_port : ℕ
  pub users : List (List ℕ × List ℕ)

-- what `getopt_long` returns, with `optarg`
pub data Opt : Type 0 where
  opt_help opt_version opt_unknown : Opt
  opt_socks_addr opt_mng_addr opt_socks_port opt_mng_port opt_user : List ℕ → Opt

pub data Parsed : Type 0 where
  exits : ℕ → Parsed
  parsed : Socks5Args → Parsed

abbrev pub default_args : Socks5Args
default_args = record {
  socks_addr = codes "0.0.0.0";
  socks_port = 1080;
  mng_addr = codes "127.0.0.1";
  mng_port = 8080;
  users = [];
}

abbrev pub set_socks_port : Option ℕ → Socks5Args → Parsed
set_socks_port none args = exits 1
set_socks_port (some p) args = parsed (record args { socks_port = p })

abbrev pub set_mng_port : Option ℕ → Socks5Args → Parsed
set_mng_port none args = exits 1
set_mng_port (some p) args = parsed (record args { mng_port = p })

abbrev pub add_user : Option (List ℕ × List ℕ) → Socks5Args → Parsed
add_user none args = exits 1
add_user (some u) args = parsed (record args { users = args.users ++ (u ∷ []) })

-- one round of the loop of `parse_args`
unfoldable pub parse_option : Opt → Socks5Args → Parsed
parse_option opt_help args = exits 1
parse_option opt_version args = exits 0
parse_option opt_unknown args = exits 1
parse_option (opt_socks_addr s) args = parsed (record args { socks_addr = s })
parse_option (opt_mng_addr s) args = parsed (record args { mng_addr = s })
parse_option (opt_socks_port s) args = set_socks_port (port s) args
parse_option (opt_mng_port s) args = set_mng_port (port s) args
parse_option (opt_user s) args =
    if leb max_users (length args.users) then exits 1 else add_user (user s) args

abbrev pub then_parse : (Socks5Args → Parsed) → Parsed → Parsed
then_parse next (exits n) = exits n
then_parse next (parsed args) = next args

-- the loop, and the check for words behind the options
unfoldable pub parse_options : List Opt → List (List ℕ) → Socks5Args → Parsed
parse_options [] [] args = parsed args
parse_options [] (word ∷ words) args = exits 1
parse_options (o ∷ opts) words args = then_parse (parse_options opts words) (parse_option o args)

-- `parse_args`
abbrev pub parse_args : List Opt → List (List ℕ) → Parsed
parse_args opts words = parse_options opts words default_args

-- What `main` gives to `server_run`, and the table of users it has set up.
pub record Config : Type 0 where
  pub users : Table
  pub socks_addr : List ℕ
  pub port : List ℕ
  pub mng_addr : List ℕ
  pub management_port : List ℕ

abbrev pub initial_user : List ℕ × List ℕ → Option (List ℕ) × Option (List ℕ)
initial_user (name, pass) = (some name, some pass)

-- `main` behind `parse_args`
unfoldable pub configure : Socks5Args → Config
configure args = record {
  users = users_init_from_args (some (map initial_user args.users));
  socks_addr = args.socks_addr;
  port = printed 6 (decimal args.socks_port);
  mng_addr = args.mng_addr;
  management_port = printed 6 (decimal args.mng_port);
}
