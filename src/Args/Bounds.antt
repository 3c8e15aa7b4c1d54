-- ===== src/Args/Bounds.antt =====
-- What `parse_args` accepts.
use protos_tpe_g.Prelude.{
  ℕ, ◌≤◌, ◌≡◌, refl, ap, sym, subst, ◌==◌, Bool, true, false, if_lem, Option, none, some, List, [],
  ◌∷◌, ◌++◌, append_assoc, length, length-append, leb, arith,
}
use protos_tpe_g.Args.{
  max_users, port_of, port, strtol, user_from, user, Socks5Args, Opt, opt_help, opt_version,
  opt_unknown, opt_socks_addr, opt_mng_addr, opt_socks_port, opt_mng_port, opt_user, Parsed, exits,
  parsed, default_args, set_socks_port, set_mng_port, add_user, parse_option, then_parse,
  parse_options, parse_args,
}

-- no colon
abbrev pub Plain : List ℕ → Type 0
Plain [] = Unit
Plain (c ∷ s) = ((c == b':') ≡ false) × Plain s

Plain-append : (s : List ℕ) (c : ℕ) → Plain s → (c == b':') ≡ false → Plain (s ++ (c ∷ []))
Plain-append [] c h e = (e, tt)
Plain-append (x ∷ s) c (d, h) e = (d, Plain-append s c h e)

-- a name and a password, and the text they were read from
abbrev pub Splits : List ℕ → List ℕ × List ℕ → Type 0
Splits s (name, pass) = (s ≡ name ++ (b':' ∷ pass)) × Plain name

user_from-Splits :
    (s before : List ℕ) (out : List ℕ × List ℕ)
    → Plain before
    → user_from before s ≡ some out
    → Splits (before ++ s) out
unfolding user_from
user_from-Splits [] before out h e = absurd cc
user_from-Splits (c ∷ s) before out h eq =
    if_lem (λ o. o ≡ some out → Splits (before ++ (c ∷ s)) out) (c == b':')
      (λ d e.
        let colon : b':' ≡ c = ground arith in
        let same : ◌≡◌ {A = List ℕ × List ℕ} (before, s) out = cc in
        subst (Splits (before ++ (c ∷ s))) same (ap (λ x. before ++ (x ∷ s)) (sym colon), h))
      (λ d e.
        subst (λ t. Splits t out) (append_assoc before (c ∷ []) s)
          (user_from-Splits s (before ++ (c ∷ [])) out (Plain-append before c h d) e))
      eq

-- `-u` takes the text before the first colon as the name and all behind it as the password.
pub user-Splits : (s : List ℕ) (out : List ℕ × List ℕ) → user s ≡ some out → Splits s out
unfolding user
user-Splits s out e = user_from-Splits s [] out tt e

abbrev pub AllPlain : List (List ℕ × List ℕ) → Type 0
AllPlain [] = Unit
AllPlain ((name, pass) ∷ users) = Plain name × AllPlain users

AllPlain-append :
    (users : List (List ℕ × List ℕ)) (u : List ℕ × List ℕ)
    → AllPlain users
    → Plain u.0
    → AllPlain (users ++ (u ∷ []))
AllPlain-append [] u h p = (p, tt)
AllPlain-append (x ∷ users) u (d, h) p = (d, AllPlain-append users u h p)

pub record InBounds (args : Socks5Args) : Type 0 where
  pub socks_port : args.socks_port ≤ 65535
  pub mng_port : args.mng_port ≤ 65535
  pub users : length args.users ≤ max_users
  pub names : AllPlain args.users

port_of-le : (o : Option (Bool × ℕ × List ℕ)) (n : ℕ) → port_of o ≡ some n → n ≤ 65535
port_of-le none n e = absurd cc
port_of-le (some (minus, k, c ∷ end)) n e = absurd cc
port_of-le (some (true, k, [])) n e =
    if_lem (λ o. o ≡ some n → n ≤ 65535) (k == 0) (λ d e. let z : 0 ≡ n = cc in omega arith)
      (λ d e. absurd cc) e
port_of-le (some (false, k, [])) n e =
    if_lem (λ o. o ≡ some n → n ≤ 65535) (leb k 65535) (λ d e. let z : k ≡ n = cc in ground arith)
      (λ d e. absurd cc) e

pub port-le : (s : List ℕ) (n : ℕ) → port s ≡ some n → n ≤ 65535
unfolding port
port-le s n e = port_of-le (strtol s) n e

abbrev pub Good : Parsed → Type 0
Good (exits n) = Unit
Good (parsed args) = InBounds args

module _ (args : Socks5Args) (h : InBounds args) where
  set_socks_port-Good :
      (o : Option ℕ) → ((n : ℕ) → o ≡ some n → n ≤ 65535) → Good (set_socks_port o args)
  set_socks_port-Good none l = tt
  set_socks_port-Good (some n) l = record {
    socks_port = l n refl;
    mng_port = h.mng_port;
    users = h.users;
    names = h.names;
  }

  set_mng_port-Good :
      (o : Option ℕ) → ((n : ℕ) → o ≡ some n → n ≤ 65535) → Good (set_mng_port o args)
  set_mng_port-Good none l = tt
  set_mng_port-Good (some n) l = record {
    socks_port = h.socks_port;
    mng_port = l n refl;
    users = h.users;
    names = h.names;
  }

  add_user-Good :
      (s : List ℕ) (o : Option (List ℕ × List ℕ))
      → user s ≡ o
      → leb max_users (length args.users) ≡ false
      → Good (add_user o args)
  add_user-Good s none e l = tt
  add_user-Good s (some u) e l =
      let (text, plain) = user-Splits s u e in
      record {
        socks_port = h.socks_port;
        mng_port = h.mng_port;
        users = ground (arith, length-append args.users (u ∷ []));
        names = AllPlain-append args.users u h.names plain;
      }

  parse_option-Good : (o : Opt) → Good (parse_option o args)
  unfolding parse_option
  parse_option-Good opt_help = tt
  parse_option-Good opt_version = tt
  parse_option-Good opt_unknown = tt
  parse_option-Good (opt_socks_addr s) = record {
    socks_port = h.socks_port;
    mng_port = h.mng_port;
    users = h.users;
    names = h.names;
  }
  parse_option-Good (opt_mng_addr s) = record {
    socks_port = h.socks_port;
    mng_port = h.mng_port;
    users = h.users;
    names = h.names;
  }
  parse_option-Good (opt_socks_port s) = set_socks_port-Good (port s) (port-le s)
  parse_option-Good (opt_mng_port s) = set_mng_port-Good (port s) (port-le s)
  parse_option-Good (opt_user s) =
      if_lem Good (leb max_users (length args.users)) (λ _. tt)
        (λ l. add_user-Good s (user s) refl l)

parse_options-Good :
    (opts : List Opt) (words : List (List ℕ)) (args : Socks5Args)
    → InBounds args
    → Good (parse_options opts words args)
unfolding parse_options
parse_options-Good [] [] args h = h
parse_options-Good [] (word ∷ words) args h = tt
parse_options-Good (o ∷ opts) words args h =
    go (λ a. parse_options-Good opts words a) (parse_option o args) (parse_option-Good args h o)
  where
    go :
        ((a : Socks5Args) → InBounds a → Good (parse_options opts words a))
        → (p : Parsed) → Good p
        → Good (then_parse (parse_options opts words) p)
    go next (exits n) g = tt
    go next (parsed a) g = next a g

-- A command line that does not end the program gives ports of 16 bits and at most 10 users, whose
-- names have no colon.
pub parse_args-InBounds :
    (opts : List Opt) (words : List (List ℕ)) (args : Socks5Args)
    → parse_args opts words ≡ parsed args
    → InBounds args
parse_args-InBounds opts words args e = subst Good e (
    parse_options-Good opts words default_args (record {
      socks_port = omega arith;
      mng_port = omega arith;
      users = omega arith;
      names = tt;
    }))
