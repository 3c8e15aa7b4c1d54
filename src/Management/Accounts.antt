-- ===== src/Management/Accounts.antt =====
-- What the commands of the management protocol do to the table of users.
use protos_tpe_g.Prelude.{
  ℕ, sym, subst, ◌||◌, if_lem, Option, none, some, List, codes, strcasecmp_eq,
}
use protos_tpe_g.Users.{Table}
use protos_tpe_g.Users.Invariant.{IsValid, users_add-IsValid, users_remove-IsValid}
use protos_tpe_g.Metrics.{Metrics}
use protos_tpe_g.Management.Respond.{answer_add, answer_del, answer_command, answer, respond}
use protos_tpe_g.Management.Handlers.{Call, manage}
use protos_tpe_g.Management.Progress.{inputs, AllHonest, waiting, answering, gave_up, over}
use protos_tpe_g.Management.Answering.{accepted, manage-Progress}

module _ (users : Table) (metrics : Metrics) (v : IsValid users) where
  answer_add-IsValid : (a b c : Option (List ℕ)) → IsValid (answer_add users a b c).0
  unfolding answer_add
  answer_add-IsValid none b c = v
  answer_add-IsValid (some a) none c = v
  answer_add-IsValid (some a) (some b) none = users_add-IsValid users (some a) (some b) v
  answer_add-IsValid (some a) (some b) (some c) = v

  answer_del-IsValid : (a b : Option (List ℕ)) → IsValid (answer_del users a b).0
  unfolding answer_del
  answer_del-IsValid none b = v
  answer_del-IsValid (some a) none = users_remove-IsValid users (some a) v
  answer_del-IsValid (some a) (some b) = v

  answer_command-IsValid :
      (command : List ℕ) (a b c : Option (List ℕ))
      → IsValid (answer_command users metrics command a b c).0
  unfolding answer_command
  answer_command-IsValid command a b c =
      if_lem (λ (p : Table × List ℕ). IsValid p.0)
        (strcasecmp_eq command (codes "STATS") || strcasecmp_eq command (codes "METRICS")) (λ _. v)
        (λ _.
          if_lem (λ (p : Table × List ℕ). IsValid p.0) (strcasecmp_eq command (codes "USERS"))
            (λ _. v)
            (λ _.
              if_lem (λ (p : Table × List ℕ). IsValid p.0) (strcasecmp_eq command (codes "ADDUSER"))
                (λ _. answer_add-IsValid a b c)
                (λ _.
                  if_lem (λ (p : Table × List ℕ). IsValid p.0)
                    (strcasecmp_eq command (codes "DELUSER")) (λ _. answer_del-IsValid a b)
                    (λ _.
                      if_lem (λ (p : Table × List ℕ). IsValid p.0)
                        (strcasecmp_eq command (codes "QUIT")) (λ _. v)
                        (λ _.
                          if_lem (λ (p : Table × List ℕ). IsValid p.0)
                            (strcasecmp_eq command (codes "HELP")) (λ _. v) (λ _. v))))))

  answer-IsValid :
      (command a b c : Option (List ℕ)) → IsValid (answer users metrics command a b c).0
  answer-IsValid none a b c = v
  answer-IsValid (some command) a b c = answer_command-IsValid command a b c

  respond-IsValid : (got : List ℕ) → IsValid (respond users metrics got).0
  unfolding respond
  respond-IsValid got = answer-IsValid _ _ _ _

-- Whatever a connection receives, the table of users stays well formed.
pub manage-IsValid :
    (users : Table) (metrics : Metrics) (cs : List Call)
    → IsValid users
    → AllHonest cs
    → IsValid (manage cs (accepted users metrics)).users
unfolding accepted
manage-IsValid users metrics cs v h = elim (manage-Progress users metrics cs h) [
  | waiting r f c w ↦ subst IsValid (sym w.same_users) v
  | gave_up r f c w ↦ subst IsValid (sym w.same_users) v
  | answering r f c a ↦
      subst IsValid (sym a.table)
        (respond-IsValid users metrics v (inputs cs (accepted users metrics)))
  | over r f c a ↦
      subst IsValid (sym a.table)
        (respond-IsValid users metrics v (inputs cs (accepted users metrics)))
]
