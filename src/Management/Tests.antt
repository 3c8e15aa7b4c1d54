-- ===== src/Management/Tests.antt =====
-- A management connection that receives its request in two parts.
use protos_tpe_g.Prelude.{◌≡◌, refl, some, none, List, [], ◌∷◌, codes}
use protos_tpe_g.Users.Invariant.{IsValid, users_init_from_args-IsValid}
use protos_tpe_g.Metrics.{initial}
use protos_tpe_g.Session.Defs.{op_write, c_str}
use protos_tpe_g.Management.Respond.{respond}
use protos_tpe_g.Management.Handlers.{
  Management, Call, reads, writes, management_read, management_write, management_prepare_response,
  contains, manage,
}
use protos_tpe_g.Management.Progress.{inputs, AllHonest, Freed, Progress}
use protos_tpe_g.Management.Answering.{accepted, manage-Progress, manage-over}
use protos_tpe_g.Management.Accounts.{manage-IsValid}
use protos_tpe_g.Management.Samples.{
  all_of, all_of-Honest, all_of-Willing, chunk, chunk-IsHonestCall, ana,
}

abbrev calls : List Call
calls = reads (chunk (codes "DELUSER")) ∷ (writes all_of ∷ (reads (chunk (codes " ana\n")) ∷ []))

calls-AllHonest : AllHonest calls
calls-AllHonest = (
  chunk-IsHonestCall (codes "DELUSER"),
  (all_of-Honest, (chunk-IsHonestCall (codes " ana\n"), tt)),
)

ready_to_write : (manage calls (accepted ana initial)).registered ≡ some op_write
unfolding manage accepted management_read management_prepare_response contains
ready_to_write = refl

conversation_example :
    Progress
      (accepted ana initial)
      (inputs calls (accepted ana initial))
      (manage calls (accepted ana initial))
conversation_example = manage-Progress ana initial calls calls-AllHonest

abbrev written : Management
written = management_write all_of (manage calls (accepted ana initial))

over_example :
    (written.to_client ≡ c_str (respond ana initial (inputs calls (accepted ana initial))).1)
    × (written.registered ≡ none)
    × Freed 1 written
over_example =
    manage-over ana initial calls all_of calls-AllHonest ready_to_write all_of-Honest all_of-Willing

table_example : IsValid (manage calls (accepted ana initial)).users
table_example =
    manage-IsValid ana initial calls
      (users_init_from_args-IsValid (some ((some (codes "ana"), some (codes "eva")) ∷ [])))
      calls-AllHonest
