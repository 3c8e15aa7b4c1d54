-- ===== src/Management/Respond.antt =====
-- `management_prepare_response`: the answer to a line, and what it does to the table of users.
use protos_tpe_g.Prelude.{
  ℕ, ◌||◌, if◌then◌else◌, Option, none, some, List, [], ◌∷◌, ◌++◌, codes, decimal, printed,
  strcasecmp_eq,
}
use protos_tpe_g.Users.{Table, users_add, users_remove, users_count}
use protos_tpe_g.Users.Format.{users_format_list, users_result_name}
use protos_tpe_g.Metrics.{Metrics, total_transferred_bytes}
use protos_tpe_g.Management.Line.{line_of, strtok, next_token, token}

-- `MANAGEMENT_BUFFER_SIZE`
abbrev pub management_buffer_size : ℕ
management_buffer_size = 1024

-- one line of the report on the counters
abbrev pub counter_line : List ℕ → ℕ → List ℕ
counter_line name value = name ++ (decimal value ++ (10 ∷ []))

-- `format_metrics_response`
unfoldable pub format_metrics_response : Metrics → List ℕ
format_metrics_response m = printed management_buffer_size (
    counter_line (codes "historical_connections=") m.historical
    ++ (counter_line (codes "concurrent_connections=") m.concurrent
        ++ (counter_line (codes "successful_connections=") m.successful
            ++ (counter_line (codes "failed_connections=") m.failed
                ++ (counter_line (codes "bytes_transferred=") (total_transferred_bytes (some m))
                    ++ (counter_line (codes "bytes_client_to_target=") m.bytes_client_to_target
                        ++ counter_line (codes "bytes_target_to_client=")
                            m.bytes_target_to_client))))))

-- a text without numbers, as `snprintf` leaves it
abbrev pub say : Table → List ℕ → Table × List ℕ
say users text = (users, printed management_buffer_size (text ++ (10 ∷ [])))

-- the answer to `ADDUSER` and `DELUSER`: the name of the result, and the count
abbrev pub say_result : List ℕ → List ℕ → Table → Table × List ℕ
say_result label name users = (
  users,
  printed management_buffer_size (
      label
      ++ (name ++ ((10 ∷ codes "users_count=") ++ (decimal (users_count users) ++ (10 ∷ []))))),
)

-- `ADDUSER`, with the tokens behind it
unfoldable pub answer_add :
    Table → Option (List ℕ) → Option (List ℕ) → Option (List ℕ) → Table × List ℕ
answer_add users (some user) (some pass) none =
    let (result, users') = users_add users (some user) (some pass) in
    say_result (codes "adduser=") (users_result_name result) users'
answer_add users _ _ _ = say users (codes "error=usage_ADDUSER_user_pass")

-- `DELUSER`, with the tokens behind it
unfoldable pub answer_del : Table → Option (List ℕ) → Option (List ℕ) → Table × List ℕ
answer_del users (some user) none =
    let (result, users') = users_remove users (some user) in
    say_result (codes "deluser=") (users_result_name result) users'
answer_del users _ _ = say users (codes "error=usage_DELUSER_user")

-- the chain of tests of the command
unfoldable pub answer_command :
    Table → Metrics → List ℕ → Option (List ℕ) → Option (List ℕ) → Option (List ℕ) → Table × List ℕ
answer_command users metrics command arg1 arg2 arg3 =
    if strcasecmp_eq command (codes "STATS") || strcasecmp_eq command (codes "METRICS")
    then (users, format_metrics_response metrics)
    else if strcasecmp_eq command (codes "USERS")
    then (users, users_format_list management_buffer_size users)
    else if strcasecmp_eq command (codes "ADDUSER")
    then answer_add users arg1 arg2 arg3
    else if strcasecmp_eq command (codes "DELUSER")
    then answer_del users arg1 arg2
    else if strcasecmp_eq command (codes "QUIT")
    then say users (codes "ok=bye")
    else if strcasecmp_eq command (codes "HELP")
    then say users (codes "commands=STATS,METRICS,USERS,ADDUSER,DELUSER,HELP,QUIT")
    else say users (codes "error=unknown_command")

abbrev pub answer :
    Table
    → Metrics
    → Option (List ℕ)
    → Option (List ℕ)
    → Option (List ℕ)
    → Option (List ℕ)
    → Table × List ℕ
answer users metrics none arg1 arg2 arg3 = say users (codes "error=empty_command")
answer users metrics (some command) arg1 arg2 arg3 =
    answer_command users metrics command arg1 arg2 arg3

-- The table and the text, for the bytes received.
unfoldable pub respond : Table → Metrics → List ℕ → Table × List ℕ
respond users metrics received =
    let command = strtok (line_of received) in
    let arg1 = next_token command in
    let arg2 = next_token arg1 in
    answer users metrics (token command) (token arg1) (token arg2) (token (next_token arg2))
