-- ===== src/Tests/TelemtRuns.antt =====
-- The API client against a node that answers with canned texts.
use telemux.Base.{
  ◌+◌, ◌≡◌, refl, ℕ, arith, [], ◌∷◌, none, some, true, ◌==◌, string_eq, inr, if◌then◌else◌, All,
}
use telemux.Diff.{compute_diff, delete_op}
use telemux.Sync.{apply_ops, fresh_result, conflicted}
use telemux.Telemt.{op_request, Client, Decoder, Answer, answered, Request, client_api}
use telemux.Base.Text.{contains, trim_space}
use telemux.Telemt.Verdicts.{apply_ops-rejected}
use telemux.Telemt.Received.{is_plain}
use telemux.Telemt.Requests.{compute_diff-IsCarried, IsCarried}
use telemux.Tests.Samples.{parse_sample, desired_users, node_users, options}

abbrev client : Client
client = record { base_url = "http://node:9091"; auth_header = "Bearer s" }

abbrev decoder : Decoder
decoder = record {
  envelope = λ s.
      if s == "new" then some (record { is_ok = true; payload = ""; revision = "r2" }) else none;
  users = λ s. none;
  health = λ s. none;
}

-- The world counts the requests; all are refused by another revision.
abbrev changed : Request → ℕ → Answer × ℕ
changed r n = (answered 409 " revision mismatch\n", n + 1)

apply_ops-rejected_example :
    apply_ops (client_api client decoder changed) (delete_op "sub_d" ∷ []) "r1" (fresh_result []) 0
    ≡ (conflicted (fresh_result []), 1)
unfolding contains trim_space op_request string_eq
apply_ops-rejected_example =
    apply_ops-rejected client decoder changed (delete_op "sub_d") [] "r1" (fresh_result []) 0 1 _
      409 " revision mismatch\n" refl refl (inr (omega arith))

desired_plain : All (λ d. is_plain d.username ≡ true) desired_users
unfolding is_plain string_eq
desired_plain = (refl, (refl, (refl, tt)))

node_plain : All (λ r. is_plain r.username ≡ true) node_users
unfolding is_plain string_eq
node_plain = (refl, (refl, (refl, (refl, tt))))

compute_diff-IsCarried_example :
    All (IsCarried client) (compute_diff parse_sample desired_users node_users options)
compute_diff-IsCarried_example =
    compute_diff-IsCarried client desired_users node_users desired_plain node_plain parse_sample
      options
