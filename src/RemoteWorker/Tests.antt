-- ===== src/RemoteWorker/Tests.antt =====
-- Runs of the remote worker, and instances of its theorems.
use project_bourne.Prelude.{
  ℕ, ◌≤◌, ◌≡◌, refl, String, ◌<>◌, none, some, false, List, [], ◌∷◌, arith,
}
use project_bourne.Prelude.Int.{pos}
use project_bourne.Prelude.Text.{is_space, is_line_break}
use project_bourne.Json.{Json, Fields, end, field, str, obj, int, equals_number}
use project_bourne.RemoteWorker.Paths.{FilePath, absolute_path}
use project_bourne.RemoteWorker.State.{slurm, SubmissionState, valid, public_state}
use project_bourne.RemoteWorker.Effects.{
  returned, World, Env, pure, raise, lift, require, utc_now, get_user, which, file_at, state_at,
  make_directories, make_new_directory, write_state, run_command,
}
use project_bourne.RemoteWorker.Operations.{
  prepare, make_variant_directory, prepare_found, prepare_new, prepare_again, initial_state, reply,
  reply_with, read_state, checked, state_of, save, save_and_reply,
}
use project_bourne.RemoteWorker.Observation.{job_id_of}
use project_bourne.RemoteWorker.Requests.{
  PrepareRequest, request_payload, prepare_request, staging_request, execution, is_execution_id,
  absolute, family_of, expected_of, variant_of,
}
use project_bourne.RemoteWorker.Operations.Submit.{
  submit, submit_from, submit_checked, launch_with, launch, record_outcome, accepted_job,
  submission_input, staged_problem,
}
use project_bourne.RemoteWorker.Invocations.{
  Invocation, prepare_op, submit_op, invoke, run_all, dispatch,
}
use project_bourne.RemoteWorker.Effects.Triple.{Ends}
use project_bourne.RemoteWorker.Replies.{Reported, submit-Reported}
use project_bourne.RemoteWorker.Existing.{Answers, prepare-existing}
use project_bourne.RemoteWorker.Retries.{Repeats, prepare-Repeats}
use project_bourne.RemoteWorker.Verified.{verified, submit-verified}
use project_bourne.RemoteWorker.AtMostOnce.Rules.{submissions, Holds, Safe}
use project_bourne.RemoteWorker.AtMostOnce.Submissions.{invoke-Safe, submitted_at_most_once}

abbrev execution_id : String
execution_id = "01ARZ3NDEKTSV4RRFFQ69G5FAV"

abbrev digest : String
digest = "0123456789abcdef0123456789abcdef0123456789abcdef0123456789abcdef"

abbrev staging : FilePath
staging = execution_id ∷ "executions" ∷ ".bourne" ∷ "work" ∷ "/" ∷ []

abbrev prepare_payload : Fields
prepare_payload = field "execution_id" (str execution_id) (
    field "staging_root" (str "/work") (
      field "scheduler_family" (str "slurm") (
        field "expected_files"
          (obj (
            field "job.sh" (str digest)
              (field "plan.json" (str digest) (field "worker.pyz" (str digest) end))))
          end)))

abbrev submit_payload : Fields
submit_payload =
    field "execution_id" (str execution_id)
      (field "staging_directory" (str "/work/.bourne/executions/01ARZ3NDEKTSV4RRFFQ69G5FAV") end)

abbrev machine : Env
machine = record {
  which = λ command. some ("/usr/bin/" <> command);
  clock = λ n. "2026-01-01T00:00:00Z";
  user = "ada";
  pid = "17";
  run = λ argv.
      some
        (record { returncode = some (pos 0); stdout = "4711\n"; stderr = ""; timed_out = false });
}

abbrev login_node : World
login_node = record {
  files = λ path. some (record { size = 3; sha256 = digest; text = "#!/"; parsed = none });
  states = λ path. none;
  directories = λ path. false;
  launches = [];
  ticks = 0;
  budget = 0;
}

abbrev envelope : String → Fields → Json
envelope operation payload = obj (
    field "protocol" (str "bourne.remote-worker") (
      field "protocol_version" (int (pos 1))
        (field "operation" (str operation) (field "payload" (obj payload) end))))

abbrev call : ℕ → Invocation
call n = record {
  operation = submit_op;
  request = envelope "submit" submit_payload;
  env = machine;
  lifetime = n;
}

abbrev preparation : Invocation
preparation = record {
  operation = prepare_op;
  request = envelope "prepare" prepare_payload;
  env = machine;
  lifetime = 9;
}

-- The first submission dies after the command was launched; the second one launches nothing.
abbrev calls : List Invocation
calls = preparation ∷ call 3 ∷ call 9 ∷ []

launched_once : submissions staging (run_all calls login_node).launches ≡ 1
unfolding request_payload equals_number run_all invoke dispatch prepare submit submit_from
    submit_checked launch_with launch record_outcome accepted_job submission_input staged_problem
    state_of read_state save save_and_reply reply reply_with prepare_request staging_request
    execution is_execution_id absolute absolute_path family_of expected_of variant_of
    make_variant_directory prepare_found prepare_new prepare_again initial_state public_state pure
    raise lift require utc_now get_user which file_at state_at make_directories make_new_directory
    write_state run_command job_id_of is_space is_line_break
launched_once = refl

submitted_at_most_once_example : submissions staging (run_all calls login_node).launches ≤ 1
submitted_at_most_once_example = submitted_at_most_once staging calls login_node refl

invoke-Safe_example : Holds staging Safe (invoke (call 9) login_node).1
invoke-Safe_example = invoke-Safe staging (call 9) login_node (omega arith, λ _. refl)

nothing_stands : verified (state_of submit_payload machine login_node).0 login_node ≡ false
unfolding state_of read_state checked staging_request execution is_execution_id absolute
    absolute_path lift state_at pure verified
nothing_stands = refl

submit-verified_example : (submit submit_payload machine login_node).1.launches ≡ []
submit-verified_example = submit-verified submit_payload machine login_node (nothing_stands)

abbrev alive_node : World
alive_node = record login_node { budget = 9 }

submit-Reported_example :
    let node = run_all (preparation ∷ []) login_node in
    Ends
      (Reported submit_payload)
      (λ _. Unit)
      (submit submit_payload machine node).0
      (submit submit_payload machine node).1
submit-Reported_example =
    submit-Reported submit_payload machine (run_all (preparation ∷ []) login_node)

prepare-Repeats_example :
    Ends
      (Repeats prepare_payload)
      (λ _. Unit)
      (prepare prepare_payload machine alive_node).0
      (prepare prepare_payload machine alive_node).1
prepare-Repeats_example = prepare-Repeats prepare_payload machine alive_node

abbrev request : PrepareRequest
request = record {
  execution_id = execution_id;
  staging_root = "work" ∷ "/" ∷ [];
  scheduler_family = slurm;
  expected = record { job = digest; plan = digest; worker = digest };
  variant = none;
}

request_parsed : prepare_request prepare_payload ≡ returned request
unfolding prepare_request execution is_execution_id absolute absolute_path family_of expected_of
    variant_of
request_parsed = refl

abbrev stored : SubmissionState
stored = initial_state request "ada" "2026-01-01T00:00:00Z" "2026-01-01T00:00:00Z"

abbrev prepared_node : World
prepared_node = record alive_node { states = λ path. some (valid stored) }

prepare-existing_example :
    Answers request
      (valid stored)
      prepared_node.budget
      (prepare prepare_payload machine prepared_node).0
    × ((prepare prepare_payload machine prepared_node).1.states ≡ prepared_node.states)
    × ((prepare prepare_payload machine prepared_node).1.launches ≡ prepared_node.launches)
prepare-existing_example =
    prepare-existing prepare_payload request (valid stored) machine prepared_node request_parsed
      refl
