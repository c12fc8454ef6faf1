-- ===== src/RemoteWorker/AtMostOnce/Submissions.antt =====
-- The invariant over every sequence of invocations.
use project_bourne.Prelude.{◌≤◌, ◌≡◌, List, [], ◌∷◌, arith}
use project_bourne.Json.{Fields}
use project_bourne.RemoteWorker.Paths.{FilePath}
use project_bourne.RemoteWorker.Effects.{World, Outcome, returned, raised, killed}
use project_bourne.RemoteWorker.Effects.Triple.{Ends}
use project_bourne.RemoteWorker.Operations.{Reply}
use project_bourne.RemoteWorker.Invocations.{
  Operation, prepare_op, submit_op, reconcile_op, collect_op, cancel_op, dispatch, operation_name,
  Invocation, invoke, run_all,
}
use project_bourne.RemoteWorker.AtMostOnce.Rules.{submissions, Safe, Holds, Moves-lift}
use project_bourne.RemoteWorker.AtMostOnce.Actions.{safe_id}
use project_bourne.RemoteWorker.Requests.{request_payload}
use project_bourne.RemoteWorker.AtMostOnce.Launch.{Moves-submit_op}
use project_bourne.RemoteWorker.AtMostOnce.Others.{
  Stays, Stays-bind, Moves-reconcile_op, Moves-cancel_op,
}
use project_bourne.RemoteWorker.AtMostOnce.Prepare.{Moves-prepare_op}

dispatch-Stays : (p : FilePath) (o : Operation) (payload : Fields) → Stays p (dispatch o payload)
unfolding dispatch
dispatch-Stays p prepare_op payload = Moves-prepare_op p payload
dispatch-Stays p submit_op payload = Moves-submit_op p payload
dispatch-Stays p reconcile_op payload = Moves-reconcile_op p payload
dispatch-Stays p collect_op payload = Moves-reconcile_op p payload
dispatch-Stays p cancel_op payload = Moves-cancel_op p payload

Ends-safe :
    (p : FilePath) (r : Outcome Reply) (w : World)
    → Ends (λ _. Holds p Safe) (Holds p Safe) r w
    → Holds p Safe w
Ends-safe p (returned a) w h = h
Ends-safe p (raised x) w h = h
Ends-safe p killed w h = h

-- One invocation of any operation, with any request, answers and moment of death, keeps the
-- invariant of every staging directory: at most one submission, and none while its state file
-- is absent or says "prepared".
pub invoke-Safe :
    (p : FilePath) (i : Invocation) (w : World) → Holds p Safe w → Holds p Safe (invoke i w).1
unfolding invoke
invoke-Safe p i w h =
    let moves : Stays p _ =
      Stays-bind p
        (Moves-lift p Safe safe_id (request_payload i.request (operation_name i.operation)))
        (dispatch-Stays p i.operation) in
    Ends-safe p _ _ (moves.at i.env (record w { budget = i.lifetime }) h)

run_all-Safe :
    (p : FilePath) (calls : List Invocation) (w : World)
    → Holds p Safe w
    → Holds p Safe (run_all calls w)
unfolding run_all
run_all-Safe p [] w h = h
run_all-Safe p (i ∷ rest) w h = run_all-Safe p rest (invoke i w).1 (invoke-Safe p i w h)

-- If nothing was submitted from a staging directory, then over every sequence of invocations of
-- the worker, each of any operation with any request and answers of the machine and killed at
-- any moment, the scheduler's submit command is launched at most once for the directory.
pub submitted_at_most_once :
    (p : FilePath) (calls : List Invocation) (w : World)
    → submissions p w.launches ≡ 0
    → submissions p (run_all calls w).launches ≤ 1
submitted_at_most_once p calls w h = (run_all-Safe p calls w (omega (arith, h), λ _. h)).0
