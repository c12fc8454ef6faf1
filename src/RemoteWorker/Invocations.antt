-- ===== src/RemoteWorker/Invocations.antt =====
-- `main` and `_dispatch` of remote_worker.py as far as they reach the state files: invocations of
-- the worker one after the other, each with its own machine answers, each possibly killed.
use project_bourne.Prelude.{ℕ, String, List, [], ◌∷◌}
use project_bourne.Json.{Json, Fields}
use project_bourne.RemoteWorker.Effects.{World, Env, Outcome, Exec, ◌>>=◌, lift}
use project_bourne.RemoteWorker.Requests.{request_payload}
use project_bourne.RemoteWorker.Operations.{Reply, prepare, reconcile, cancel}
use project_bourne.RemoteWorker.Operations.Submit.{submit}

pub data Operation : Type 0 where
  prepare_op submit_op reconcile_op collect_op cancel_op : Operation

-- `_dispatch`: `collect` is `_reconcile` too.
unfoldable pub dispatch : Operation → Fields → Exec Reply
dispatch prepare_op payload = prepare payload
dispatch submit_op payload = submit payload
dispatch reconcile_op payload = reconcile payload
dispatch collect_op payload = reconcile payload
dispatch cancel_op payload = cancel payload

abbrev pub operation_name : Operation → String
operation_name prepare_op = "prepare"
operation_name submit_op = "submit"
operation_name reconcile_op = "reconcile"
operation_name collect_op = "collect"
operation_name cancel_op = "cancel"

-- One process: the operation of its arguments and the envelope on its input,
-- the machine's answers, and how many effects it lives for.
pub record Invocation : Type 0 where
  pub operation : Operation
  pub request : Json
  pub env : Env
  pub lifetime : ℕ

unfoldable pub invoke : Invocation → World → Outcome Reply × World
invoke i w =
    (lift (request_payload i.request (operation_name i.operation)) >>= dispatch i.operation) i.env
      (record w { budget = i.lifetime })

unfoldable pub run_all : List Invocation → World → World
run_all [] w = w
run_all (i ∷ rest) w = run_all rest (invoke i w).1
