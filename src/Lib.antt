-- ===== src/Lib.antt =====
-- Verification library of Bourne, the provenance and execution planner of src/bourneprov.
--
-- Parts of the program and how they interact. The resolver (resolver.py) turns a workload and an
-- inventory of targets, schedulers and execution contexts into candidates and selects at most one
-- as a plan. A plan for a remote scheduler is carried out by the one-shot worker on the login node
-- (remote_worker.py): the client stages files, then runs the worker once per operation over SSH,
-- and the worker keeps what it did in submission-state.json of the staging directory. It asks the
-- schedulers with commands whose output it parses (lsf.py for LSF). Metrics and results travel as
-- JSON values within bounds (runtime_evidence.py, worker_result.py). A request for an execution
-- comes as a JSON document or from the command line (execution_request.py) and becomes a workload; a
-- plan for a scheduler becomes a batch script (backends.py); what a run left behind is checked
-- against the request and summarised (execution_outcomes.py).
--
-- Files:
--   Prelude, Prelude/*: Python's tests, lists, texts and integers over the native numbers.
--   Json: JSON values as `json.loads` returns them and the two `_bounded_json`; Json/Bounds.
--   Lsf, Lsf/Match: lsf.py, its patterns as functions on texts; Lsf/Laws.
--   RemoteWorker/Paths, State, Requests: `_absolute_path`, the contents of the state file and the
--     checks of `_request_payload`, `_prepare` and `_state` in remote_worker.py.
--   RemoteWorker/Effects: an operation is an action on the login node: the files, the state files,
--     the directories and the launched commands are state; exceptions are values; the answers of
--     the machine (`shutil.which`, `getpass.getuser`, the clock, commands) are a parameter.
--   RemoteWorker/Observation, Observation/Answers, Operations, Operations/Submit:
--     `_scheduler_observation`, `_prepare`, `_submit`, `_reconcile` (also `collect`), `_cancel`;
--     Invocations: `main` and `_dispatch`.
--   RemoteWorker/AtMostOnce/*, Verified, Retries, Existing, Replies: what holds of these.
--   Resolver/Models: the records of workload_models.py and inventory_models.py it uses, without the
--     fields that it never reads; Numbers, Direct, Scheduled, Candidates, Selection: resolver.py
--     function by function; Resolver/Laws/*: what holds of these.
--   Ids: `new_ulid` of ids.py; Ids/Laws.
--   Tracing: the walk over recorded parents in `trace_artifact` of tracing.py; Tracing/Laws.
--   Planning/Shape, Container: ResourceShape, ContainerMount and ContainerExecution of
--     planning_models.py with the checks of their `__post_init__`.
--   Batch/Amounts, Slurm, Pbs, Lsf, Script: the batch scripts of backends.py, `render_batch_script`
--     and what it calls, and `_planned_execution_argv`; Batch/Laws/*: what holds of these.
--   Requests/Values, Amounts, Models, Parse, Document: execution_request.py, its checks of values,
--     `_parse_memory` and `_parse_walltime`, the records, `parse_execution_request`, and
--     `to_document` with `execution_request_from_cli`; Requests/Laws/*: what holds of these. The
--     record `Host` has what the machine gives: the size of the document as text, the resolved
--     paths, the identity and the time. Parse/Sections has the sections of a document.
--   Outcomes/Models, Verification, Telemetry, Persisted: execution_outcomes.py: its records,
--     `evaluate_verification`, `build_telemetry_summary` with `add_scheduler_wait`, and the dicts of
--     verification runs; Outcomes/Laws/*: what holds of these.
--   Scheduler/Observation, Families, LsfJob, Submission, Cancellation: the backends' `_observe_job`
--     for Slurm, PBS and LSF with the state of the execution that follows, `execute` and `cancel` of
--     SchedulerBackend in backends.py; Scheduler/Laws/*: what holds of these.
--   Prelude/Checks: code that may raise an exception and touches nothing.
--
-- Bounds. A worker's process has a budget of durable effects and is killed when it is used up; the
-- budget is a parameter, so that a process can die at every moment. All functions are structural
-- recursions on lists, texts or JSON values, but for `Tracing.walk`: its number of rounds is enough
-- if it is above the number of experiments that are recorded as parents.
--
-- Not modelled. Of `execute` the staging directory and its files; of `cancel` the details of the
-- events. Messages of exceptions leave out what they quote. `shlex.quote` is a parameter, and so
-- are the paths, times and identities that Python's library makes. An integer that is read from a
-- text is not limited in its digits. The fields `placement` and `evidence` of ResourceShape are
-- left out, as nothing that is modelled reads them. Workers run one after the other: the code
-- takes no lock. A state file is a state or a text that is refused; a scheduler family that the
-- file names is one of the three. `mkdir` raises FileExistsError, but no other OSError. Regular
-- expressions and case mapping count ASCII characters only, but for the units of sizes and
-- durations. The loop of `wait`, the import of results, the persisted form of requests, the stores
-- in SQL, SSH, process control, the rendering of responses and the command line's arguments are not
-- modelled.
pub mod Prelude
pub mod Json
pub mod RemoteWorker
pub mod Lsf
pub mod Resolver
pub mod Ids
pub mod Tracing
pub mod Planning
pub mod Batch
pub mod Requests
pub mod Outcomes
pub mod Scheduler
