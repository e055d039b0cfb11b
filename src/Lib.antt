-- ===== src/Lib.antt =====
-- Neocortex: the runner's state, its scheduler, its protocol decoder and its backup worker.
--
-- A timer starts `nc run`. The scheduler (nc/scheduler.py) then takes turns: it picks a runnable
-- agent from an SQLite database (nc/state.py), has an adapter process work for it (nc/turn.py),
-- assesses the session (nc/adapters.py), reads the outcome that the agent wrote, and applies it:
-- a worker's DONE goes through the acceptance checks (nc/arbiter.py) to a critic, a critic's
-- pass is merged by git and accepts the task, and the other outcomes block, retry or give back
-- the task. A plan comes from proposals that the owner approves. Some adapters speak JSON-RPC
-- over a pipe: nc/acp_stream.py frames and routes the messages, and nc/acp_decoder.py decodes
-- what one prompt left. The owner answers questions, requeues, rolls back and recovers by
-- nc/operations.py. A second timer runs the backup worker (nc/backup_worker.py) on the events
-- that the state counts.
--
-- Files and code:
--   State.Tables            the schema of nc/state.py: a record for a row, `Db` for the database
--   State.Exec              statements, exceptions and `with self.db`: a computation takes a `World`
--                           (database, readings of the clock, what the scheduler keeps outside the
--                           database) to a result or an error and the next world; a transaction rolls
--                           the database back on an error
--   State.Query, State.Rows look-ups, and the statements that write one table; set_task, set_agent
--   State.Tasks             next_task_id, add_task, _validate_task_fields, add_task_spec
--   State.Cancel            cancel_task, unmet_dependencies
--   State.Proposals, State.Approve, State.Feedback
--                           add_proposal, reject_proposal, approve_proposal, planner_feedback
--   State.Reviews           claim_plan_review, complete_plan_review
--   State.Mail, State.Runs, State.Incidents
--                           add_agent, send, inbox, start_run, end_run, incidents and resolution
--   Scheduler.Pick          pick, next_ready_task, _spawn_for_queued_task
--   Scheduler.Preflight     _preflight_selected
--   Scheduler.Handlers, Scheduler.Verdict, Scheduler.Turn
--                           _on_ask to _on_done, _apply_verdict, _rework, _block, _task_turn
--   Scheduler.Step          _step_locked; the turns of planners and plan critics are arguments, and so
--                           is what others commit between selection and the repository's lock
--   Scheduler.Escalate, Scheduler.Loop
--                           _escalate_unanswered_questions, and run from its loop on
--   Session                 nc/turn.py, run_turn after the brief is built
--   Session.Plan, Session.Planner, Session.PlanCritic
--                           nc/turn.py, _planner_specs, run_planner_turn, run_plan_critic_turn
--   Adapters                nc/adapters.py: Usage has the token totals, Terminal the failure that a
--                           log ends with, Facts the tests of ACP evidence, Assess assess_session,
--                           Sessions the result of an ACP session; Session.Assessed is about a turn
--                           with such a session
--   Operations              nc/operations.py: recover_runs with _owner_status, retry_blocked_tasks,
--                           requeue_task, rollback_task, answer_message, the owner's inbox, import_tasks,
--                           submit_feedback, request_plan
--   Protocol, Config, Arbiter
--                           Outcome and read_outcome of nc/protocol.py, the limits and model_for of
--                           nc/config.py, parse_acceptance and the rendering of checks of
--                           nc/arbiter.py
--   Acp                     nc/acp_decoder.py and nc/acp_contract.py on the values of Json
--   Acp.Air, Acp.Evidence, Acp.Client, Acp.Projection
--                           nc/acp_client.py: what is kept of AIR evidence, _TurnEvidenceCollector
--                           (with the response in Acp.Evidence.Response), the checks on policies
--                           and on answers of the server, deny_request, and
--                           project_prompt_response
--   Acp.Turn                nc/acp_client.py, _run_codex_acp_turn; each wait on the stream is an
--                           argument
--   Acp.Stream              nc/acp_stream.py: a `Conn` is the state of one connection with what its
--                           two streams will do; Envelope is _validated, Frame _read_frame, Output
--                           _write, Requests the calls of a host and `pump`
--   BackupWorker            run_once and status of nc/backup_worker.py
--   Prelude, Json           shared tests, lists, texts, sorting, integers and JSON values
--   Examples                a concrete input for each theorem that has conditions
-- Another child module of one of these proves something of it and is named for that.
--
-- Conventions. Times are numbers of ticks, and the clock is a function from the number of readings.
-- JSON columns hold the JSON values. An error carries its kind, with its text where the program uses
-- the text. `run` has fuel for its rounds: one more than the limit on turns is enough. A list of rows
-- stands in the order of its keys, and `ORDER BY` is a stable sort. The loop of `wait_for` has
-- fuel for each byte that can still come and one more, which is enough since each round reads a frame.
--
-- Not modelled: what the operating system does. Calls of git, acceptance commands, adapters,
-- snapshots and the probe of the preflight are arguments that say how they ended (`Arbiter`,
-- `SessionEnd`, `Probe`, `BackupWorker.Host`, `Processes`, `Server`, `Platform`, `Sizes`); so are
-- the linter of nc/proposals.py and the redaction of diagnostics by regular expressions. JSON
-- texts are read and written by two arguments of a connection. Columns of a run for process
-- identities and host evidence, the briefs, locks (nc/lifecycle.py), the listings of
-- nc/operations.py, the processes of adapters and of the ACP transport (nc/acp_wire.py,
-- nc/acp_runtime.py), the snapshot's files, the command line and the pages of the UI are left
-- out.
pub mod Prelude
pub mod Json
pub mod State
pub mod BackupWorker
pub mod Acp
pub mod Adapters
pub mod Protocol
pub mod Config
pub mod Arbiter
pub mod Session
pub mod Scheduler
pub mod Operations
pub mod Examples
