-- ===== src/Lib.antt =====
-- QingzhouSSH is a desktop SSH client. This is a model of the logic of its Rust back end,
-- src-tauri/src, with proofs about it.
--
-- The parts and how they interact. A transfer is first a job in the table `transfer_jobs`
-- (domain/transfer_job.rs, repositories/transfer_job_repository.rs). A worker of the queue
-- (services/transfer_queue_service.rs) picks a job, claims it, runs the transfer, writes what the
-- transfer reports into the table, and settles the job. A download reads a file over SFTP in windows
-- of chunks whose answers come in any order (core/sftp/pipeline.rs, core/sftp/transfer.rs). A workflow
-- is a graph of nodes (domain/workflow.rs) that is searched before it is run
-- (core/workflows/validation.rs), is run node by node (services/workflow_service.rs), branches by
-- conditions (core/workflows/condition.rs), and has its runs and the attempts of their nodes in two
-- tables (repositories/workflow_repository.rs). A task of the catalog that is run on a server is an
-- operation: a run and its steps in two tables (domain/operation.rs,
-- repositories/operation_repository.rs) that the service moves on step by step
-- (services/operation_service.rs); a dangerous one is previewed, confirmed, and run between the capture
-- of a restore point and its commit or application (repositories/operation_restore_repository.rs).
-- The output of a command becomes events (domain/events.rs).
-- These give the errors of error.rs. Apart from them, an update of the program is looked for at two
-- sources (core/updates/mod.rs), and is downloaded, verified and installed by a manager that keeps its
-- phase (domain/update.rs, services/update_service.rs) and a state file (core/updates/state_store.rs).
--
-- Which file models which part (paths of the code from src-tauri/src):
--   Prelude       names shared by all: Boolean tests, lists, texts as code points, results
--   Error         error.rs: AppError, code, retryable
--   Error/Cut     error.rs ssh_command and transfer_job_repository.rs cap_utf8: the cut of a text
--   Sftp/Pipeline/Window, Sftp/Pipeline/Buffer
--                 core/sftp/pipeline.rs: plan_window_from, effective_read_chunk, OrderedChunkBuffer
--   Sftp/Download core/sftp/transfer.rs: run_download_pipeline and write_download_chunk, as a status
--                 that is fed events
--   Transfer/Job  domain/transfer_job.rs: TransferJob, TransferJobStatus, can_automatically_retry
--   Transfer/Table, Transfer/Table/Rows, Transfer/Table/Endings
--                 repositories/transfer_job_repository.rs: each statement, on a list of rows
--   Transfer/Table/Ops
--                 the statements as one type, and their sequences
--   Transfer/Queue
--                 services/transfer_queue_service.rs: execute, execute_inner, process_events,
--                 ensure_finished
--   Workflow/Status
--                 domain/workflow.rs and core/workflows/state_machine.rs: statuses and transitions
--   Workflow/Run  repositories/workflow_repository.rs: each statement on a row of workflow_runs
--   Workflow/Attempts
--                 repositories/workflow_repository.rs: each statement on workflow_node_runs
--   Workflow/Graph
--                 domain/workflow.rs, core/workflows/validation.rs reachable_from, and
--                 services/workflow_service.rs next_node
--   Workflow/Cycle
--                 core/workflows/validation.rs: has_cycle
--   Workflow/Validation
--                 core/workflows/validation.rs: validate_workflow
--   Workflow/Runner
--                 services/workflow_service.rs: the loop of run, and how a run ends
--   Workflow/Condition
--                 core/workflows/condition.rs: validate_condition, evaluate_condition
--   Operation/Status
--                 domain/operation.rs: statuses of runs and steps, phases, and the transitions
--   Operation/Table, Operation/Table/Steps
--                 repositories/operation_repository.rs: each statement on runs and on steps
--   Operation/Table/Ops
--                 the statements as one type, and their sequences
--   Operation/Action
--                 what the service acts on: the tables, a clock, what was read and what was done
--   Operation/Service
--                 services/operation_service.rs: run_phase, the run of a planned task, cancel
--   Operation/Service/Dangerous
--                 services/operation_service.rs: run_dangerous and finish_dangerous_failure
--   Operation/Service/Rollback
--                 services/operation_service.rs: rollback_operation
--   Operation/Service/Preview
--                 services/operation_service.rs: begin_preflight, complete_preflight, the start of a
--                 task from its preview
--   Operation/Restore, Operation/Restore/Ops
--                 domain/operation_restore.rs and repositories/operation_restore_repository.rs
--   Update/Release, Update/Lifecycle
--                 domain/update.rs: UpdateRelease, UpdateLifecycle
--   Update/Policy, Update/Check
--                 core/updates/mod.rs: TrustedSourcePolicy, parse_manifest_for_platform and
--                 DualSourceChecker
--   Update/Staging
--                 services/update_service.rs and core/updates/state_store.rs: the data of a download,
--                 verify_bytes, write_verified_file, validate_staged_file
--   Update/Service
--                 services/update_service.rs: UpdateService; core/updates/state_store.rs: load, save
--   Update/Manager, Update/Shown
--                 services/update_service.rs: UpdateManager, and what it shows
--   Update/Manager/Ops
--                 the operations of the manager as one type, and their sequences
--   Events        domain/events.rs: EventSequence, OutputBudget, split_utf8
--   Events/Utf8   domain/events.rs: Utf8Chunker, with the decoding of UTF-8
--   Examples      runs on concrete inputs
-- The other modules hold proofs about the one they are below.
--
-- State is passed explicitly. A table is the list of its rows, and a statement is a function of it; an
-- error is a value of Result. What the code waits for is an argument: the events of a download, the
-- events and the answer of a transfer, what a server, a file or an installer answers, the times and the
-- new ids. The libraries for versions, URLs, JSON and SHA-256 are arguments too. Numbers are natural numbers; where
-- the code saturates or narrows a machine integer this is written out (saturating_add, `% 2 ^ 32`,
-- to_i64). f64 is a type of its own, and so is a JSON value, given by what is asked of it. A text that
-- is measured or searched is the list of its code points.
--
-- Fuel: drain_ready has as much as there are chunks in the buffer, each round removes one;
-- plan_window_from has as much as chunks may be asked for; search_loop has one more than there are
-- edges, which is how often a node is put in its queue; sort_loop has as much as there are keys, each
-- put in the queue once at most; check_utf8 has
-- as much as there are bytes and drain_decodable one more, each round takes a byte at least; run_loop is
-- given one turn more than there are nodes, since no
-- node is visited twice. A run of a download takes one event at a time and needs no fuel.
--
-- Not modelled: SSH and SFTP sessions, files and the database, which answer by what they are assumed
-- to store; uploads; the interleaving of several workers within one execution; the restore points of a
-- workflow, and how those of an operation are captured and applied on the server; what a
-- workflow's node does, its retry and the checks of its fields; the HTTP client and the Tauri
-- updater, which answer; scripts, tasks, logs, the migration of data, and the front end.
pub mod Prelude
pub mod Error
pub mod Sftp
pub mod Transfer
pub mod Workflow
pub mod Operation
pub mod Update
pub mod Events
pub mod Examples
