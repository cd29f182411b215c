-- ===== src/Lib.antt =====
-- A model of the core of tauri-connector: the coordination of tool calls in a Tauri app.
--
-- A tool call takes a lease on the resources that it touches (plugin/src/workflow/resources.rs).
-- When the outcome of a call stays unknown, its resources are quarantined until the result arrives
-- late, someone lifts the quarantine, or its time to live is over. What a workflow run retains is
-- charged to one shared budget (plugin/src/workflow/budget.rs), and each of its events is made
-- durable in a journal before its effects are started (plugin/src/workflow/journal.rs). Outcomes
-- keep apart what was executed, verified and changed (crates/client/src/outcome.rs), and a batch
-- of calls is scheduled along its dependencies (crates/client/src/batch.rs). A workflow is
-- validated before it runs, and each step is resolved against the inputs and the outcomes of the
-- steps before it (crates/client/src/workflow); its report is cut to a budget of bytes
-- (plugin/src/workflow/output.rs). The service drives the run (plugin/src/workflow/service.rs): it
-- prepares each step on its page, makes the intent to write durable, executes, verifies and
-- records it, and lets a caller continue, reconcile or cancel a run that has stopped. A selection
-- of an element lasts until a choice, its end or the loss of the page (plugin/src/picker/mod.rs).
-- Which port a listener tries is settled in crates/client/src/ports.rs.
--
-- Which file models which part:
--   Prelude, Prelude/*   shared names: native numbers and tests, lists, texts, results
--   Map                  BTreeMap and HashMap with string keys, as lists in key order
--   Json, Json/Reads     serde_json::Value, as far as the program reads and compares it
--   Resources/Paths      conflicts, sort and dedup of resource names
--   Resources/State      ArbiterState, expire_quarantines, record_late, lock_current
--   Resources/Arbiter    try_acquire, quarantined, restore_quarantine, list, release, settle_late
--                        of ResourceArbiter; quarantine, quarantine_request, quarantine_response
--                        and drop of Lease
--   Resources/Steps      any interleaving of these, each in the lock from start to end
--   Resources/Waiting    acquire_within, one round for each attempt
--   Resources/Tools      tool_resources
--   Budget/Charges       MemoryBudget and Reservation: every atomic access is one event
--   Budget/Ledger        what the budget promises: a ledger that answers each call by what fits
--   Budget/View          what the ledger shows of the budget
--   Journal/Records      JournalRecord, validate_record, validate_sequence, remember
--   Journal/Reader       read_history over the bytes of the file
--   Journal/Writer       append and the writer thread of open_with_options
--   Outcome/Facts        ExecutionOutcome, its constructors, is_success
--   Outcome/Adapters     legacy_outcome and legacy_error_outcome
--   Batch/Spec           BatchSpec, dependency_edges, prepare_tool_args
--   Batch/Schedule       run_batch_outcomes: one round of either loop is a tick
--   Batch/Checks         validate, up to its search for a cycle
--   Batch/Ids            the ids that the logs show
--   Batch/Outcomes       adapt_legacy, compact_tool_outcome
--   Batch/Report         what is skipped at the end, and the report
--   Workflow/Spec        the types of spec.rs and value_expr.rs
--   Workflow/Exprs       ValueExpr::resolve, validate_pointer, resolve_expr to resolve_step
--   Workflow/Validate    WorkflowSpec::validate and the checks of its parts
--   Workflow/Parse       WorkflowSpec::parse and the checks of a value's shape
--   Workflow/References  what it is that a step refers to nothing any more
--   Output               project, strip_outcome, pick_bounded, insert_if_fits, fits
--   Service/State        Run and its report, checkpoint, stop, terminal_actions, page_error, and
--                        the acts of a run outside of itself
--   Service/Calls        bounded_call, cleanup, wait_condition, observe_condition, and the loop of
--                        drive that executes a step
--   Service/Steps, Service/Steps/*
--                        a round of the loop of drive, from its guards to the record of its result
--   Service/Drive        drive around that loop, and the end of create
--   Service/Resume       resume_run, reconcile and workflow_cancel
--   Service/Registry     create up to the start of the run, canonical_value, fingerprint, find
--   Picker/Entries       Entry, active, terminal, revoke, begin_target_cleanup, page_unavailable,
--                        window_closed for one entry
--   Picker/Reports       accept and sanitize_selection
--   Json/Edit            insert, remove, get_mut, push and pop on a value
--   Ports/Ranges         parse_port_range, range_from
--   Ports/Plans          PortPlan, resolve_port
-- The other files hold the proofs, and are named for what they prove; Tests modules hold runs on
-- concrete inputs.
--
-- State is passed explicitly. A Rust String is a native string, or the list of its codes where it
-- is taken apart; a Vec with an entry for each action of a batch is a function of the index. The
-- clock's readings, new identifiers, the choice of the thread or call that goes on next, and the
-- outcome of a write or a call are arguments, so that the theorems hold for all of them. A message
-- is kept by its parts where it is built from other values.
--
-- Fuel: read_lines has one round for each byte of the file and one more, and every round but the
-- last takes at least one byte. The scheduler's rounds follow the list of completions that it is
-- given; the weight in Batch/Ending says how many are enough. The loop that makes an id for the
-- log has one round more than the longest id is long; each makes the candidate longer. The shape
-- checks of a workflow take how many levels are left instead of the depth, and end with an error
-- where none is. Its validator and its resolution follow the structure of the spec. An operation
-- on a selection reads the clock once. The loops of the service take the list of what happens in
-- each of their rounds; it ends where the deadline has come, so the theorems hold for any number
-- of rounds.
--
-- A run of the service is a function of its world: the records StepWorld and DriveWorld say, in
-- the order of the code, what each reading of the clock and of the canceller is, what the page
-- answers or that it does not, which records the journal keeps, and whether memory is left. The
-- acts of a run are kept in the order in which they happen, so that a theorem can say what came
-- before what. Of a report those fields are kept that are read again or that say what happened.
--
-- serde_json is the parameter Codec of the journal, Serde of a workflow (sizes, what a JSON
-- Pointer leads to and its replacement) and size of the output and of the selection (the bytes of
-- a value's text). The service takes Printing: how a step and a spec are serialized, and the HMAC
-- of a value; a new id is the id of no run yet (AreFresh). The journal relies on this of a record
-- that is submitted (RoundTrips): its JSON is one line, and that line reads back as the record.
-- The workflow relies on Assigns: a place that exists can be assigned, and places outside of it
-- stay. The output relies on IsSize: a value is no longer than what holds it, and a field never
-- shortens an object.
--
-- Not modelled: files, locks and keys around the journal; of the service its recovery from the
-- journal, the checks of workflow_get, the contents of requests and of evidence, the redaction of
-- reports, and the record that a cancellation appends while a step executes; the tasks that drive
-- a selection, which await what is outside; the actual calls of tools; and the parts of the
-- repository that are sockets, windows, the command line or formats of messages.
pub mod Prelude
pub mod Map
pub mod Json
pub mod Budget
pub mod Resources
pub mod Journal
pub mod Outcome
pub mod Batch
pub mod Ports
pub mod Workflow
pub mod Output
pub mod Picker
pub mod Service
