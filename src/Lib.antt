-- ===== src/Lib.antt =====
-- Highly available TrailBase: a controller that moves one TrailBase writer between two nodes, what
-- each node does for it, and experiments on its write admission and on its object store. This library
-- models the Python program's own decisions, and proves what makes them right.
--
-- The parts and how they interact. The controller (hat/control.py) drives a transition as a plan of
-- phases. Its Journal, a private SQLite file under a lock, commits the intent of a phase before the
-- phase's action and its evidence after; the action is whatever SSH, cloud or HTTP call the phase
-- needs. On a node, hat/transition.py runs one request of the controller at a time as root, and
-- records each before and after; hat/node.py supervises the node's own processes, and lets a node
-- write only under an activation file. experiments/d4/admission.py puts a journal in front of a
-- writer, that releases a response only with a proof of its replication. experiments/m1/s3.py finds
-- out what became of an upload whose answer was lost.
--
-- The files, by what they model:
--   Prelude, with its children, Fallible and Exec: shared lists, tests and equalities; exceptions as
--     values (Exc, Result); methods as state passing that keeps what was written before a raise
--     (Exec).
--   Py: Value, JSON values as Python holds them, with ==; Access, how they are taken apart where an
--     exception is counted on; Text, the regular expressions; Paths, normal paths; Sorting, sorted
--     texts.
--   Control: hat/control.py. Files: private_file. Phases: PHASES, D3_PHASES, phase_plan, the rows that
--     a plan leaves. Rows: the two tables and each SQL statement on them. State: the attributes of
--     Journal, the files under its root, check_authority, commit and rollback. Journal: begin, step,
--     _boundary, comparison_boundary, verification_boundary, finish. Under Journal, the proofs: Guards
--     and Outcomes (each method's ends), Sound and Keeps (the invariant), Closing and Edges (that
--     methods keep it), Reach (controllers over time), Machine (what the journal promises of one
--     operation), Refines and Moves (that it does so), Order, Stuck, Recovery.
--   Admission: experiments/d4/admission.py. Requests: _request, _outcome, _proof. Proofs:
--     what a proof says. Table: AdmissionJournal.begin, update, check_authority. Admit: admit; Settled
--     and Release, the row that it leaves and what stands behind an answer.
--   S3: experiments/m1/s3.py. Text: quote_etag, classify_status, header_value. Put: put, delete.
--     Reconcile: reconcile_put_detailed.
--   Node: hat/node.py. Positions: txid, sync_position, public_status. Logs: LOG_FIELDS, log_bad.
--     Authority: authorized, authority, activate. Processes: graceful_stop, quiesce_owned.
--   Transition: hat/transition.py. Requests: validate_cut, validate_request. Activation:
--     _authority_state and what it refuses. Standby: _standby_health. Dispatch: main.
--   Ledger: hat/client.py. Records: _stamp, _valid_id and the form of an event. Tally and Read:
--     read_closed_ledger. Closed: what a closed ledger says.
--   Faults: hat/recovery.py. Classify: classify_fault. Sorted, Complete: what it gives.
--   Restore: hat/recovery.py. Endpoint: _safe_timestamp, restore_endpoint. Spans: what an accepted
--     plan covers.
--   Acceptance: hat/recovery.py. Profiles: _acceptance_operation, derive_restore_profile; Matrix holds
--     them against the controller's plans. Authority: _authority. Requests:
--     validate_acceptance_request. Results: validate_acceptance_result. Ledger: fault_operations.
--     Outcomes: validate_fault_outcomes. Json: _unique_pairs, parse_canonical_json. Parsing: both from
--     bytes. Protected: _protected_ledger; Frames and Unique, what it does not say twice. Captured:
--     _source_config, _cold, _writer, _producer_proof, _cut_report; Same, what these have in common.
--     Classified: _fault_outcomes. Samples: data for the runs.
--   Control.Accept: accept_comparison and accept_verification of hat/control.py, that complete a
--     pending phase from the results of restores. Resumed: what they leave of the journal. Proven:
--     what stands behind them. Control.Proof: _validate_d3_proof. Control.Serving: _exact_route,
--     current_writer and _d3_serving_state, over the journal and the ingress file. Control.Existing:
--     reconcile_existing, over the journal and the files beside it (Site). Control.Ddl:
--     _canonical_ddl, on ASCII texts; Total, that its loop ends. Control.Rejoin:
--     _validate_rejoin_boot_boundary, continue_rejoin; Continued, that it keeps the invariant.
--     Control.Schema: _journal_schema, over what SQLite says of the database (Catalog).
--     Control.Legacy: _validate_legacy_rows; Sound, what it leaves. Control.Opening: Journal.__enter__
--     and __exit__ with the migration; Sound, what an entered journal stands on. Control.Ingress:
--     _stable_private_bytes, process_identity and what may be seen of the files (Sights); Facts and
--     Gate, _ingress_allowed_body; Snapshot, _ingress_file_snapshot, _ingress_file_finalize and
--     ingress_allowed; Looks, Reasons, Pending, Decided, Forward, Unchanged and Allowed, what stands
--     behind its yes.
--   Examples in each part: runs on concrete inputs, and the theorems at them.
--
-- How state is modelled. A State is a record of the object's attributes, of the files on disk and of
-- the tables; a method is a function from a state to a result and a state. Each commit to come is a
-- Boolean of a list: true if SQLite makes it durable, false if it is rolled back; when the list has
-- run out every commit succeeds; a commit that raises though it is durable is not modelled, and a
-- record whose write raises in transition.py counts as not written. A process that dies inside a
-- phase is a step that ends after its intent; a new one is a Journal entered over the tables that
-- are there. The decision whether the ingress may start only looks: its state is the moment, each
-- look takes one, and Sights says for each moment what a look shows. Nothing relates two moments, so
-- that other processes may act between any two looks. A look at the tables shows both at one moment,
-- and some looks stand for several SQLite statements in a row: those of _validate_legacy_rows, of
-- _d3_serving_state, and of the steps of one operation. Moments are counted by looks: a reading
-- after another has a later one. Actions, upstreams, provers, the network and the processes are
-- arguments over an outside world; SHA-256 is the argument sha256. Numbers are natural numbers;
-- where the program bounds one by 2 ** 64, so does the model, and the OverflowError of SQLite from 2
-- ** 63 on is not modelled. Seconds of a clock are whole. The rounds of reconcile_put_detailed are
-- the program's own three; the walk of parse_canonical_json has the number of a value's parts as its
-- fuel, which is proved enough. json.loads of bytes and canonical JSON are arguments (loads_bytes or
-- tree, canonical).
--
-- Not modelled: opening the admission journal, reconcile_rejoin_boot_done (which leaves its insertion
-- in an open transaction when its commit fails), hat/descriptor.py, the effects of the phases in the
-- second half of hat/control.py, the sampling loop of hat/node.py and the actions of
-- hat/transition.py's execute, the producer of hat/client.py, what hat/recovery.py does after its
-- acceptance validators but for the checks of Protected, Captured and Classified, the drivers under
-- experiments/m0, experiments/m1/run.py and the adapters of experiments/d4: they are input and output,
-- or still to be modelled.
pub mod Prelude
pub mod Fallible
pub mod Exec
pub mod Py
pub mod Control
pub mod Node
pub mod Transition
pub mod Ledger
pub mod Faults
pub mod Restore
pub mod Acceptance
pub mod Admission
pub mod S3
