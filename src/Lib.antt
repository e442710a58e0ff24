-- ===== src/Lib.antt =====
-- Verification library of contextctl.
--
-- contextctl keeps Context Cards: descriptions of knowledge that a source publishes, with the search
-- scopes that reach it. Ingestion hands over a chain of Publications for each source; the registry turns
-- their knowledge units into versions of Cards, judges what a Publication's changes do to the Cards that
-- serve, and lets an operator approve, roll back, reject or disable them; the daemon admits the work and
-- schedules the one inference session that all of it shares.
--
-- What models what, with paths from the repository's root:
--
-- Runtime: apps/contextctl-daemon/src/runtime.
--   Runtime/Lane is the AdmissionLane of admission.ts. Its fields are those of the class (`#active` is
--   active, `#queue` is queue); `run`, `on_abort`, `finish`, `drain_one` and `stop_accepting` are its
--   methods and listeners. A turn gives the next lane and the effects: which tasks start, which promises
--   are rejected and why. `handle` is one event and `serve` is all of a lane's life. The signal that a
--   submission carries is the two readings of `aborted` that `run` makes; a task that runs is what its
--   `finally` block does, `finish`.
--   Runtime/Scheduler is the EmbeddingRuntimeScheduler of embedding-runtime-scheduler.ts: its state and its
--   profile check. Runtime/Scheduler/Turns has the calls and what the timers and finished work do. A timer
--   is armed or not; when it fires, an event. `drain_loop` runs on fuel, one unit for each entry of the two
--   queues: each round takes an entry out of a queue, so the loop ends by itself within that fuel. The
--   resident set size and the clock are arguments of the events, `trim` an argument of the profile check.
--   Runtime/Batches has the two adapters of the same file, which cut inputs into batches, with their `catch`:
--   what becomes of the task of one batch is an argument, and the loop runs on as much fuel as there are
--   inputs, since each batch takes at least one.
--   Runtime/Profile is profile.ts: the profile, its check in the order of the source, and the profile that
--   overrides give; a number that is not a safe integer is one value, `unusable`. Runtime/Deadline is
--   RequestBudget of deadline.ts: its readings of the clock are arguments, a signal is its reason and its
--   timer, a race is what has ended it and what it still listens to. Runtime/Lifecycle is DaemonLifecycle
--   of lifecycle.ts over the lanes of Runtime/Lane: what `shutdown` waits for between two turns of the event
--   loop is a phase, a timer that fires and a close that settles are events, and whether the owner of a lane
--   starts something is an event of that lane.
--
-- Registry: packages/registry-lifecycle/src.
--   Registry/Model has the data of domain/; Registry/Publications that of a Publication, from
--   packages/contracts/src/ingestion-registry.
--   Registry/Versions is domain/card-version.ts, Registry/Chain domain/publication-chain.ts,
--   Registry/Review domain/card-review-state.ts and domain/lifecycle-event.ts, Registry/Impact
--   domain/card-impact.ts, Registry/Scopes the translation of domain/retrieval-scope.ts.
--   Registry/Store is infrastructure/sqlite: a table is the list of its rows in the order of their insertion,
--   a statement a function of the tables, a transaction the composition of its statements. A column holds
--   the value itself: the text that JSON.stringify writes for it and the parser reads is not modelled.
--   Registry/Effects is what a use case runs in: the database, the id generator and the clock, which are
--   functions of how often they were asked, and an error. Registry/Decisions is
--   application/approve-card-version.ts with the limits of domain/card-catalog.ts, where the byte length of
--   the canonical catalog is an argument; Registry/Assessment is application/assess-publication-impact.ts.
--   Registry/Grounding is domain/fact-grounding.ts: Texts its text functions and regular expressions, which
--   are automata, Scopes and Fragments its checks, Report the findings and the verdict. The Unicode tables
--   of the language (white space, letters and numbers, lower case) are an argument.
--   Registry/Claim is application/claim-publication.ts and Registry/Intake application/intake-publication.ts.
--   The repository of Publications and the generator of meanings are arguments, and an intake runs to its
--   end before the next one starts. What the source awaits before its one commit is a read of the database
--   or a call of such a port, so each step of an intake is an action on the same database.
--   `deliver` is a sequence of notifications, each with its intake.
--
-- Common has the array methods of the source over native numbers, tables with keys, and results.
-- Samples has runs at fixed inputs.
--
-- Numbers are natural numbers: counters, sizes and times of the source never are negative. `decimal` prints
-- one on as much fuel as it counts, which is enough since each digit divides it by ten. Every other
-- recursion is on the structure of a list or a text.
--
-- Not modelled: the rest of the daemon (its command line, its transports and its clock), intakes that
-- overlap in time, the validation of a Publication by its schemas, the codecs and the migration of the
-- database file, and the packages ingestion-indexing and selection-delivery, which meet the registry only
-- through the contract of a Publication and the approved Cards; benchmarks and scripts.
pub mod Common
pub mod Registry
pub mod Runtime
pub mod Samples
