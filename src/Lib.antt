-- ===== src/Lib.antt =====
-- A verification library for prime-system, the packages under packages/ of the repository.
--
-- What is modelled, and where it stands:
-- - PluginHost: packages/plugin-host/src/lifecycle.ts (PluginHost/Lifecycle: PluginLifecycle with
--   advance, advanceTo, fail, shutdown), capabilities.ts (PluginHost/Capabilities: the grammar,
--   authorizeCapabilities, checkCapability), events.ts (PluginHost/Events: scopeKey, hostEvent),
--   trust.ts (PluginHost/Trust: checkProvenance, verifyPluginSignature, PluginDigestRegistry,
--   computePluginDigest in Trust/Digest) and
--   host.ts (PluginHost/Host: discover and admit; Host/Activate: activate and abort; Host/Calls:
--   call, shutdown, shutdownAll and a sequence of calls).
-- - EventStore: packages/event-store/src. Keys is scope.ts with the keys of base.ts and memory.ts;
--   Values, Seen and Serialize are serialize.ts; Redaction is fieldRedactor of redaction.ts; Memory
--   is memory.ts; Operations and Methods are BaseEventStore of base.ts, and Methods/Calls a host's
--   sequence of calls on the store and its scoped views.
-- - ConstraintSolver: packages/constraint-solver/src. Semantics is semantics.ts, Constraints
--   constraints.ts, Graph, Derive and DeriveAll derive.ts. The rest is solve.ts: Closure is
--   closeOver, Blockers firstProhibitionHit, firstPolicyDenial and permits, Evaluate evaluate, Core
--   coreEntries and minimiseCore, Solve/Loop the loop over the soft preferences and Solve/Outcome
--   solve. Order is order.ts: Order/Components finds the cycles and Order/Plan is planLoadOrder.
-- - PolicyEngine/Engine: packages/policy-engine/src/engine.ts with the records of schema.ts.
-- - QueryEngine: packages/query-engine/src. Budget is budget.ts, Degrade degrade.ts and Admission
--   admission.ts.
-- - CorpusSchema/SemVer: packages/corpus-schema/src/semver.ts, with the order of versions in SemVer,
--   the clauses of a range in SemVer/Ranges and resolution in SemVer/Satisfies.
-- - Base has what they share: Boolean tests, lists, texts in the order that JavaScript gives them,
--   a stable sort, Set and Map, and the names that every plain object inherits.
-- What concerns a part stands in its child modules, with concrete inputs in Examples. The
-- parts meet in data only: derivation reads what Semantics has read and gives the requirements that
-- Closure closes over, and solve runs all of these and
-- planLoadOrder; the host drives the lifecycle through the gates of Trust and Capabilities; degradation
-- counts costs as the budget does; the event store encodes what redaction returns.
--
-- How the code is read. A method is a function from the state to the new state and the result; a
-- throw is a result, and what was written before it stays. Texts of keys are lists of code points,
-- and JSON.stringify of an array of texts is written out with its escapes. A JavaScript value is a
-- tree, in which an object that can be met twice is a reference into a list of shared objects; so
-- cycles are met. A run that a caller saves is a reference too, since the store keeps the caller's
-- object. Numbers are natural numbers: weights, costs, times and sequence numbers are not negative
-- here. Messages of diagnostics are left out where nothing decides by them.
--
-- What stands for code outside the repository or behind a function value is an argument: the
-- redactor's functions and the clock (Options and World), toLowerCase in Redaction, the cost model
-- of the budget, the facet evaluator of admission, and for the plugin host the file system, the hash
-- function, the reading of a manifest and the sandboxes (Platform). The host handles one
-- call after another, its scope has a key, and the texts of its reasons are left out.
--
-- Fuel: advanceTo has ten rounds, one for each state; a walk over a value has one more than there
-- are shared objects, since each is entered once on a path; the closure has two more than the graph
-- has units, since each round but the last includes a new one. The search for the
-- components of a graph has twice as many as units and one for each ordering, since a round opens a
-- unit, closes one or passes an ordering.
--
-- Not modelled: the file and SQL backends of the event store, the
-- manifests, paths and sandboxes of the plugin host, the text of version ranges, the rest of the
-- query engine, and the other packages, most of which read files, call the network or
-- declare schemas of a library.
pub mod Base
pub mod CorpusSchema
pub mod PluginHost
pub mod EventStore
pub mod ConstraintSolver
pub mod PolicyEngine
pub mod QueryEngine
