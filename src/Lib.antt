-- ===== src/Lib.antt =====
-- The control plane of PVN, a virtual network for Proxmox VE: its resource model, its
-- in-memory store, its reconciliation controller and the placement of its central database,
-- translated from Go.
--
-- The parts and how they interact. A resource (internal/model) is metadata with the body of one
-- of thirteen kinds. A client creates, updates and deletes resources through the store
-- (internal/controlstore): every write is checked by the validation of the kind, by the
-- references that it names, by the states of what it newly names, and by uniqueness, and an
-- update also by the whole graph with the replacement in place. Operations are resources that
-- stand for work on another resource: a manager claims one with a lease, renews the lease, and
-- reports the outcome with MarkReconciled; a fence fails the expired reconciles of a target that
-- is going, a recovery fails abandoned operations, and a pruning removes ended ones. The
-- controller (internal/reconcile) is such a manager: it reads a resource, records and claims an
-- operation on its revision, renders it until the revision is stable, marks it, and completes the
-- operation, while a heartbeat renews the lease and other managers work on the same store. Apart
-- from the store, the central database's voters are planned from the enrolled nodes.
--
-- Which file models what:
--   Text, Netip, Result    texts as bytes, net/netip on IPv4, errors
--   Platform               JSON, SHA-256 and IPv6, which stay parameters
--   Text/Order             the order of Go's strings
--   Model/Kind, Resource   internal/model/kind.go, metadata.go and resources.go
--   Model/Ip               internal/model/ip.go (EffectiveIPv4Gateway and its companions)
--   Model/Patterns         the patterns of validation.go, requested_chassis.go, MAC addresses
--   Model/Validation       Validate and ValidateOperationPayload, by kind
--   Model/Defaults         SetDefaults, MarkPending and FloatingIP.MarkReconciled
--   Store/Table            the maps of internal/controlstore/memory.go as one list of resources
--   Store/References       validateReferencesLocked and validateAllReferencesLocked
--   Store/Referrers        references, firstReferenceLocked, validateNewReferenceStatesLocked
--   Store/Unique           conflictField, validateUniqueLocked and validateAllUniqueLocked
--   Store/Idempotency      fingerprint, idempotencyScope, replayLocked and rememberLocked
--   Store/Create, Update, Delete      Create, Update, BeginDelete, Purge and Delete
--   Store/Lease            claimOperation, RenewOperationLease and FenceReconciles
--   Store/Retention        PruneOperations and RecoverExpiredOperations
--   Store/Reconciled       MarkReconciled and ObserveNodeHeartbeat
--   Store/Read             Get, Snapshot, List and LookupRuntimePorts
--   Store/History          the step relation of the methods and its histories
--   Store/Outcomes         inversion of a method that has succeeded
--   Store/Integrity, Everywhere, Uniqueness, Validity, Leases, Versions, Replay      the proofs
--   Central/Placement      Select, validateVoterCount and sameSet of internal/central/placement.go
--   Central/Placement/Counting, Voters, Plans, Electorate, Sets, Stability, Success      their proofs
--   Reconcile/World        the run: store, renderer's state, heartbeat and other managers by calls
--   Reconcile/Calls        the methods of the store in that form
--   Reconcile/Work         renderUntilStable and completeOperation of internal/reconcile/reconcile.go
--   Reconcile/Decisions, Controller, Audit   reconcile, Delete and reconcileAll
--   Reconcile/Keeps, Methods, Runs, Invariants, Histories, Quiet, Convergence, Trust   the proofs
--   Ovsdb/Row              internal/ovsdbstore/row.go, on columns of libovsdb values
--   Ovsdb/Words            the enumerations of internal/model as texts
--   Ovsdb/Snapshot, Fields, Encode, Decode      encodeResource and decodeResource of
--                          internal/ovsdbstore/codec.go with the codecs of their fields
--   Ovsdb/Database         the two passes of decodeDatabase and decodeInternalOperation
--   Ovsdb/Unique, Whole    validateSnapshotUnique of validation.go, and decodeDatabase as a whole
--   Ovsdb/Internal         encodeLockRow and encodeIdempotencyRow
--   Ovsdb/RoundTrip, Metadata, Consistency, Held, Own, Passes, Keys, Distinct,
--   Remembered             the proofs on rows
--   Examples               runs of the methods and the theorems applied to them
--
-- How state and operations correspond. `Store` is Memory: its resources in one list, where
-- `resources[kind][id]` is the first entry of the kind and id, and its idempotency records as an
-- association list. A method is a function that gets the store and hands back the answer with
-- the next store, or an error; the guards stand in the order of the source. The clock's reading
-- and the id that the generator would give are arguments, and the end of the context is the flag
-- `done`. A definition is named as in the source, in snake_case; its Locked suffix is dropped.
--
-- Bounds and fuel. Integers of Go are integers with the wrap of an int64 at the increment.
-- Loops are structural recursion on lists. Times are natural numbers, counted from Go's zero
-- time. The batches of 256 are those of the source. decimal runs on fuel, one step more than
-- the number itself, which is more than its digits.
--
-- A run of the controller is a function of a `World` that counts its calls; what other managers do
-- before a call, the ticks of the heartbeat, the clocks and the ends of contexts are functions of
-- that count, so that a theorem over them covers every interleaving at the calls. The eight passes
-- of renderUntilStable are the fuel of its loop, as in the source.
--
-- A row of OVSDB is the list of its columns. Its sets and maps are values of libovsdb and no
-- pointers, and a number is an int64. A map of the source is the list of its pairs.
--
-- What is left out: the texts of messages, the index in the field of a validation error, locks,
-- and Clone, which is the identity on values. A loop over a map meets its entries in the order
-- of the list, so where several errors of one kind are possible the first one may differ. Texts
-- are ASCII where case or space matters. IPv6, JSON and SHA-256 are parameters, with no
-- hypothesis on them, except that a row reads back the times, the digests and the JSON that were
-- written to it. validateReferences of internal/ovsdbstore/validation.go repeats that of the
-- in-memory store and is modelled once. ReconcileForced and the locks of the controller are left
-- out. The other packages of the repository are not modelled: they are input and output, clients
-- of other services, or work on top of the store.
pub mod Prelude
pub mod Text
pub mod Result
pub mod Netip
pub mod Model
pub mod Platform
pub mod Store
pub mod Central
pub mod Reconcile
pub mod Ovsdb
pub mod Examples
