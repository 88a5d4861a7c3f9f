-- ===== src/Lib.antt =====
-- The verification library of OH MY PM.
--
-- OH MY PM keeps a memory of a project on the local disk: project-memory stores snapshots and
-- evidence as immutable records beside one manifest per project, whose chronology lists the
-- captures oldest first. The runtime, the application, the command line and the MCP server sit on
-- top of it. This library models the core of project-memory, the runtime's timeline query,
-- and the planner.
--
-- The parts, from the bottom:
--
--   Memory/Errors          project-memory/src/errors.ts: an error is a value of `Result`.
--   Memory/AtomicWrite     project-memory/src/atomic-write.ts: `performAtomicWrite` in a state monad
--                          whose every call may throw. The nine stages are the source's. Laws says
--                          what the filesystem primitives do to the contents of files, Files gives
--                          files in memory that satisfy it.
--   Memory/Lock            project-memory/src/lock.ts: `acquireLock` over the calls on a lock file
--                          (`acquire_lock`), and in Lock/Steps cut at its awaits, so that numbered
--                          processes can take steps in any order (`Reach`). Any call may throw.
--   Memory/CanonicalJson   project-memory/src/canonical-json.ts: `canonicalStringify`; an encoder
--                          maps the output and the byte budget so far to the next ones.
--   Memory/Integrity       project-memory/src/integrity.ts: keys and digests.
--   Memory/Manifest        project-memory/src/manifest.ts: `assertManifestChronology`,
--                          `buildManifest`, and the checks of `parseAndVerifyManifest` behind the
--                          test of the shape. Manifest/Chronology describes what a chronology is.
--   Memory/Envelope        project-memory/src/manifest.ts: `buildEnvelope`, `isEnvelopeShape`,
--                          `parseAndVerifyEnvelope`.
--   Memory/Paths           project-memory/src/path-safety.ts: the paths of the store, `confine`, and
--                          the guards on the project root and on an export.
--   Memory/FileSystem      project-memory/src/filesystem.ts: the port as a record of calls. Laws says
--                          what a commit relies on.
--   Memory/Commit          project-memory/src/store.ts: `buildNextManifest`.
--   Memory/Privacy         project-memory/src/privacy.ts: `assertNoForbiddenKeys`.
--   Memory/Gates           project-memory/src/store.ts: `assertOperationId`, `tempName`, and the
--                          gates of `readManifest` on ownership and version.
--   Memory/Store           project-memory/src/store.ts: Input is `validateCommitInput`, Accept and
--                          Read are the read paths, Reconcile is `reconcileExisting`, Verify is
--                          `verify`, Write is `commitSnapshotBundle`, step by step in the order of
--                          the source, and Delete is `deleteProject`.
--   Memory/Migrations      project-memory/src/migrations.ts: the registry, `planMigration`, and the
--                          migration of store format 1 to 2.
--   Memory/RepairTypes,    project-memory/src/repair-types.ts and repair-plan.ts:
--   Memory/RepairPlan      `buildRepairPlan`.
--   Runtime/Timeline       runtime/src/projectbrain/timeline.ts: `validateTimelineInput`,
--                          `readChronology`, `selectWindow`; Timeline/Query has `loadSnapshot` and
--                          `timelineProject`, over the memory port and the kernel as parameters.
--   Planner                planner/src: intent.ts, context.ts, providers.ts, graph.ts and
--                          planner.ts (`planProject`), over a parameter for the provider registry.
--   Common                 Strings as lists of UTF-16 code units, JSON values, the stable sort,
--                          JavaScript sets of strings, actions that may throw, and lemmas on them.
--   Tests                  Concrete inputs.
--
-- How they interact: a commit takes the lock, reads and checks the manifest, stages the records and
-- moves them into place, builds the next manifest, writes it atomically, and lets the lock go; every
-- manifest and record carries a digest of its canonical form; a store of format 1 is migrated once; a
-- damaged store is scanned and repaired by a plan.
--
-- Bounds: all numbers are unbounded here; sequences of a verified manifest are at most 10000, far
-- from 2 ^ 53. The loop of `planMigration` runs on fuel `to - from`, which is enough because every
-- step of a registry advances by exactly one version.
--
-- Parameters: SHA-256, the UTF-8 length and the lowercasing of a string, `JSON.stringify` of one
-- number and of one string, `Date.parse`, the probe of processes, the functions of node:path, the
-- filesystem calls, the memory port, the kernel, and the planner's provider registry and normalization
-- of a request. The temp file name is the caller's.
--
-- A file is what `JSON.parse` and the shape of a manifest tell of its text (`Contents`): the arrays of
-- a text of that shape hold strings and entries as the type says, and its versions are integers from 0.
-- A lock file is what `JSON.parse` tells of its text (`LockContents`), since the printing and the
-- parsing of JSON are JavaScript's. A null entry in a chronology is malformed here, where the digest of
-- the source throws a TypeError first.
--
-- Not modelled: inspect, export and the run of a migration in the store, the repair scan and apply,
-- the check of physical paths, the input that the runtime sends to the planner, and the other code
-- above project-memory. The kernel is written in Rust and the contracts are generated.
pub mod Common
pub mod Memory
pub mod Planner
pub mod Runtime
pub mod Tests
