-- ===== src/Lib.antt =====
-- The web console of authz-plane: a model of its own logic and the theorems that hold of it.
--
-- The console (web/src) is a Next.js application over the control plane. Each feature under
-- web/src/features has wire shapes (schemas.ts), a store that its route handlers share (server.ts)
-- and pure helpers. Modelled are:
--
--   Common     The shared vocabulary: Boolean tests on the native numbers, lists, searches, text and
--              numerals, integers, and `Dict`, which is JavaScript's `Map` with its insertion order.
--   Diff       web/src/features/spec/diff.ts, the comparison of two versions of a tenant's
--              specification. Types has the operations and the splitting of a text into lines,
--              Align `alignLines` with its table of common subsequences, Pairs `pairChanges` and
--              `diffLines`, Views `summarize`, `unifiedLines`, `sideBySide` and
--              `changedFieldsLabel`. The proofs are in Lcs, Optimal, Recover, Runs, Collapse, Panes and
--              Summary.
--   Resolver   web/src/features/playground/resolver.ts, the local resolver of access checks. Model
--              has the authorization model, the tuples and the explanation tree, Evaluate the
--              closures of `explain` with the context that they change passed along, Explain the
--              response, its sentence and `batchCheck`. Grants says independently what it is to
--              hold a relation; Sound, Complete, Keeps, Evidence and Attribution lead to Decides.
--   Dsl        web/src/features/authz-model/dsl.ts, the language of authorization models. Parse and
--              References have `parseModel`, Summary `summarize`, Tokens `tokenizeLine`, Lines
--              `diffDsl` and `newRelations`; the proofs are in Closed, Depth, Ends, Lexemes,
--              Joined and Changes.
--   Relations  web/src/features/relations/server.ts, the store of a tenant's tuples. Write has
--              `writeRelations`, Listing `listRelations`; Allowed says independently which batches
--              are accepted, and Batch, Account, Effect, Replay and Paging have the proofs.
--   Reconcile  web/src/features/reconcile/server.ts, the runs of the reconciler. Advance has `getRun`
--              and `advanceLive`, Retry `retryRun`, `retryScript` and `newRunId`; Runs `listRuns` with
--              its statistics, Cells lib.ts and the tones of web/src/lib/phase.ts; Script, Polls,
--              Settle, Track and Pages have the proofs.
--   Spec       web/src/features/spec/server.ts, the versions of a specification. Save has `saveSpec`
--              and `restoreVersion` on the state of one tenant, Model the hash of a body; Laws,
--              History and Restore have the proofs. The save calls Diff for the summary of a version.
--   Drift      web/src/features/drift/server.ts, the findings of drift. List has `listDrift`, Heal
--              `healFindings`, `acknowledgeFinding` and `resyncAll`; Heals, Laws and Order have the
--              proofs.
--   Tenants    web/src/features/tenants, the tenants of the console: Slug has slug.ts, Preview
--              spec-preview.ts and Server server.ts; Shapes, Creates and Pages have the proofs.
--   Audit      web/src/features/audit/server.ts, the audit log. Server has `listAuditEvents` and
--              `requestAuditExport`, Laws the proofs.
--   Staging    web/src/features/authz-model/server.ts, the live model of a tenant and its draft. Server
--              has `validateModel` and `stageModel`, which call the parser and the summary of Dsl;
--              Laws has the proofs.
--
-- State. A module-level `Map` is a `Dict` that an operation takes and gives back; where the source
-- changes an object that the map holds, the model sets the new one under its key. The resolver's
-- mutable context is a record that every closure takes and returns, in the order of the calls. An
-- `async` function is the function of its result: none of those modelled waits for anything but
-- what it is given.
--
-- Loops. The diff's loops over two indices run on fuel, the length of what is left, which falls in
-- every round. The resolver's recursion runs on fuel `depth_cap` from depth 1: the depth grows with
-- every call and is cut above the cap, so the fuel is never what stops it. The depth of a model's
-- relations runs on fuel too, one round for each relation and one more: a relation is entered only
-- while it is not being visited. The tokenizer has one round for each character of the line, and a
-- lexeme takes at least one.
--
-- Parameters. The clock and the random identifiers are arguments. So is the store or list that a
-- feature starts from, which the source takes from its fixtures, the parser of the model
-- language where a write reads the model, the order of `localeCompare`, `Date.parse`, the tables of
-- Unicode behind `toLowerCase` and `normalize`, and the validation of a specification and the queueing
-- of a reconcile where a save calls them.
--
-- Bounds. A `Uint32Array` holds its entries modulo 2 ^ 32. Other numbers are counts, written as
-- natural numbers, or integers where they can be negative; that a count leaves the 53 bits of a
-- double is out of reach. The hash and the bounds on lengths count UTF-16 units; elsewhere text is read
-- by code point where JavaScript reads UTF-16 units.
--
-- Not modelled: the checks of zod on wire shapes, but for a request to create a tenant; rendering,
-- styling, data fetching and session handling, the fixtures, and the control plane's own service,
-- which is another program.
-- An authorization model is a map of its own properties: what JavaScript would find on
-- `Object.prototype` is not there.
pub mod Common
pub mod Diff
pub mod Drift
pub mod Dsl
pub mod Reconcile
pub mod Relations
pub mod Resolver
pub mod Spec
pub mod Tenants
pub mod Audit
pub mod Staging
