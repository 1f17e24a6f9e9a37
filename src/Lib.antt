-- ===== src/Lib.antt =====
-- The event recommender answers a request for events in Istanbul. A parser reads the request
-- into a plan, a tree of conditions; a reducer keeps the plan from turn to turn; the search checks
-- each event's evidence against the plan; a store keeps source pages, leases and counters as
-- documents that are changed in transactions. A collector reads the providers' listings, joins those
-- of one session, and a catalog of the sessions is built for the search.
--
-- The file Plan.antt (web/parser/contract.ts) is the data that these parts share: atoms, conditions,
-- plans and the operations of a turn. Enumerations and tagged unions are data types, so that the tests of
-- the source on a value's tag, which only a value outside its type fails, have no counterpart. An
-- optional field is an Option.
-- - Plan/Validate is `validatePlan` of web/parser/state.ts. The set of ids and the count of nodes
--   that its visitor mutates are the record Seen, which is passed along.
-- - Plan/Stable is `stable` of web/parser/semantics.ts, on conditions.
-- - Plan/Reduce is `applyOperations` of web/parser/state.ts. The two lists, the order and the two
--   counters that its loop mutates are the record Work; `structuredClone` has no counterpart, since
--   values are immutable.
-- - Plan/Evaluate is web/lib/plan-evidence.ts: `evaluate`, `planPartyCount` and, below Atoms,
--   `atomResult`, `childAudience`, `ageResult` and `evaluatePlan`. What it calls in other files is
--   the record Checks of Plan/Evaluate/Event: the checks of predicates and ages in the source text,
--   the districts and sides, the days and clocks of Istanbul, the searches for words.
-- - Plan/Search is `validateSearchPlan` of web/lib/plan-evidence.ts.
-- - Plan/Query is web/lib/plan-query.ts, a plan in words.
--
-- Store (web/lib/store.gcp.ts) keeps a document per path. Documents of one kind are a function from
-- paths to optional values, so that the prefix of a path, which tells the kinds apart, is left out.
-- A transaction is one step; the storage's promise that transactions do not overlap is thereby part
-- of the model. What runs between two transactions is explicit: a list of calls in any order, or,
-- between the two reads of an import, a function of the documents (Import.during). The digest of a
-- key is a parameter and need not be injective. Times are milliseconds.
-- - Store/Leases is `acquireLease`, `releaseLease`, `liveLease` and `requireLeaseKind`.
-- - Store/Limits is `consumeLimit`.
-- - Store/Status is `statusFor`; toISOString and Date.parse are parameters.
-- - Store/Attempt is `publicationAttempt`, from an untyped value (Prelude/Value) to the object that
--   it rebuilds; what it takes for a timestamp is a parameter.
-- - Store/Readiness is `checkpointReadiness` of web/lib/operations.ts; the summary of a checkpoint is
--   an object of untyped values (Prelude/Value).
-- - Store/Sources is `importPages`, with `sourcePageTimes` of web/lib/source-page.ts.
-- RateLimit (web/lib/rate-limit.ts) is the buckets of a request and their consumption by any
-- stateful consumer, which in the program is `consumeLimit`.
--
-- Identity (collector/identity/resolve.ts) joins the listings of different providers into sessions.
-- - Identity/Sets is `DisjointSet`; its arrays are functions of an index. Its two loops are on a
--   fuel of the index itself, which is enough since a parent lies below its child.
-- - Identity/Listing is the listings and the tests on titles. The record Rules is what resolution
--   takes from other modules: the normalisers, reviewed seeds and policies, which are regular
--   expressions and word lists, Date.parse, localeCompare and the hash.
-- - Identity/Assess is `assessIdentityPair` with its conflicts, and `aggregatePolicyTag`.
-- - Identity/Pairs and Identity/Sessions are `resolveSessions` up to the sorted accepted pairs, and
--   from there on. Decisions are shared by an array and a map and are changed in place: one list,
--   the newest first, stands for both.
-- - Identity/Resolve is `resolveIdentity`, with `resolveVenues` as a parameter.
--
-- Catalog (web/lib/materialized-catalog.ts) is what requests are served from.
-- - Catalog/Eligible is `isEligible` of web/lib/search.ts; days, clocks, patterns and districts are
--   the record Readings. Times are counted from JavaScript's lowest time value.
-- - Catalog/Offers and Catalog/Project are the event that stands for a session, with its offers.
-- - Catalog/Build is `buildSearchCatalog` and `searchCatalogCandidates`. The sessions of
--   identity resolution and its families are parameters (the record Resolution), as are the checks
--   of a source's text and JSON.stringify.
--
-- RequestBody (web/lib/request-body.ts) is the bounded reader of a request's body, on the list of
-- the chunks that its stream gives and how they end.
--
-- A text is the list of its UTF-16 code units (Prelude/Text), since JavaScript measures and compares
-- those. A number is NaN, an infinity or a multiple of 10^-6 (Prelude/Number): the program's prices,
-- counts and probabilities have at most six decimals, and binary rounding is left out. The numbers
-- in the ids of conditions, which a client may choose as it likes, and the two counters above them
-- are rounded as JavaScript rounds integers beyond 2^53 (Prelude/Double); other counts are exact.
-- `Result` is a value or the message of the error that is thrown. Prelude/Js holds the built-ins that
-- are parameters, and so does Conversions in Prelude/Value for Number of a text. All recursion is
-- structural but for the loops of `DisjointSet` above and for `decimal` in Prelude/Decimal, which
-- divides by ten on a fuel of the number itself, more than it has digits, and for the search of the
-- unit in Prelude/Double, whose 1024 doublings reach beyond the largest finite number.
--
-- Not modelled: the steps that publish checkpoints and search catalogs, the snapshots of vectors and
-- labels, the parser of natural language, retrieval and ranking by scores, the clients of other
-- services, SQL, the routes and pages of the web application, the venues of identity resolution, and
-- the rest of the collector.
--
-- The files Tests and EventTests of a part apply its theorems to concrete inputs.
pub mod Prelude
pub mod Plan
pub mod Store
pub mod RateLimit
pub mod Identity
pub mod Catalog
pub mod RequestBody
