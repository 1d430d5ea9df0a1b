-- ===== src/Lib.antt =====
-- Direct Trade Protocol: a verification library for parts of its TypeScript code.
--
-- The protocol lets companies publish signed records (orders, invoices, grants) in a store, and keep
-- shared state such as stock pools by reducers that every participant can run. The store checks a
-- write against the record that it supersedes and answers reads by visibility and grants. The
-- modules here are the checks and reducers themselves, without network, database and cryptography.
--
-- Files, and the code that they model (paths from the repository's root):
--   Prelude: names passed on from the libraries, Boolean tests on numbers, lists, texts as lists of
--     UTF-16 code units, integers, JavaScript objects used as maps, and computations that may throw.
--   Decimal: sdk/src/profiles/decimal.ts. checkScale, parseDecimal, formatDecimal and
--     multiplyRounded are check_scale, parse_decimal, format_decimal and multiply_rounded.
--   Canonical: sdk/src/canonical.ts. serialize and canonicalize on a data type of JSON values, in
--     which an object lists its members in their own order.
--   Inventory: sdk/src/profiles/inventory.ts. The types and the hashed forms; Inventory/Reducer is
--     applyInventoryEvent, cut at its early returns into decide, observed, first_time, act, move,
--     register, base_quantity, settle and shrink.
--   Scopes: sdk/src/scopes.ts, and namespaceOf of sdk/src/envelope.ts.
--   Store/Authz: supabase/functions/dtp-store/authz.ts. canRead, and readPrefilter as the tree of
--     its SQL conditions with what the database answers for a row (holds).
--   Store/Transitions: supabase/functions/dtp-store/transitions.ts. rolesOf, checkRoleContinuity and
--     checkTransition, and check_write, the three calls that writeRecord of
--     handlers/records.ts makes one after the other.
--   Store/Write: supabase/functions/dtp-store/handlers/records.ts. write_checks is writeRecord up to its
--     transaction, with authorizeWrite as authorize_write; Store/Write/Commit is the transaction on the
--     table of records, under the constraints of supabase/migrations/20260903000000_protocol_store.sql;
--     answer_violation is the answer to a violated constraint. Store/Write/Heads lets any number of
--     writes interleave: the checks of each may have read another state than its transaction finds.
--   Store/Keys: syncKeys of handlers/records.ts, on the table of keys.
--   Store/Reads: getRecord and listRecords of handlers/records.ts; the database answers a query with the
--     rows that meet its conditions, in order, cut at its limit.
--   Store/Integrity: supabase/functions/dtp-store/integrity.ts. checkIntegrity, cut into check_invoice
--     and check_fulfillment and their parts.
--   Authority: sdk/src/v04/permissions.ts, the types of sdk/src/v04/model.ts that it reads, and
--     instant of sdk/src/v04/wire.ts. activeMember, revokedAt, grantCurrent and dataAllowed;
--     Authority/Charter is checkPolicy, with uuid of wire.ts.
--   Sequence: nextRecordSeq and takeRecordSeq of sdk/src/v04/model.ts, their use by the case
--     record.append of sdk/src/v04/engine.ts, and what the case organization.create and applySnapshot of
--     sdk/src/v04/snapshot.ts change of the companies, the records and the counters.
--   Forecast: checkForecastContinuity and, in Forecast/Validate, validateForecast of
--     sdk/src/profiles/forecast.ts.
--   Profiles: the validators of sdk/src/profiles. Issues collects what `fail` pushes; Shapes, Dates,
--     Units, CheckDigit, Identifiers and Stringify are the tests that the files repeat; Act, Object,
--     Order, Party and Product are act.ts, object.ts, order.ts, party.ts and product.ts, each with its
--     continuity check in a module of its own or in the same one. Invoice is the amounts of invoice.ts, and
--     Invoice/Report its dates, its references and the report; resolveReference is a parameter.
--   SafeJson: assertSafeJsonText of sdk/src/safe-json.ts. Base58: sdk/src/base58.ts.
-- The modules below a component hold its lemmas; the modules named Tests hold runs at fixed inputs.
-- The reducer uses Decimal for amounts and Canonical for what it hashes; Transitions compares the
-- canonical texts of fields; Authz asks Scopes what a grant covers.
--
-- Values have their declared types, and a member that no type declares is kept beside a value where
-- the code looks for it; a validator takes any JSON value without fractional numbers. The text of an
-- error is left out and its kind is kept, but the issues of the profiles keep path and message, and
-- those of an invoice code, path and severity. The digest of a text and
-- JavaScript's Date are parameters of which nothing is assumed. Numbers are unbounded where the code
-- has bigints, and bounded by 2 ^ 53 - 1 where the code tests for safe integers. The digits of a
-- number n are computed on n + 1 units of fuel; a number has at most that many digits. The digits
-- to the base 58 of n bytes are computed on 2 * n units, since 256 is less than 58 ^ 2, and the bytes
-- of n such digits on n units.
-- Not modelled: the network, database, keys and signatures, the rest of sdk/src/v03 and
-- sdk/src/v04, flow.ts and inventory2.ts of the profiles, the foundation, the MCP servers, and the Rust contracts.
pub mod Prelude
pub mod Decimal
pub mod Canonical
pub mod Inventory
pub mod Scopes
pub mod Store
pub mod Authority
pub mod Sequence
pub mod Forecast
pub mod Profiles
pub mod SafeJson
pub mod Base58
