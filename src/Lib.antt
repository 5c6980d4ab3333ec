-- ===== src/Lib.antt =====
-- The core of the AllureDeck API server, modelled from the Go sources under api/internal.
--
-- The server keeps login sessions, throttles logins, stores test reports by project, and explains
-- failing builds to people and to MCP clients. A login request first passes the account throttle, or
-- it comes back from an identity provider; a login that succeeds opens a family of refresh tokens,
-- which the Refresh and Logout handlers carry on and end. The middleware checks each request's access
-- token against the blacklist, or its API key against the keys table, and the user through the cache
-- of active users, which the handlers that change users purge. The diagnose_failure tool runs the
-- triage on each failing test, groups the tests by the shape of their failure, judges each group by
-- the signals, and rolls the judgements up into one for the build. An MCP tool that writes first has
-- the user confirm, by a signed state that the client brings back, and what it may only propose an
-- admin approves or rejects. An uploaded archive is checked before its files are written into a
-- directory, and the results of two builds are compared to show what has regressed since a test last
-- passed.
--
-- Files and the code they are about:
--   Prelude       shared names: Boolean tests on native numbers, lists, Go maps as association lists,
--                 ASCII text with the functions of `strings` that the code calls, `strconv.ParseInt`.
--   Throttle      api/internal/middleware/account_throttle.go. `Throttler` is AccountThrottler, its
--                 methods take the time and return the throttler; Check, RecordFailure,
--                 RecordSuccess, Cleanup and backoffFor are check, record_failure, record_success,
--                 cleanup and backoff_for. Throttle/Backoff, Lockout, History, Sweep and Isolation
--                 hold the proofs.
--   Session       api/internal/store/types.go: the rows. Session/Families is
--                 api/internal/store/pg/refresh_token_families.go, one function per SQL statement;
--                 Session/Tokens is api/internal/store/pg/blacklist.go, ValidateToken of
--                 api/internal/security/jwt.go and blacklistAccessToken of
--                 api/internal/handlers/audit.go; Session/Refresh is Refresh, Logout and
--                 familyUserInactive of api/internal/handlers/auth.go. The proofs are in
--                 Session/Grants, Reuse, Touch, Ended and Users.
--   Triage        api/internal/triage/triage.go: Analyze is analyze, each compute function is the
--                 one of that name, the last ones in Triage/Analyze. The proofs are in
--                 Triage/Status, Hint and History.
--   Diagnose      api/internal/mcp/tools/diagnose_cluster.go and diagnose_verdict.go, with the key of
--                 api/internal/runner/cluster.go and Diagnose/Normalize for NormalizeMessage of
--                 api/internal/runner/fingerprint.go. Diagnose/Rules and Judge have the rules
--                 that judge a cluster, Diagnose/Build the roll-up, Diagnose/Cluster the grouping and the end of the
--                 diagnose_failure handler. The proofs are in Diagnose/Basis, Support, Rollup,
--                 Partition, Exact, Members and Whole.
--   Access        api/internal/middleware/auth.go: AuthMiddleware, RequireRole and extractToken are
--                 authenticate, require_role and extract_token; guarded is a route behind a role, as
--                 registerRoutes of api/cmd/api/main.go wraps it. The project scope of an API key is
--                 apiKeyProjectAllowed of api/internal/handlers/project_id.go. The proofs are in
--                 Access/Vouched, Sound and Scope.
--   Users         api/internal/store/pg/user.go under the indexes of store/pg/migrations/0019_users.sql,
--                 0037_users_local_auth.sql and 0039_user_email_unique.sql, one function per SQL
--                 statement, those that read in Users/Rows; Users/Keys is
--                 api/internal/store/pg/api_key.go; Users/Admin, Edit, Passwords and Email are the
--                 handlers of api/internal/handlers/users.go. The proofs are in Users/Register,
--                 Unique, Addresses, Shut, Gone, Deactivated and Sessions.
--   Oidc          api/internal/handlers/oidc.go: Callback and handleEmailCollision are callback and
--                 handle_email_collision, the first in Oidc/Callback; Exchange and
--                 extractClaimsFromMap of api/internal/security/oidc.go are exchange and
--                 extract_claims; the state cookie is
--                 api/internal/security/oidc_state.go. The proofs are in Oidc/Held and Linked.
--   Signed        api/internal/mcp/signed/signed.go: Sign, Verify, Seal and Open are sign, verify, seal
--                 and open_token. The proofs are in Signed/Round and Authentic.
--   Confirm       api/internal/mcp/tools/confirm.go: evaluateWriteGate is evaluate_write_gate, its retry
--                 leg is retry. The proofs are in Confirm/Gate.
--   Login         Login of api/internal/handlers/auth.go: login, whose check of the password is verify and
--                 whose new session is open_session. The proofs are in Login/Granted, Locked and
--                 Opened.
--   Upload        api/internal/runner/tar_extract.go: readAndValidateTarGz and secureBaseName are
--                 read_and_validate and secure_base_name, and ExtractTarGzToDir is
--                 extract_tar_gz_to_dir of Upload/Extract. Upload/Paths is Go's filepath on a system
--                 with slashes. The proofs are in Upload/Names, Checks, Limits, Accepts, Flat, Written and
--                 Completes.
--   Compare       api/internal/store/pg/compare.go: CompareBuildsByHistoryID on the rows of its query, with
--                 collapseByFullName as collapse_by_full_name; and api/internal/failure/lastgood.go:
--                 BuildLastGoodDiff is build_last_good_diff. The proofs are in Compare/Collapse,
--                 LastGood and Sample.
--   Proposals     the tables of store/pg/migrations/0041_mcp_audit_and_proposals.sql. Proposals/Review
--                 and Handlers are api/internal/handlers/proposals.go: ApproveProposal and
--                 RejectProposal are approve_proposal and reject_proposal, whose transactions are
--                 approval and rejection; Steps lets them interleave. Propose is
--                 execProposeClassifyDefect of api/internal/mcp/tools/mutating.go, as
--                 propose_classify_defect. Pages is ListPending of
--                 api/internal/store/pg/defect_proposal.go. The proofs are in Proposals/Effects, Atomic,
--                 Kinds, Refused, Attributed, Interleaved, Race, Proposed, Once, Ordered, Cuts and
--                 Walk.
--   Projects      api/internal/store/pg/project.go, under the indexes, the foreign key and the trigger of
--                 store/pg/migrations/0031_surrogate_pk.sql, and api/internal/handlers/project_parent.go:
--                 handle_set_parent and handle_clear_parent are SetParent and ClearParent. The proofs
--                 are in Projects/Rows, Levels, Requests and Creation.
--   ActiveCache   api/internal/middleware/user_active_cache.go: lookup, load, storeEntry, cached and
--                 Invalidate are lookup_active, load, store_entry, cached and invalidate. The proofs
--                 are in ActiveCache/Requests, Fresh and Bounded.
--   Roles         api/internal/security/role_mapping.go: ResolveRole is resolve_role. The proof is in
--                 Roles/Privilege.
--   The Examples module of each part has the runs at concrete inputs.
--
-- How it is modelled. State is passed explicitly: a method takes the store and returns it. A table
-- or a map is an association list on its key, in which no key stands twice. Requests are handled
-- one after the other, except for the reviews of proposals, whose steps interleave, each SQL
-- statement is one step, and a statement that the database fails is an argument of the step. Times
-- are natural numbers of one clock: nanoseconds for the throttle, the cache and the requests,
-- seconds for the sessions and the users. Text is a list of code points; lower-casing and trimming
-- act on ASCII. Numbers are unbounded: the code's counts and times stay far below 2^63, and the
-- one place that could overflow, the shift of the backoff, is capped at 30 by the code. Loops are
-- structural recursion on the list they range over; only the client that follows the cursors of
-- the proposals has fuel, its number of requests, and one more than there are pending proposals is
-- shown to be enough.
--
-- Parameters stand for code outside the repository: the JWT library that parses and verifies a token
-- (Session, `parse`), the user table as it answers in one request of the session code (`UserStore`,
-- which Users fills with its table), bcrypt (`matches`), the hash of an API key (`hash`), Go's regular
-- expressions (Triage, `find_statuses` and `find_endpoint`; Diagnose, `Replacements` and the rules of
-- known issues), SHA-256 (`digest`), the identity provider (Oidc, `id_token`), HMAC, base64url and
-- JSON (Signed, `Codec`), and the tar reader, whose deliveries are the input of Upload, which also
-- takes the answers of the file system and the sort of names.
--
-- Not modelled: HTTP, JSON and cookie encoding, logging, and the audit rows of the parts other than
-- Proposals; report parsing, the storage of reports, the job runner, the other MCP tools and handlers,
-- configuration, and the read-only SQL queries; the web UI, charts and scripts.
pub mod Prelude
pub mod Throttle
pub mod Session
pub mod Triage
pub mod Diagnose
pub mod Projects
pub mod ActiveCache
pub mod Roles
pub mod Access
pub mod Users
pub mod Login
pub mod Signed
pub mod Confirm
pub mod Oidc
pub mod Upload
pub mod Compare
pub mod Proposals
