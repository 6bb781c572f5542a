-- ===== src/Lib.antt =====
-- The entitlement and check authority of TrustCheckRadar's AWS Lambda functions, the leases of its
-- analysis requests, the observation of redirects by its URL resolver and the assessment of what
-- it observed, the daily operations report, and the review of campaigns.
--
-- A customer's check is prepared, admitted and settled against rows of DynamoDB tables. An access
-- row says which source of access is in force (src/shared_check_authority/entitlements.py writes
-- it), a period row counts the checks of a funded period, and a global row keyed by the purchase
-- counts the same checks for every account that shares the purchase
-- (src/shared_check_authority/purchase_usage.py). The authority
-- (src/shared_check_authority/core.py) reads these rows, decides, and proposes one transaction of
-- conditional writes.
--
-- Base, Python and Dynamo are the ground: outcomes that are a value or an error, the values and
-- dicts of Python with its notion of equality (a bool is an int, an integral Decimal equals its
-- int), texts with the patterns that the code matches, and the conditional writes with their
-- effect on one row. `written` of Dynamo is the documented effect of an accepted write, and
-- Dynamo.Puts says what a table holds after the puts of a transaction and when a transaction is
-- canceled; the transaction itself, the reads and the clock are parameters.
--
-- Authority.Session models `Authority` itself: Settings its settings, Store the rows that it reads
-- and the conditions of its transactions, Token its proofs, Prepare `prepare` and
-- `_close_unadmitted`, Admit `admit` and Settle `_settle`. A transaction is one call of a
-- parameter that says whether it returned and what later reads see, so that a lost answer and the
-- writes of others are both possible; the tables are passed along. The account of a verified JWT,
-- `_payload`, the digests, the random execution token and the validated result summary are
-- parameters.
--
-- Authority.Policy holds the constants and error codes, Authority.Usage purchase_usage.py,
-- Authority.Grant `_grant` of core.py, and Authority.Access entitlements.py: Sources
-- `_validate_sources`, Effective `_effective`, Writer `_read` and `trial_history`, Mutation
-- `_commit` and `activate_trial`. Usage.Pending and Usage.Open check a receipt that is still open,
-- as operations_compat.py and purchase_usage.py do, Usage.Closing closes them with their purchase,
-- in at most eight pages of the query as the code reads them, and Usage.Closures, Usage.Pages and
-- Usage.Gathered hold the proofs. A row is a dict as the table returns it; a function that only
-- checks a row returns the numbers that it checked, so that its callers cannot use others.
-- `AuthorityError` is the error of an outcome. Seconds and counters are natural numbers once the
-- code has tested that they are not negative, and integers before.
--
-- Resolver models the loop of src/url_redirect_resolver/resolver.py, which follows the redirects
-- of a submitted URL: Loop has one turn of the loop and each way out of it, Bounds and Distinct
-- its invariants. Its fuel is six turns, one more than the redirects that are followed. What it
-- calls, `parse_target`, `public_address`, `join_location`, the deadline and the transport, is a
-- parameter; `join_location` may raise ValueError, which the loop does not catch.
--
-- Analysis models src/conversation_analysis/abuse_controls.py, where a worker holds the record of
-- an analysis request by a lease: Leases has the writes of the record and `check_or_lock_request`,
-- LeaseFacts what a takeover and a stored result mean for the others, and Rates the giving up of a
-- request and the limit of a window. `holds` of Dynamo says when a condition of a write is met.
--
-- Assessment models src/url_assessment/assessment_service.py, which gives a verdict from the
-- evidence of the providers and from the resolver's answer: Evidence
-- (src/shared_lookup_freshness/__init__.py) has the evidence of a lookup and how long it is valid,
-- Request the checks of a request and `validate_resolution`, and Assess `assess`. Sound, Verdicts,
-- Stops, Hops, Chains and Resolution hold the proofs; Resolution composes the resolver with the
-- assessment. The split of a URL, the reading of a time and the clocks are parameters.
--
-- Operations models src/operations_reporting/reducer.py and scope.py, which turn captured facts
-- into a daily report: Facts has the events, Gather the two passes over the facts, Checks,
-- Attempts and Rejections the report's sections, Scope the selection of a day, Report the whole
-- report. Balance, Conserved, Replay, Counted, Priced and Selected hold the proofs. The bounds of
-- a day in a time zone are a parameter; the facts are data types of what the JSON schemas admit.
--
-- Review models src/campaign_review/service.py: Reviewer reads an identity, Decide has `review`
-- and its transaction, Decided what a decision writes and excludes, States the states that a
-- campaign passes through and Publishing the way to a publication. The tables' reads, the audit's
-- identifier, the shard and the patterns of personal data are parameters.
--
-- Other loops run over finite lists and dicts by recursion on them; the other recursions on fuel
-- print the digits of a number, which has no more digits than its value.
--
-- Not modelled: hashing and signatures beyond their use, JSON, the settings that enable governed
-- history and the operations producer (a settlement keeps the metadata that an earlier producer left
-- on its receipt), HTTP, logging, and the functions around the authority that
-- forward requests to it.
pub mod Base
pub mod Python
pub mod Dynamo
pub mod Authority
pub mod Resolver
pub mod Analysis
pub mod Operations
pub mod Assessment
pub mod Review
