-- ===== src/Lib.antt =====
-- POI Hub, the service in backend/poi_admin: it keeps mirrors of products, vouchers, stores and POIs,
-- and changes their originals on a remote platform through a durable queue of operations.
--
-- The parts and how they work together. A call of a service (products, orders, vouchers, accounts) checks
-- the mirror, writes what is wanted, and queues an operation under an idempotency key. A worker claims
-- operations under a lease, runs the handler of the command, which calls a gateway and settles the mirror, and
-- reports success or failure; a failure that may be retried waits for a growing delay. Callbacks of the
-- platform go to an inbox, which a worker claims and processes in the same way. Stores are edited under
-- a version and mapped to POIs, which are mirrored from the platform and matched with the stores. A
-- connection of a tenant says which platform account its gateway stands for, and with which tokens. The
-- session, the tenant and the role of a request, and a license, decide what reaches all that.
--
-- Where each part is.
--   Operations: backend/poi_admin/operations/service.py and models.py. Model has the row, Errors
--     classify_error and backoff_seconds, Enqueue OperationService.enqueue, Lease claim and
--     renew_lease, Outcome mark_succeeded and mark_failed, Retry manual_retry and manual_retry_many.
--     Steps is every history of these calls, by any number of sessions. Worker is run_once of
--     backend/poi_admin/operations/worker.py, whose handlers may answer, raise, or leave the session
--     broken by a failed statement.
--   Webhooks: backend/poi_admin/webhooks/service.py (Inbox), handlers.py (Process), crypto.py
--     (Crypto), and _claim_webhook, _mark_webhook_failed and the heartbeat of operations/worker.py
--     (Worker).
--   LocalLife.Products: backend/poi_admin/local_life/products.py, the service (Creation, Service,
--     Stock) and the handlers (Creation.Remote, Handlers, Stock), with the rows of models.py (Model)
--     and the tables of statuses (Status).
--   LocalLife.Vouchers: backend/poi_admin/local_life/vouchers.py, in the same way (Service, Handlers),
--     and the mirror of a remote voucher (Remote).
--   LocalLife.Orders: backend/poi_admin/local_life/orders.py, the calls that queue a synchronisation
--     (Service) and the handlers (Handlers), with the rows and the masking (Model, Summaries).
--   Stores: backend/poi_admin/stores/service.py, new stores (Creation), edits (Editing), mappings
--     (Mappings), suggested mappings (Candidates) and the mirror of POIs (Pois), and the handlers of
--     stores/operations.py (Operations).
--   LocalLife.Accounting: reconciliation_summary of backend/poi_admin/local_life/accounting.py, the
--     loops over pages of its handler sync (Pages), and the rest of the handler (Sync).
--   Identity: backend/poi_admin/identity/service.py, with normalize_email of schemas.py and
--     hash_password of core/security.py.
--   Core: backend/poi_admin/core/permissions.py (Permissions), core/licensing.py (Licensing) and
--     core/dependencies.py (Dependencies).
--   Connections: backend/poi_admin/connections/service.py (Service) and tokens.py (Tokens),
--     redact_secrets of crypto.py (Crypto), and the errors of ports.py (Ports).
--   Base: the tests, lists as tables, results, texts, integers and JSON values that these share.
--
-- How the code is modelled. A table is the list of its rows in order of insertion, a call a function
-- from the tables to a result and the tables; a call that raises before it commits leaves no tables,
-- but for the handlers whose writes the report of their failure commits, which have both. A
-- conditional update changes the rows that fit its condition. These calls have the table that they
-- have read (`seen`) apart from the one that they write (`table`), and between the two other sessions
-- may have committed anything: enqueue, claim and the manual retries of the queue, the claim and the
-- ingestion of the inbox, new mappings, edits of a store, and the creation of a connection; a written
-- object is flushed by its id, with the attributes that differ from what was read where that matters
-- (Retry, Webhooks.Worker). All other calls, those on products, vouchers, orders, accounts and users
-- among them, read and write one table: other sessions commit before or after such a call, not within
-- it. A time is a number of microseconds, the time and the new ids of a call are its arguments, and
-- so is the jitter of a delay. JSON numbers are integers. Columns that the code only copies stand
-- together in one dictionary (the details of a product, the columns of a store). All functions are
-- total by recursion on lists and JSON values, but for the loop over pages, whose fuel is the code's
-- own range(1000).
--
-- Parameters: the SHA-256 and SHA-1 digests, the encryption of payloads and secrets and their
-- decryption, AES, base64 and UTF-8, the client of a gateway with its answers, the answers of the
-- token service, the scores of a match, Argon2, the pattern of an email address, its `str.casefold`,
-- Python's `str` and `int` of a JSON value, and the parsing of dates. No property relies on the
-- digests having no collisions.
--
-- Not modelled: routers and the checks of the schemas, configuration, database set-up and seeds, the
-- clients of the platform and their stand-ins, audit rows, the frontend; the shutdown of a worker in
-- the middle of a handler; the matching scores, which are floating point; and, so far, the creation
-- of tenants. The `str.casefold` of a key is exact as far as a comparison with ASCII texts can tell,
-- a digit of a phone number is an ASCII digit, and the scores and the coordinates that a mirror
-- copies are integers.
pub mod Base
pub mod Connections
pub mod Core
pub mod Operations
pub mod Identity
pub mod LocalLife
pub mod Stores
pub mod Webhooks
