-- ===== src/Lib.antt =====
-- The gateway of this repository receives and sends NAESB Internet ET packages: PGP-encrypted files
-- in multipart/form-data requests, each answered by a signed receipt. This library models the
-- application under app/ and proves what makes its parts correct.
--
-- A request runs through app/inbound/routes.py: it is authenticated (app/inbound/auth.py), parsed
-- (app/envelope/multipart_codec.py with fields.py, pgp_mime.py and mime_split.py), looked up and
-- inserted in the table messages (app/tracking/repository.py), decrypted
-- (app/crypto/gpg_wrapper.py), held against the policy (app/crypto/policy.py), handed to the sinks
-- (app/sinks/dispatcher.py) and answered by a receipt (app/envelope/receipt.py). To send, a caller
-- posts to app/api/send.py, which stores a job in the table outbound_jobs; the process of
-- app/worker.py claims due jobs, makes one attempt for each (app/outbound/client.py), and writes
-- what became of it into both tables.
--
-- Which file models which part, each with its child modules of lemmas and theorems:
--   Base        lists, texts as lists of code points, UTF-8, dictionaries, results
--   ErrorCodes  app/envelope/error_codes.py; NaesbErrorCode and GatewayExtensionCode as ErrorCode
--   Mime        app/envelope/mime_split.py: content_type_param, split_mime_parts
--   PgpMime     app/envelope/pgp_mime.py: wrap_pgp_encrypted, unwrap_pgp_encrypted
--   Receipt     app/envelope/receipt.py: NaesbReceipt with its methods, build_signed_mime,
--               parse_signed_mime
--   Duns        app/duns.py
--   Fields      app/envelope/fields.py: EnvelopeFields with its validators
--   Multipart   app/envelope/multipart_codec.py
--   Crypto      app/crypto/policy.py (Crypto/Policy), app/crypto/gpg_wrapper.py (Crypto/Gpg) and
--               app/crypto/keyring.py (Crypto/Keyring)
--   Settings    app/settings.py: the sections, load_settings (Settings/Load), DatabaseConfig.url
--               (Settings/Database)
--   Partners    app/partners.py: the registry, load_partners (Partners/Load)
--   Auth        app/inbound/auth.py
--   Sinks       app/sinks/dispatcher.py, app/sinks/base.py, app/message.py; the three sinks in
--               Sinks/Backends
--   Tracking    app/tracking/models.py and app/tracking/repository.py: MessageTracker, and
--               OutboundJobRepository (Tracking/Jobs); app/tracking/db.py (Tracking/Migrations)
--   Exceptions, Effects
--               the exceptions, and handlers as functions from a state to a result and a state
--   Gateway     what is outside the repository, the world of the inbound route, _signed_receipt
--   Inbound     app/inbound/routes.py: the closure and the steps of receive; the whole handler is
--               receive of Inbound/Receive
--   Outbound, Worker, Send
--               app/outbound/client.py, app/worker.py, app/api/send.py; Worker/Fleet is the system of
--               many workers and senders on one table of jobs, as a relation of steps
--   Internal    app/api/partners.py and app/api/health.py: require_internal_auth, list_partners
--   Exchange    two gateways, one of which reads the receipt that the other signed
--   Wiring      app/main.py: _build_sinks, and lifespan as start; run_worker of app/worker.py
--               (Wiring/Run)
--   Tests       a gateway with concrete libraries, and runs on it
--
-- State. A table is a list of rows with the supply of its ids; each SQL statement is one function on
-- the table, hence atomic. A handler is a function from its state to a result and the next state, so
-- that what was written before an exception stays written. Between the route's look for a duplicate
-- and its insert the table may change: the parameter others is what other requests and workers did
-- meanwhile.
--
-- Outside. Python's Unicode tables, python-gnupg, hashlib, secrets, base64, strftime, pydantic's
-- and Starlette's texts, httpx, and the disk and the object store behind the sinks are
-- parameters; of Python's tables the proofs use how isdigit and lower act on ASCII, and of a
-- random token that it is hexadecimal. Times are seconds, and ids natural numbers in place of
-- UUIDs. The keyring and the database's schema are types with the calls on them as parameters.
-- Loops are over lists. The worker's loop runs on fuel, one unit for each test of its condition:
-- with a number of iterations one more than are left is enough. decimal of Base/Strings runs on
-- the number itself and one, which has at least as many units as the number has digits. A text
-- that holds a lone surrogate cannot be encoded: a receipt or a form body of such texts raises
-- in place of its bytes (encoded_report, multipart_body). The migrations' files are savepoints
-- of one transaction.
--
-- Not modelled: logging, YAML, the construction of clients and of the connection pool, the script of a
-- sample request, and a database that fails.
pub mod Base
pub mod Mime
pub mod ErrorCodes
pub mod PgpMime
pub mod Receipt
pub mod Tracking
pub mod Exceptions
pub mod Duns
pub mod Crypto
pub mod Fields
pub mod Multipart
pub mod Settings
pub mod Partners
pub mod Auth
pub mod Sinks
pub mod Effects
pub mod Gateway
pub mod Inbound
pub mod Outbound
pub mod Worker
pub mod Send
pub mod Internal
pub mod Exchange
pub mod Wiring
pub mod Tests
