-- ===== src/Lib.antt =====
-- omkit-python: the library that the services of omurlabs share, for tenants, sessions, settings,
-- quotas, roles, encryption, jobs, events, providers and models.
--
-- The modules of the library are used side by side by a service. `tenant` binds the tenant of a
-- request; `jobqueue/envelope` carries it to a worker; `scheduler` wraps the envelopes that it
-- registers on a cron backend; `settings` and `featureflags` read one table, `settings` with the
-- decryption of `encryption`, which like `kms/localdev` stands on `crypto/aes_gcm`; `eventbus`,
-- `provider/registry` and `settings` poll tables of PostgreSQL.
--
-- What models which file of the package `omkit`:
--   Tenant                omkit/tenant.py: `require`, `bind`, `TenantMiddleware`, `set_rls`,
--                         `hashed_for_log`
--   Sessions.Postgres,
--   Sessions.Redis        omkit/sessions.py: the two stores
--   Settings              omkit/settings.py: `SettingsManager`, its cache, polls, messages and file;
--                         Settings.Live has its tasks and secrets
--   Quota                 omkit/quota.py: limits, usage, decisions, the calendar of `retry_after`
--   Access                omkit/auth/roles.py and omkit/featureflags: roles, flags, `PostgresStore`
--   Crypto                omkit/crypto/aes_gcm.py, omkit/crypto/kuser.py, omkit/encryption.py and
--                         omkit/kms/localdev.py
--   Jobqueue.Envelope     omkit/jobqueue/envelope.py: `wrap` and `unwrap`
--   Jobqueue.Streaq       omkit/jobqueue/streaq.py: `tenant_middleware`, `enqueue`, `make_worker`
--   Openbao               omkit/kms/openbao.py: the token and requests, and the Transit operations
--   Valkey                omkit/valkeystream.py: `StreamProducer` and `StreamConsumer`;
--                         Valkey.Subscriber is omkit/valkeysub.py
--   Notifier              omkit/syncnotifier.py: `SyncNotifier`
--   Sanitize              omkit/sanitize.py: the scanners, and what is built of them
--   Cleanup               omkit/cleanup.py: `Loop`, and its replicas
--   Audit                 omkit/auth/audit.py and omkit/security/events.py
--   Service               omkit/cost.py, omkit/health.py and omkit/dbpool.py
--   Scheduler             omkit/scheduler/scheduler.py: `_reconcile`, what it calls, and the loop;
--                         Scheduler.Source is omkit/scheduler/source.py
--   Eventbus              omkit/eventbus.py: `PostgresEventBus`; Eventbus.Redis is `RedisEventBus`
--   Registry              omkit/provider/registry.py: `ProviderRegistry` and its tasks;
--                         Registry.Watch has its two loops
--   Models                omkit/model_lifecycle.py: `ModelLifecycle` and `ModelRegistry`
--   Resilience            omkit/resilience.py: `CircuitBreaker`, `resilient`
--   Json                  `json.dumps` and `json.loads` of the standard library, and JSON values
--   Prelude               lists, texts, dicts, integers and exceptions, as Python has them
-- Each of these modules has the definitions in its own file and the proofs in its children, named
-- for what they prove; the child Tests has concrete runs.
--
-- How the code is translated. The state of an object is a record, and a method is a function on it
-- that bears the method's name; a table of a database is a list or a dict, and a query a function on
-- it. A call that may raise gives a `Result`, an `Option`, or a Boolean that is false if it raised,
-- beside the state that it leaves. What is awaited is a parameter or an argument, so that other tasks
-- may act meanwhile; where a lock or the absence of an `await` makes a body one step, it is one
-- function. Times are numbers of ticks of a clock, which is an argument. Texts are lists of code
-- points, bytes lists of numbers; `int` is unbounded, as in Python, and is ℤ where it can be
-- negative.
--
-- `json.loads` is modelled in Json.Reader for the texts without floats, and Jobqueue.Envelope.Wire
-- uses it; elsewhere it is a parameter, of which a float may be the value.
--
-- Parameters, that is, code that is not in the repository: `uuid`, pydantic's
-- coercions, tenacity's `retry`, the cron backend and the enqueuer, AES-GCM, HMAC, SHA-256 and
-- base64, PostgreSQL's casts to uuid and jsonb, Redis's SCAN and streams, HTTP, the decoding of
-- UTF-8, the classes of Unicode characters, handlers and callbacks. What is assumed
-- of them are hypotheses of the theorems that need it, or records of laws: `Accounts` and `Answers`
-- for the cron backend, `Attempts` for `retry`, `Logs` for an event handler, `IsAead` for AES-GCM.
-- For the OpenBao server there are `Vault` and `Transit`, for Redis `Counts`, for the lock `Locks`.
-- Row level security is a tenant argument. The substitutions of omkit/sanitize.py take fuel, the
-- length of the text, which is enough as each match shortens it, and so does `json.loads`, whose
-- every step takes a character of its text; every other loop is a recursion
-- on a list. Of the endless loops, those of the scheduler, the registry, the settings, the event
-- buses, the cleanup and the subscriber recur on the list of what their waits bring, so that a
-- theorem about any list is one about any time; the others are given by their rounds, as steps of a
-- relation.
--
-- Not modelled: `_reap_loop` but for its rounds, a task that is cancelled in the middle of a query
-- or a reconciliation, logging and metrics that decide nothing, and the modules that set up
-- third-party libraries or only call them: omkit/httpclient.py, omkit/valkey.py, omkit/tracing.py,
-- omkit/metrics.py, omkit/logging.py and omkit/config.py. Floats do not occur in the JSON that is
-- written.
pub mod Models
pub mod Prelude
pub mod Quota
pub mod Registry
pub mod Resilience
pub mod Json
pub mod Jobqueue
pub mod Scheduler
pub mod Sessions
pub mod Settings
pub mod Tenant
pub mod Notifier
pub mod Access
pub mod Crypto
pub mod Openbao
pub mod Valkey
pub mod Sanitize
pub mod Cleanup
pub mod Audit
pub mod Service
pub mod Eventbus
