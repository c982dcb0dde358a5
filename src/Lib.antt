-- ===== src/Lib.antt =====
-- Verification of the control plane of Xisnove, a monitor of services from several locations.
--
-- The control plane keeps monitors, each assigned to a location with agents. The scheduler creates a
-- check run for every monitor that is due; an agent of the location leases the run, probes, and uploads
-- a result; the result changes the health of the location, the health of the monitor is rolled up from
-- its required locations, and incidents are opened, changed and recovered with it. The staleness service
-- does the same for locations that stay silent.
--
-- The files follow the program's parts:
--   Domain/Health        internal/domain/health.go: ApplyProbe, RollupRequired
--   Domain/Incident      internal/domain/incident.go: DecideIncident
--   Domain/Agent         internal/domain/agent.go and location.go: NewAgent, NewLocation
--   Domain/Monitor       internal/domain/monitor.go: the constructors of the three kinds of monitors
--   Application/Records, Application/Store   internal/application/store.go: records and repositories
--   Application/Environment   the clock, identifiers and tokens that the services ask for
--   Application/Projection    internal/application/projection.go
--   Application/Results       internal/application/results.go
--   Application/Schedule, Application/Scheduler   scheduler.go and staleness.go of that directory
--   Application/Leasing, Configuration, Agents, Auth   the files of those names in that directory
--   Services             the services on that store: failed requests, repeated uploads, enrolment
--                        tokens, the first administrator, and the projection over the tables
--   Sqlite               internal/adapters/sqlitecompat/store.go over the statements of
--                        db/generated/sqlite: Tables are lists of rows, a query reads them and returns
--                        new ones; Assembly fills the interfaces of Application/Store;
--                        Monitors/Reload joins the rows to the constructors of monitors
--   Agent/Controlplane   agent/internal/controlplane: the types of the requests and responses of an agent
--   Agent/Worker         agent/worker/worker.go; Run has RunOnce
--   Agent/Probe          agent/probe: Policy (policy.go), Tcp, Dns, Http, Dispatcher and Diagnostic;
--                        Steps are the early returns that the three executors share
--   HttpApi              internal/adapters/httpapi: Problems (problems.go), Results, Work, Health,
--                        Configuration and Probes (configuration.go), Accounts (agents.go, auth.go);
--                        Accepted and Cleared join it to the agent
--   Result, Action       errors, and services as functions of the database and the environment
--   Prelude              numbers, texts and lists
--   Tests                the theorems at concrete inputs
--
-- Conventions. A service is an `Action`: it takes the database and the number of questions that were put
-- to the environment, and gives a result or an error with the database after it. The environment's n-th
-- answer is a function of n, so every clock, identifier and token is covered. The services are generic in
-- the database; they reach it by the repositories of `Application/Store`. WithinTx rolls the database
-- back when its body or the commit fails. Errors are told apart as errors.Is does; the texts around them
-- are left out. time.Time and time.Duration are integers of nanoseconds, the zero time is 0, and the
-- wrap-around of int64, the saturation of Time.Sub and the uint16 counters are written out. An enumeration
-- that is a string type in the code has a constructor for every other string. The polling loop of
-- LeaseProbe runs over a list of waits to come and returns nothing where the list ends before the loop.
--
-- The agent. RunOnce is an `Action` over its channel, a list of results; one goroutine sends and receives.
-- The client, the executor and the contexts answer the n-th question. The loop that leases has fuel for
-- 101 rounds, one more than the channel has room for; the loop that uploads ends when a context is done or
-- a server answers, and its fuel is the number of rounds that this takes. An executor is a chain of
-- `Steps` on the result that it fills in, each of which goes on or stops at an early return. Reading from a
-- connection has fuel for 4097 reads, one more than the payload has bytes.
--
-- Parameters. url.ParseRequestURI, strings.ToUpper and ToLower, mail.ParseAddress, the password hash, the
-- token hash, uuid.Parse, and of SQLite the function julianday and the order of texts that hold times. Of
-- the agent: the generated client and its unions, netip.ParseAddr, url.Parse, the resolver, dialing, crypto/tls,
-- net/http's client, miekg/dns, strings.ToLower and the text of bytes. The classes of netip addresses are
-- functions of their bits.
--
-- Not modelled. Contexts other than where a loop waits for them, HTTP and JSON as text, drivers and
-- connections, TLS configurations, the older format of probes that decodeProbe reads too, the PostgreSQL
-- store, the middleware of the HTTP server and the user interface.
pub mod Prelude
pub mod Result
pub mod Action
pub mod Agent
pub mod Domain
pub mod HttpApi
pub mod Application
pub mod Sqlite
pub mod Services
pub mod Tests
