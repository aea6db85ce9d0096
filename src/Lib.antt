-- ===== src/Lib.antt =====
-- A model of the agency for Aries agents: src/**.ts of the repository, in its language's terms.
--
-- The parts and how they interact. An HTTP request reaches an endpoint, which calls one of the
-- services; the services share one cache, keyed by the id of an agent or the name of a wallet.
--   Manager       src/manager/agent.manager.service.ts: spinUpAgent, connectAgent, spinDownAgent and
--                 what they call, with the endpoints of agent.manager.controller.ts. It asks a
--                 manager of agents (AgentManager, src/manager/agent.manager.interface.ts), which
--                 is Docker (src/manager/docker.service.ts) or K8s (src/manager/k8s.service.ts),
--                 and writes the cache.
--   Config        src/manager/agent.config.ts and src/manager/dtos/agent.create.dto.ts: the
--                 configuration of an agent and its command line (Config/Command).
--   Multitenant   src/multitenant/mulittenant.service.ts: wallets of the multitenant agent, in the
--                 same cache.
--   Controller    src/controller/agent.controller.service.ts: webhooks of agents and wallets, by
--                 what the cache holds of them.
--   Router        src/router/agent.router.service.ts and src/router/agent.router.module.ts: the
--                 proxy in front of the agents.
--   Transactions  src/transactions: the handlers of basic messages (Messaging), the table of
--                 transactions (Persistence, Entity, and its columns in Schema, with those of
--                 src/migration) and the service before them (Service).
--   App           src/main.ts, src/app/app.service.ts, src/app/app.controller.ts: the start and the
--                 health endpoints; App/Storage has the options of src/app/global.cache.module.ts
--                 and src/ormconfig.ts.
--   Validation    the rules by decorators of the bodies in src/manager/dtos, src/multitenant/dtos and
--                 src/transactions/dtos.
--   Routes        the routes that the controllers (src/**/*.controller.ts) of src/app/app.module.ts
--                 declare by decorators.
--   Wiring        the modules of Nest (src/**/*.module.ts) and the constructors of their classes.
--   Agency        all of it: each request, message or timer is an operation, which makes the
--                 services above act on one history of calls, one operation behind the other:
--                 requests that interleave at their calls are in Manager/Timers and
--                 Transactions/Messaging/Pool only.
--                 Agency/Http says which requests over HTTP are accepted for an operation.
-- A method `fooBar` of the source is `foo_bar` of the module of its class. Under each module stand
-- the modules of its theorems. Base holds shared names. Tests holds concrete runs, one for each
-- theorem with a hypothesis.
--
-- The language. Js models what the source uses of JavaScript: numbers, which are exact integers
-- and fractions, Infinity or NaN (the rounding to 53 bits, -0 and -Infinity are left out), the
-- dynamic values of remote answers, optional properties that are left out, null or given,
-- JSON.stringify, split, parseInt and the regular expressions of the source.
--
-- Effects. An asynchronous method is a function of the calls made so far, the last one first, to a
-- result or an exception and the calls made by then. What lies outside src/ (the HTTP client, the
-- cache, dockerode, the Kubernetes client, TypeORM, the clock, the file system, aries-controller,
-- protocol-common) is an `Env`: it answers each call by an arbitrary function of the calls before
-- it, so that a theorem holds for all answers that its hypotheses allow. A promise or a timer that
-- is not awaited is `detached`. Logging has no effect and is left out, but for the property reads
-- that can throw. Where a theorem relies on such code, the hypothesis has a name: `Clock` (dates
-- do not run back, a delay takes its time, timeDelta is the difference), `Table` (MAX is that of
-- what was saved, where saves and queries may fail), `Works` (they do not), `Stores` (the cache
-- takes a write and gives it back), `Remembers` (the cache still has its last write),
-- `GivesStored` (it gives nothing that the agency did not store), `GivesLive` (nor what was
-- deleted since; both take the handlers of aries-controller, which are given the cache, to store
-- nothing that is read), `Express` (a request takes a route that answers it), `Libraries` (what
-- the modules of the libraries export), `Checks` (the database refuses a record that violates a
-- column) and `ValidationPipe` (what passes obeys the decorators, as class-validator documents
-- them).
--
-- Interleavings. An asynchronous handler gives way to others at its calls. For these questions it is
-- a `Process` (Effects/Process): it has ended, or asks for the answer of a call.
-- Transactions/Messaging/Steps has the handler of transactions in this form, and
-- Transactions/Messaging/Pool any number of them, of which one at a time has its call answered. The
-- specification is Transactions/Messaging/Interleaving: an order is read, or a read one is saved.
-- Manager/Timers has the timers of setSpinDownJob, each of which may fire from the time on at which
-- it is due, between the calls of other methods; the calls of one spin-down stand together there.
-- What `setTimeout` makes of a delay is a parameter, and what is relied on of the place where agents
-- run is `StopsOnly`.
--
-- Patterns. Js/Regex runs the regular expressions of the source, and Js/Regex/Meaning says by a
-- relation what they match; Multitenant/Taken and Config/AgentId use it.
--
-- Fuel. The `while` loop of pingConnectionWithRetry is the only one: each round waits a second, so
-- one round more than the seconds of AGENT_RETRY_DURATION is enough, as Manager.Retry shows.
--
-- Not modelled: what the database, TypeORM, Nest, express and class-validator do beyond the hypotheses
-- above; the constants of src/common/http-context and the shapes of the answers in
-- src/transactions/dtos, which have no behaviour; the tests.

pub mod Base
pub mod Js
pub mod Entity
pub mod Effects
pub mod Config
pub mod Agency
pub mod AgentManager
pub mod Docker
pub mod K8s
pub mod Manager
pub mod Multitenant
pub mod Router
pub mod Routes
pub mod Wiring
pub mod Controller
pub mod Transactions
pub mod App
pub mod Validation
pub mod Tests
