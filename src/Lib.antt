-- ===== src/Lib.antt =====
-- A model of the dynamic honeynet: the services that bind an attacker to an environment, decide
-- what to expose next, and keep the routes that the gateway serves.
--
-- The program. A first contact is resolved to a binding (services/binding_service). Evidence
-- from the sensors becomes an attacker profile. On each tick the controller
-- (services/controller) reads the profile and the open assets of the binding, and answers with
-- actions: unlock an asset, reveal a configuration, or nothing. The orchestrator carries the
-- actions out: it records what is unlocked in the binding service, and syncs the gateway
-- (services/gateway) with what is exposed. Each repository keeps a JSON document, changed under
-- a file lock (libs/common/json_store.py).
--
-- The parts.
--   Prelude: the names that all files share; lists over the native numbers, `in`, Python's
--     `==`.
--   Common: libs/common. Iterables (iterables.py), Attack (attack.py), Json (json_utils.py),
--     JsonStore (json_store.py; Cycles is its lock, step by step), Clock (clock.py); Dict, Text
--     and Floats are Python's `dict`, `str` and `float` as far as the program uses them.
--   Contracts: the records of libs/contracts/models.py that the services exchange.
--   Binding: services/binding_service. Repository is repository.py, Service is domain.py, with
--     one function for each method. The state is the list of records that the JSON document
--     holds; a method that raises returns an error and writes nothing.
--   Gateway: services/gateway. Service is both repository.py and domain.py.
--   Controller: services/controller/domain.py. Settings and Signals read the catalog and the
--     profile, Gates is `_eligibility`, Upgrades, Variants and Options make the reveal options,
--     Gain and Scores score them, Order ranks them, Records and Decisions are the answers, and
--     Tick is `tick`. The other files of the folder are proofs.
--   Prior: FileAttackGroupTechniquePriorRepository of services/controller/repository.py, which
--     the controller reads through an interface. Groups is `_load`, Recommend is `recommend`.
--   Orchestrator: services/orchestrator/domain.py. Runtime is the interface of the template
--     runtime, Routes the texts of route updates, Steps the state and the helpers, Service is
--     `apply`, and Prewarm is `prewarm`. The other files are proofs.
--   Profiler: services/profiler. Tags and Events make evidence of an event, Summary the
--     confidence of a tactic or technique, Profile the snapshot, and Service is ProfilerService
--     over the two stores of repository.py. The ATT&CK catalog (attack_catalog.py) is an
--     interface.
--   Entrypoint: services/entrypoint. Conditions and Rules are rule_matcher.py, Redact and
--     Service domain.py: one request is bound, redacted, matched, profiled and stored. The
--     other files are proofs.
--   Feedback: what later evidence makes of a reveal. Outcomes and Update are
--     `update_reveal_feedback_from_evidence` of scripts/runtime/adaptive_controller_loop.py and
--     FileRevealFeedbackRepository of services/controller/repository.py. The other files are
--     proofs.
--   AssetGateway: the table of routes. Ports and Upsert are
--     services/orchestrator/runtime_routes.py, which writes it; Load and Select are
--     `load_routes` and `select_route` of services/asset_gateway/app.py, which pick the backend
--     of a connection. Common/JsonStore/Replace is `replace_list_items`.
--   Pipeline: a tick and the apply of its actions together.
--
-- The types. Times are numbers of microseconds, and a time to live is a duration in the same
-- unit. What a method reads from the clock or from `uuid4` is an argument; that a new id is
-- fresh is a hypothesis. Floats are an interface whose laws are that `<=` is a total preorder;
-- the scores that the program compares are finite, so NaN is left out. `Path.exists` and `str`
-- of a value that is no text belong to the host. JSON numbers are an interface that tells ints
-- from floats; ports and counters are natural numbers, so negative ints are left out. A set is
-- a list without its order being used. `str.lower` is modelled for the ASCII words that it is
-- compared with; in the entrypoint it is an argument, as are `str.upper`, the word characters
-- of a regular expression, and the text of a list of code points. All loops are structural
-- recursion, so no fuel is used. The creation of a missing JSON file is one step, although the
-- code looks for the file before it takes the lock.
--
-- Left out: `schema_version` and the time stamp of decision events; the texts that explain a
-- rejection, which are constructors; FastAPI applications, docker, sockets and log tailing,
-- which are input and output; the template runtime (services/orchestrator/template_runtime.py),
-- whose calls are an interface and do not raise; the sensors other than the entrypoint
-- (services/cowrie, services/opencanary, services/high_interaction), and the Sigma rules; of
-- scripts/runtime/adaptive_controller_loop.py, its calls over HTTP, the response gate and the limit of
-- actions; the validation of the asset catalog; the dashboard and the offline scripts, which only read.
pub mod Prelude
pub mod Common
pub mod Contracts
pub mod Binding
pub mod Gateway
pub mod Controller
pub mod Orchestrator
pub mod Pipeline
pub mod Prior
pub mod Feedback
pub mod Profiler
pub mod Entrypoint
pub mod AssetGateway
