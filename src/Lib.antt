-- ===== src/Lib.antt =====
-- brokerops: the core rules of the brokerage operations platform, as functions that a witness can
-- evaluate, with the theorems that make them correct.
--
-- The parts, and the files that model them (paths from the repository's root):
--   Models     core/src/brokerops_core/models: the records and enumerations of the domain.
--   Ports      core/src/brokerops_core/ports: the interfaces of stores and providers, as records of
--              operations. A decorator takes such a record and is one.
--   World      the state that the services share, the exceptions and the monad of a coroutine: a
--              function from a world to a result and a world, so that what was written before an
--              exception stays written. World/Pure is its part without state.
--   Tenancy    services/tenancy.py of core: the bound tenant, its scope and its enforcement.
--   Stores     the in-memory stores of api/src/brokerops_api/db.py, one file for each.
--   Scoped     services/scoped_stores.py: the decorators that confine a store to the bound tenant.
--   Audit      services/audit.py: redaction, the context of a run, and the recording decorators.
--   Idempotency  services/idempotency.py: keys, claims and the deduping decorators.
--   Milestones services/milestone_engine.py, milestone_schedule.py and transaction_open.py: the
--              assessment, the deadline queue, the timeline and the opening of a transaction.
--   Comms      models/message_templates.py, services/drafting.py and message_send.py: templates,
--              drafts, the sending of messages with its approval, and delivery callbacks.
--   SignIn     services/identity.py and magic_link.py: who may sign in, in which role, and the links,
--              over the in-memory token store. The tokens and the clock are arguments.
--   Tools      services/tool_authz.py and egress.py: the values that cross the tool seam, the tenants that
--              they name, the guard of a call and the filter of a response.
--   Workflows  services/workflow_runs.py, and orchestration/langgraph/src/brokerops_langgraph: the result of a
--              run, engine.py over compiled graphs, and the nodes and edges of graphs/vapi_followup.py
--              (Followup), graphs/transaction_coordination.py (Coordination, CheckState) and
--              graphs/listing_to_contract.py (Contract), with the rules of services/marketing.py,
--              followup_rules.py and listing_service.py (Marketing). A node is a function of
--              its state and of the answer to its gate, and a run is a relation on nodes and states, in
--              which the shared state may become any other between two nodes.
--   Routes     api/src/brokerops_api/routes: approvals.py, the delivery callbacks of webhooks.py and cron.py.
--   Base       shared names, lists, dicts, sorting, comparisons, integers and texts.
--   Tests      concrete inputs.
--
-- How they interact: a service takes ports. The scoped stores stand around the in-memory ones, and
-- Idempotent(Recording(adapter)) around a provider; the bound tenant and the context of the run reach
-- them through the world, as the context variables of the source do.
--
-- Conventions: a method of a class is a function of the class's collaborators and of its arguments,
-- and an exception is a value of `Error` (messages of the exceptions are left out where no code reads
-- them). A date is its ordinal and a time is a number. A dict is an association list in the order of
-- insertion. A stable sort by a key is an insertion sort over the comparison of the keys. Every loop
-- is structural; the only fuel is that of a number in a text, which has at most as many digits, and as
-- many groups of three, as its value plus one.
--
-- Taken as parameters, in `World.Platform` or as arguments: the readings of the clock and of `uuid4`,
-- SHA-256, Unicode's lower case, the ISO texts of dates, the text of an exception, the
-- compiled regular expressions for secret shapes (services/egress.py), the validation of an
-- edited payload, the check of a signature, the label of an exception, the text of a JSON value that is
-- not a text, and the providers.
--
-- Not modelled: the SQL stores, the other HTTP routes and the wiring of the API, the extraction of
-- feedback from a transcript, the detection of tenants from annotations, the tokens of a session, the adapters of providers, the frontend, the
-- infrastructure and the scripts.
pub mod Base
pub mod Models
pub mod World
pub mod Ports
pub mod Tenancy
pub mod Stores
pub mod Scoped
pub mod Audit
pub mod Idempotency
pub mod Milestones
pub mod Comms
pub mod SignIn
pub mod Tools
pub mod Workflows
pub mod Routes
pub mod Tests
