-- ===== src/Lib.antt =====
-- The operational core of the OT engineering demonstrator, a simulated distribution network with
-- SCADA telemetry, topology (ADMS), outage (OMS) and restoration services under
-- app/backend/ot_demo/. The services are pure functions over frozen records and stand here as
-- functions with the same names; what raises an exception returns a `Result`.
--
--   Base        lists, dicts, sorting, integers, texts, and exceptions as values
--   Domain      domain/enums.py, domain/configuration.py: records and validators of a network
--   Telemetry   modules/telemetry: `classify` and the epoch arithmetic of a datetime, which is
--               a number of microseconds since the year 1
--   Topology    modules/topology: `calculate` from device states to energised sections, source
--               paths, radiality, feeder loads and the isolation proof of the active fault
--   Outage      modules/outage: `calculate`, the customers of de-energised sections
--   Restoration modules/restoration: `discover_candidate`, the permissives, `assess`
--   Scenario    modules/scenario and modules/events: records. Store: the tables of
--               infrastructure/scenario_repository.py. The others are
--               application/scenario_coordinator.py: Events (`_events_from_specs`), Derive
--               (`_derive` and projections), Gates and Actions (isolation targets and
--               `_allowed_actions`), Snapshot (`_assemble_snapshot`, `_reject`,
--               `_complete_accepted`), Replay (`_return_duplicate`), Operations and Restoring
--               (the handlers), Execute (`_reset_run`, `execute`), Initialise
--               (`initialise_next_run` and what it calls)
--   Validation  modules/validation: records of models.py. Catalogue: catalogue.py. Adapters:
--               source_adapters.py. Store: infrastructure/determination_repository.py and what it
--               needs of validation_repository.py, with the constraints of migrations 007 to 014.
--               Determination: determination.py and actor_roles.py, with Binding
--               (`bind_context`, `prepare_context`), Evaluation (`evaluate_machine_criteria`),
--               Review (the two steps of a review), Finalise (`finalise_result`), and Changes (the
--               calls of the service as sequences of transactions). Evidence: the records of
--               suspensions and composites. Composite: service.py, Assemble
--               (`assemble_composite`, with a round for an Execution and one for a Suspension),
--               Finalise (`finalise_composite`) and Provenance (suspension_provenance.py); it reads
--               the results that Determination stores and the runs of Scenario
--   Tests       a network (config/network/v1.1), runs, and the theorems at concrete inputs
--
-- The topology result feeds the outage and the restoration service, which calls `calculate`
-- again for the topology with the tie closed. The scenario coordinator calls all of them to derive
-- the state of a run after each command, and stores it. Source paths and components come from
-- networkx: a parameter `GraphLibrary`, with the behaviour that its documentation promises in
-- `IsLawful` (Topology/Graph), and a depth-first search that has it (Topology/Graph/EdgeList), whose fuel
-- is the number of nodes. uuid5 and the SHA-256 of canonical JSON are parameters too. The digits of a
-- Decimal (Restoration/Capacity) are counted on fuel that its comments show to be enough. All other
-- functions are structural recursions.
--
-- A handler takes the state (the tables, how many UUIDs have been drawn, and the comparisons kept of
-- replayed commands) and returns its result with the next state, or an error, and then the state
-- stays as it was, as the rolled-back transaction leaves it. `uuid4` reads a sequence at the number
-- of UUIDs drawn so far; the loader of configurations, the identity of the build, the failure hook
-- and the digests of requests and results are fields of `Coordinator`. UUIDs are numbers, so what
-- the repository sorts by their text is sorted by number.
--
-- The determination service runs one transaction after another, and what an earlier one stored stays
-- when a later step raises: its methods are an `Action`, which returns a result and the store in
-- either case. A transaction is stored exactly when the constraints and triggers of the tables
-- hold. The selectors of the source adapters, the source authority, the profiles of
-- normalisation, the serialiser and the digests are fields of `DeterminationService`, and what
-- `uuid4` gives in a call is an argument.
--
-- The composite operations are actions too. The digests of cases and payloads, the digest of the
-- catalogue file and the identifier of configuration v1.1 are fields of `CompositeService`.
--
-- Not modelled: the patterns of identifiers and the lengths of texts, the reasons and
-- descriptions for a human reader, the text of the SQL, the rest of the validation modules, the
-- evidence modules, the read models, and the web API.
pub mod Base
pub mod Domain
pub mod Telemetry
pub mod Topology
pub mod Outage
pub mod Restoration
pub mod Scenario
pub mod Validation
pub mod Tests
