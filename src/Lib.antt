-- ===== src/Lib.antt =====
-- Malacca port resilience sandbox: the server's decision core.
--
-- The program is a sandbox for port operations. A simulator advances by ticks of 15 minutes; a control
-- service recommends an action for its snapshot, has it approved by two people, executes it on the
-- simulator and audits what it did. Gates decide whether a trained checkpoint, a runtime action or a
-- production release may go ahead. A state store and a lease keep the server's state over crashes and
-- over several processes. A queue runs training jobs, and a gateway takes messages from the port's partners.
--
-- Files and code (paths from the repository's root):
--   Simulator      server/operationalSimulator.ts, class PortOperationsSimulator: advance,
--                  forceAdvance, applyAction, applyCoreControl, applyCoreControlWithCounterfactual.
--                  Envelope holds the effects and their bounds, Tick the formulas of one tick; Control,
--                  Counterfactual and Tick/Ledger hold proofs.
--   Operations     server/operationalSimulator.ts, class OperationalControlService. Decisions holds
--                  its data, Candidates recommendations, Audit appendAudit and auditTrail, State the
--                  fields and the calls on the simulator, Approvals createDecision and
--                  approveDecision, Executions executeDecision and rollbackDecision, CorePlans
--                  executeCorePlan and rollbackCorePlan. Operations itself has a call of any kind and
--                  sequences of calls. Lifecycle, Trail, Replay, Admission and
--                  Duties hold the proofs.
--   Assurance      server/algorithmAssuranceGate.ts: evaluateAlgorithmAssurance, and in
--                  Assurance/Shield applyAlgorithmSafetyShield.
--   Authority      server/productionAuthorityGate.ts: evaluateProductionRelease. Bundle holds what it
--                  is given, Release the proofs.
--   Acceptance     server/siteAcceptanceGate.ts: evaluateSiteAcceptance. Delivery holds the proofs.
--   Store          server/reliableStateStore.ts, class DurableStateStore; Journal is its journal, a
--                  file of bytes as its ended lines and the rest behind them; Commit, Crash
--                  and History hold the proofs.
--   Lease          server/reliableStateStore.ts, class FileFencedLease.
--   Readiness      server/reliableStateStore.ts: assessReliabilityReadiness.
--   Training       server/rlTrainingJobs.ts: Jobs holds a job and its steps, Training itself the queue;
--                  Places, Invariants, Steps and Draining hold the proofs.
--   Community      server/portCommunityGateway.ts: Messages holds the messages and their parser,
--                  PortCalls validatePortCallEvent of server/portCallContract.ts, Community itself
--                  ingest and status; Authentic, Ledger, Standing, Keys and Events hold the proofs.
--   Sources        server/operatorSourceManifest.ts: Manifests holds the parser, Sources itself the
--                  assessment and the loading, Ready the proofs.
--   Traffic        server/vesselTrafficSafety.ts: Tracks holds the observations and their fusion,
--                  Traffic itself assessVesselTraffic; Sightings, Encounters, Pairs and Complete hold
--                  the proofs.
--   Ais            server/realtimeAisGateway.ts: Messages holds parseAisStreamMessage, Ais itself the
--                  class RealtimeAisGateway, Connection the proofs.
--   Json           JSON values, and canonicalJson of server/operatorIntegrationGateway.ts.
--   Prelude        what the modules share; Samples has numbers in thousandths for the examples.
--
-- The service executes its decisions and plans on the simulator (Operations uses Simulator). The gates,
-- the store and the lease stand alone.
--
-- How state is modelled. A class is a record of its fields, an operation a function from the state, and
-- from what it reads of the clock, to its result and the state after it. A thrown error is a value,
-- and the state that a call leaves when it throws is modelled with it. Where two maps of the source
-- hold the same object they hold the same address of a heap here. Processes that share the lease's
-- directory are an indexed relation of steps.
--
-- Numbers. Counts, sequence numbers and milliseconds are natural numbers. A fraction is an element of
-- any type with the operations of Floats, of which nothing is assumed but where a theorem names it, so
-- the definitions take NaN and the infinities. A theorem that says at least or at most takes
-- FloatsLaws, the documented order of numbers, and asks that the values that the code does not check
-- are numbers (IsNumber). Dates are milliseconds since 1970. Each loop of the source goes
-- over a list or counts down; the rounds of Training/Draining are counted by a number, which is
-- proved to be enough if it is at least four for each job that has not started.
--
-- The simulator's clock and controls hold for any physics; Simulator/Tick has the source's. What a
-- snapshot shows of the simulator is given to the control service by its Platform.
--
-- Not modelled: the snapshot's document and the forecast model; the audit file; handoffReport; the
-- derived control flags of the production gate; the operator gateway;
-- getSatelliteMapConfiguration; control effects of a fraction of a tick, which no caller asks for;
-- checkpoint files of the training jobs and the training itself, whose result and errors are free in each step; HTTP, files
-- and user interface. Hashes, signatures, JSON, dates, trigonometry and
-- the file system are parameters.
pub mod Prelude
pub mod Samples
pub mod Simulator
pub mod Operations
pub mod Assurance
pub mod Authority
pub mod Acceptance
pub mod Store
pub mod Lease
pub mod Readiness
pub mod Training
pub mod Json
pub mod Community
pub mod Sources
pub mod Traffic
pub mod Ais
