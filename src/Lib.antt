-- ===== src/Lib.antt =====
-- Sentinel AI, a control room for signalised intersections: an event-driven fleet of Python agents
-- that watch the traffic, decide which axis is to have the green, and drive the signal. This library
-- models the decision, control and messaging core of libs/sentinel.
--
-- The program's parts and how they interact. Perception turns frames into `IntersectionState`
-- snapshots (`StateUpdated`). The decision agent keeps fairness clocks and scores the axes by a
-- utility policy; it publishes `DecisionMade`. The signal controller owns the phase state machine: it
-- takes the wanted axis from decisions, and at each tick steps the machine, checks the transition
-- against the safety envelope, drives the actuator and publishes `SignalChanged`. All events pass the
-- bus, which gives each subscription a queue and a worker with an idempotency cache, a retry policy
-- and a dead-letter list. Memory keeps a window of snapshots and publishes baselines, the incident
-- agent compares snapshots with them, the orchestrator watches heartbeats and confidence and owns the
-- operating mode. A benchmark steps the same phase machine from two controllers, which the agents of
-- libs/sentinel/services/agents.py use too. The prediction agent forecasts the queues from the latest
-- snapshots, and the explainability agent puts each decision into words.
--
-- Which file models which part:
--   Prelude         helpers: tests on numbers and texts, Python's dict (Dict), lists without
--                   repetition (Distinct), exceptions (Results)
--   Config          libs/sentinel/config/settings.py: the settings groups and their checks
--   Contracts       libs/sentinel/contracts: Enums (enums.py), Values (value_objects.py), Events
--                   (events.py)
--   Control         libs/sentinel/control/phase.py: Phase is the code, Run a run of many ticks;
--                   Transitions, Clearance, Service and Refinement prove
--   SignalControl   libs/sentinel/signal_control: Agent is agent.py over the recording actuator of
--                   actuator.py; Follow and Safety prove
--   Messaging       libs/sentinel/messaging: Cache and Retry (bus.py), Bus (bus.py and inmemory.py);
--                   Window, Delivery, Redelivery and Fanout prove
--   Decision        libs/sentinel/decision: Policy (policy.py), Agent (agent.py), Rounding (Python's
--                   round); Utility, Choice and Intent prove
--   Memory          libs/sentinel/memory: Repository (repository.py), Agent (agent.py); Baseline,
--                   Window and Publishing prove
--   Incident        libs/sentinel/incident: Rules (rules.py), Agent (agent.py); Stamps,
--                   Debounce and Reporting prove
--   Prediction      libs/sentinel/prediction: Forecaster (forecaster.py), Agent (agent.py); Bands and
--                   Steady prove
--   Explainability  libs/sentinel/explainability: Generator (generator.py), Agent (agent.py); Texts,
--                   Narration and Counterfactual prove
--   Orchestrator    libs/sentinel/orchestrator/agent.py: Agent is the code; Mode and Watchdog prove
--   Simulation      libs/sentinel/simulation: Controllers (controllers.py), Scenario (config.py),
--                   Twin (analytical.py), Kpi (kpi.py), Harness (harness.py); Commands, Lanes,
--                   Traffic, Arrivals and Benchmark prove
--   Perception      libs/sentinel/perception: Geometry (geometry.py, and the boxes, detections and
--                   tracks of contracts/value_objects.py), Tracking (tracking.py), Movement
--                   (movement.py), Density (density.py), Pipeline (pipeline.py), Worker (worker.py);
--                   Region, Candidates, Association, Identity, Hysteresis, Waiting, Stopped, Estimate,
--                   Frames, Bundles and Recovery prove
--   Agents          libs/sentinel/agents/base.py: Base is the code; Silence proves
--   Services        the agents of libs/sentinel/services/agents.py: Agents, Incidents and
--                   Explanations are the code; Handover, Edges and Reasons prove
--   Tests           runs of the definitions and the theorems at concrete inputs
--
-- How state and operations correspond. A class is a record with its attributes, a method a function
-- from the record to the record, by its own name (without the leading underscore). What an agent
-- publishes is appended to its field `published`, and an actuator's calls to `applied`. A handler is
-- a function of the payload of the delivered event. A method that raises returns a `Result`,
-- beside the state if it has changed that before. Handlers
-- of the bus, that of dead letters too, are functions of a state that stands for everything that they
-- change, and answer whether they returned or raised. Asyncio runs one coroutine at a time, so a run of an agent is a list of
-- inputs: deliveries, ticks, and ends of sleeps.
--
-- Numbers. Seconds, metres, percentages, weights and confidences are counted in thousandths, as
-- natural numbers, and products of two of them in millionths; instants are counted from an epoch. The
-- rounding of binary floats is not modelled; Python's `round` to places is, in Decision/Rounding. The
-- phase machine tests the sign of a tick, so a tick is an integer there. Boxes are in thousandths of a
-- pixel, points in halves of that; overlaps and fitted lines are fractions, overlaps compared by cross
-- multiplication, and a speed is compared with a threshold by their squares.
--
-- Fuel. Only the retry loop of the bus runs on fuel: max_retries + 1 steps, one for each call of the
-- handler that the policy allows, which is enough, since each step but the last uses a retry up. All
-- else is structural recursion.
--
-- What is not modelled: the transports over RabbitMQ and Redis and the JSON form of events, which are
-- calls of client libraries; logging, metrics and traces; video and
-- detection, where the worker takes the detector as a parameter; the language model that narrates,
-- whose answer is a parameter; the dashboard's read model; the SUMO simulation; the gateway, the
-- frontends and the scripts. The sample of a Poisson count, which is computed from powers of floats,
-- the square roots and the formats of numbers are parameters.
pub mod Prelude
pub mod Config
pub mod Contracts
pub mod Control
pub mod SignalControl
pub mod Messaging
pub mod Decision
pub mod Memory
pub mod Incident
pub mod Prediction
pub mod Explainability
pub mod Orchestrator
pub mod Simulation
pub mod Agents
pub mod Perception
pub mod Services
pub mod Tests
