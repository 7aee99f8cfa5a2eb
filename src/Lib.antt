-- ===== src/Lib.antt =====
-- smokeng measures latency and loss, as smokeping did, from agents to a tree of targets.
--
-- The parts, and which file models which:
-- - internal/tree/tree.go, the tree of targets whose settings are inherited: Tree/Model (the types,
--   `Get`), Tree/Validate (`(*Target).Validate`, `validateTiming`), Tree/Build (`New`, `ancestryOf`,
--   `Path`, `Resolve`). `New` is `build`. Its map of nodes is a list in the order of the targets; a
--   loop over it runs in that order, which decides only which of several errors is reported.
-- - internal/tree/limits.go, what a write may not exceed: Tree/Limits (`CheckTreeLimits`, and of
--   `CheckLimits` the bounds on numbers). It builds the trees before and after the write.
-- - internal/series/series.go, the names of the per-packet series, which a setting selects: Series.
-- - internal/store/enc/enc.go, the blobs that samples are stored as: Enc/Varint (what it uses of
--   encoding/binary), Enc/Samples (`Encode`, `Decode`, `EncodeSigned`, `DecodeSigned`).
-- - internal/alert: Alert/Rule and Alert/Evaluate (alert.go: rules, the value of a metric, the
--   hysteresis of `EvaluateValue`), Alert/Silence (silence.go, `silencedLocked`; what it covers in Alert/Silenced), Alert/Manager
--   (manager.go: its state, `deliver`, `record`), Alert/Observe (`Observe`), Alert/Control (`Firing`,
--   `Repeat`, `Acknowledge`, `AddSilence`, `RemoveSilence`), Alert/Nearest
--   (`NearestRuleNode`), Alert/Reload (`Reload`; what it leaves in Alert/Reloaded and Alert/Contexts). A measurement passes from `Observe` to `Evaluate`, and a transition from
--   there to `deliver`, which logs it and posts it. A method is modelled as one
--   step from one record to the next, at one time; in the program `Observe` and `Repeat` release the
--   mutex before they save and deliver, and `deliver` takes it, and the time, again, so that another
--   method may come between.
-- - internal/report/availability.go: Report/Model (`Availability`, its loop as `tally`). The proofs
--   take the downtime as groups of down intervals (Report/Groups, Report/Outages) and add up the
--   seconds (Report/Accounting).
-- - internal/auth/session.go and internal/api/scope.go, what a session may see and change: Access/Role
--   (`AtLeast`, `Max`), Access/Scope (`scopeFor`, `RoleOn`, `RootOf`, `chain`,
--   `agentsInScope`). What a session reaches is in Access/Session, where its view starts in
--   Access/Highest. A scope holds the tree that `New` made.
-- - internal/api/clientip.go, the address that a request is said to come from: Access/ClientIp
--   (`clientIP`), with the proofs in Access/Forwarded.
-- - internal/ingest/limit.go, the account of the bytes that decoding a batch may take: Ingest/Limit.
-- - internal/ingest/sign.go, which requests of an agent are accepted: Ingest/Canonical
--   (`CanonicalString`), Ingest/Verify (`Check`, `nonceCache`, `rateLimiters`). The proofs are in
--   Ingest/Nonces, Ingest/Gate and Ingest/Replay.
-- - internal/probe/scheduler.go: Probe/Schedule (`bucketStart`, `phaseOffset`, `sendTimes`),
--   Probe/Collector (the collector's methods), Probe/Finalize (`finalize`), Probe/Mode (`modeOf`),
--   Probe/Clock (what it uses of package time, `clockStepped`). A run of a collector is the list of
--   the calls of its methods in the order in which they take its lock (Probe/Runs); what a run keeps
--   is proved in Probe/Replies and Probe/Closed. Probe/Figures, Probe/Tallies and Probe/Causes say
--   what a measurement counts, and Probe/Timing when the pings are sent. The samples go to the codec
--   of Enc.
-- - internal/probe/engine.go, what is measured of a tree: Probe/Specs (`loadSpecs`, `validateSpec`).
--   Tree/Sound says that the effective settings of an accepted tree are in range, and Probe/Loaded
--   joins the two with the schedule.
-- - internal/probe/dnscache/dnscache.go, the addresses of hosts: Probe/DnsCache (`Lookup`, `refresh`,
--   `resolve`), where each critical section is one step and a state counts as reached in whatever
--   order lookups and refreshes take the lock (Probe/Cached). The answers of the servers are the
--   input. The proofs are in Probe/Offers, Probe/Cached and Probe/Lookups.
-- - internal/agent/agent.go, how an agent hands its results over: Agent/Outbox (the buffer, as the
--   queries of internal/store/agents.go read and clear it), Agent/Push (`pushMeasurements`,
--   `pushPaths`), with the proofs in Agent/Delivery and Agent/Draining. A round of a loop takes the
--   answers of the store, the network and the master as its input.
-- Common holds what they share: results with an error, integers of 64 bits, text as code points, and
-- the operations of float64 as a record that the definitions take as a parameter. Nothing is assumed
-- of those operations. Scenarios holds examples and small runs.
--
-- Bounds and fuel: an `int` keeps its wrap-around at 64 bits where it is multiplied. `climb` counts
-- down the room that the test on the length of the chain leaves it. `decode_loop` takes the number of
-- bytes as its fuel, since each round takes one. `chain` takes one more than the number of nodes,
-- since a way up meets each node once, and `depth` the number of nodes;
-- `NearestRuleNode` goes up in the same way. The loops of the agent recur on the list of the
-- rounds, whose number is theirs to use up. A `time.Duration` is an `int64` and is cut to its range
-- where package time does so; twenty digits hold every `int64` in decimal.
--
-- Not modelled: the checks on the text of a node (`checkText`, `checkHost`), sockets, the probes
-- themselves, HTTP handlers, SQL, the check of a signature and the hash of a body, and the text of
-- messages. The value of a shape rule (shape.go) is a parameter of the manager.
pub mod Common
pub mod Enc
pub mod Series
pub mod Tree
pub mod Report
pub mod Access
pub mod Ingest
pub mod Probe
pub mod Agent
pub mod Alert
mod Scenarios
