-- ===== src/Lib.antt =====
-- Atlas Manager: a server manager that starts, stops and watches registered services, follows availability
-- schedules, and turns the machine on and off.
--
-- The parts of the program and the files that model them:
--   * Scheduling: src/service-scheduling/domain. When a service is expected to be available. Window is
--     weekly-availability-window.ts, Schedule weekly-availability-schedule.ts, Policy the modes, time zones and
--     service-availability-policy.ts, Evaluator service-availability-policy-evaluator.ts, Override the
--     overrides and their evaluator, Transitions the transition calculator. `create_x` is `createX...`.
--   * Graph: src/service-management/domain/dependency-graph.ts. Which services a service needs and the orders
--     in which they start and stop. Graph.Kahn holds the queue loops of `detectCycles` and `topologicalSort`,
--     Graph.Closure the loop of `computeClosure`.
--   * Power.Loop: src/power-management/application/machine-power-scheduler-loop.ts. One function per method, a
--     step for each event: start, stop, a tick that settles, a timer that fires.
--   * Power.Tick: `executeCore` of src/power-management/application/run-machine-power-scheduler-tick.ts, with
--     the report of domain/machine-power-scheduler-report.ts. Power.Cursor: the cursor and its in-memory store.
--     What the tick asks of the executor, of the claims and of the policy's occurrences is the record
--     `Services`, whose functions may change the cursor too, as another scheduler would.
--   * Power.Interval: src/power-management/domain/machine-shutdown-occurrence-interval.ts and
--     machine-shutdown-occurrence.ts. The shutdowns of the operating policy between two ticks.
--   * Power.Claims: src/power-management/infrastructure/in-memory-machine-shutdown-occurrence-claim-store.ts,
--     and in Spec the set of occurrences that it stands for.
--   * Power.Shutdown: the shutdown of the machine at an occurrence, in src/power-management. Readiness is
--     application/evaluate-machine-shutdown-readiness.ts, with Blocker for the blockers and decisions of domain/.
--     Prepare is `prepareAt` of application/prepare-machine-shutdown-occurrence.ts, with Plan for its plans, Attempt
--     for what a step comes to, Records for the events and step results and Report for the report. Execute is
--     `executeCore` of application/execute-machine-shutdown-occurrence.ts, with Result for its result and Wake for
--     what the controllers of the alarm and the shutdown report. An execution evaluates the readiness, prepares with
--     an evaluation of its own, and then claims (Power.Claims is one such store), sets the alarm and shuts down.
--     Readers and controllers are the functions of `Readers`, `PreparationPorts` and `ExecutionPorts` on a type of
--     states of the world, an `Action` a method on it. The checks of the records are those that their types leave,
--     and `compare` is `String.prototype.localeCompare`.
--   * Access: src/access-control. Permission, Role, Operation and Principal are the files of that name,
--     Authorize is application/authorize-administrative-operation.ts. Who has which role is a function of the
--     principal.
--   * Services: src/service-management/application. Stop is orchestrate-registered-services-stop.ts with
--     domain/registered-services-stop-result.ts, Plan is plan-registered-service-orchestration.ts, Control is
--     orchestrate-registered-service-control.ts, which runs a plan. Readiness is
--     wait-for-registered-service-readiness.ts. Reconcile is
--     execute-registered-service-availability-reconciliation-occurrence.ts with its planner; it evaluates the
--     policy with Scheduling.Override and starts or stops with Control. Stop, Plan and Control take their
--     orders from Graph, Control takes the expected availability from Scheduling. The catalog, the status
--     reader, the controller, the waiter and the clock are the functions of `StopPorts` and `ControlPorts`, on
--     a type of states of the world.
--   * Backup.Retention: src/backup-management/application/apply-registered-backup-retention.ts, on the runs of
--     domain/backup-run.ts. The stores and the gate are the functions of `RetentionPorts`. `Answers` is what is
--     assumed of the run store: a query returns the first 100 runs after a sequence.
--   * Base: what the parts share. Base.Values are JavaScript values as a validator sees them, Base.Platform
--     what the runtime provides.
--
-- Conventions. A string is a list of code units, a time is an integer number of milliseconds, a thrown error is
-- a `Result`. Maps and sets are lists in the order of insertion. `Array.prototype.sort` is an insertion sort:
-- both are stable. `Date` parsing and printing and `Intl.DateTimeFormat` are fields of the records `Dates` and
-- `Zone`, and what is assumed of them is named in a hypothesis (`LocalClock`).
--
-- Fuel. The loop of the transition calculator gets 11521 rounds, one more than the minutes of the eight days
-- that `validateInterval` admits. The loop over a stack in `computeClosure` gets one more round than there are
-- services, since each service is pushed once. The loops over the minutes of Power.Interval get 11521 rounds
-- for the same eight days. The queue loops get the number of services. The rounds of
-- `dependentFirstRequestedOrder` get the number of different requested services, since each round removes one or
-- more. The fuel of a retention is an argument: one round more than the store has runs is enough.
--
-- Not modelled: the audit trail, authentication, the scheduler of the reconciliations, the run of backups and
-- their stores, HTTP, the command line, the dashboard, logging, file and process access, and the Go power
-- helper. `Object.freeze` has no effect on values that nothing changes.
pub mod Base
pub mod Scheduling
pub mod Graph
pub mod Power
pub mod Access
pub mod Services
pub mod Backup
