-- ===== src/Lib.antt =====
-- unified-ephemeral-runner-broker: a broker that gives CI jobs ephemeral runners on several backends.
--
-- A request names a pool. The broker narrows the pool's backends by circuit breaker and rate limit,
-- by budget and by live provider capacity, lets a scheduler reserve a slot of one backend, saves the
-- allocation under the store's own capacity check, provisions the runner and commits the record; the
-- record ends by a completion, a cancellation or a sweep. The parts meet in internal/api/service.go,
-- whose filters for budgets and live capacity are modelled with their components, and whose
-- saveReservedAllocation, first filters, queue and ends of an allocation are in Service; the rest of
-- its allocation path is not modelled.
--
-- - Model: internal/model/types.go, the configuration and the allocation records.
-- - Store: internal/store/store.go and memory.go, the process-local store. Each method of *Memory
--   is a function of the store; Reach has the broker's guarded writes as steps. Not among them are
--   a plain Save over a record that another goroutine has ended since it was read, and an admission
--   under another limit than the configured one, as saveReservedAllocation may pass it.
-- - Store.Inbox: internal/store/inbox.go, the queue of webhook deliveries in memory, as calls in
--   sequence.
-- - Store.File, Store.Snapshot: internal/store/file.go. encoding/json is the parameter Codec, of
--   which Restart names what is relied on, for contents that JSON carries without loss; what the
--   file system does on a write is an argument, the first step that fails or none. Refinement
--   relates the store to the memory store, Durable and Restart to what a new process reads. The
--   store over a database, postgres.go, is SQL and is not modelled.
-- - Scheduler: internal/scheduler. Reserve and Release of orderedScheduler are `reserve` and `release`
--   of Scheduler, with round robin and the weighted ring as orders; those of the priority fair share
--   are in Scheduler.FairShare, whose result of nowFunc() is an argument.
-- - Admission: internal/api/backend_admission.go, the circuit breaker and the rate limit. The shared
--   document that a consuming call loads is an argument, none for an error, and the one that allow
--   saves is a result; the other operations save the state that they leave. Its entries stand under the
--   pool and the backend that splitAdmissionKey finds in their key, which are those that AdmissionKey
--   joined where the pool's name has no slash. The filter over a pool is not modelled.
-- - Budget: internal/budget/tracker.go, with the budgets of the shared document likewise, and
--   filterBackendsByBudget.
-- - Capacity: internal/capacity/manager.go and refresh.go, and filterBackendsByLiveCapacity.
-- - WorkflowJobRetry: internal/api/workflow_job_retry.go.
-- - Service: saveReservedAllocation of internal/api/service.go, which joins the lanes and the store.
--   Service.Filters: the filters of a pool by capabilities, whose normal form is in Capabilities
--   (internal/backend/backend.go), and by time, and the lanes of a pool.
--   Service.Queue: queueAllocation and reconcileQueuedAllocation for an allocation that has a record.
--   allocateNow is part of the allocation path that is not modelled: it is an argument here, and no
--   theorem is stated of a retry. The time of a pass is the time of all its steps.
--   Service.Lifecycle: Cancel, Complete, Claim, Register and SweepExpired. Their calls of schedulers,
--   backends, admission and notifier are recorded in order. What other goroutines do to the store
--   between the read and the write of Cancel and Complete is an argument, a list of store operations;
--   the loop of Cancel takes one list for each pass, so that it ends with the last list.
-- - Tests: each theorem applied to a small configuration.
-- - Common: Go's maps, slices, sorting and text functions.
--
-- Every method of the code holds its component's mutex, so that it is one step here; the methods that
-- load the shared document take the mutex a second time for it, and are one step too. Times are
-- natural numbers of nanoseconds since Go's zero time, and settings that the code uses only when they
-- are positive are natural numbers whose 0 stands for all others. Machine integers are unbounded,
-- except in the bound of the fair share's score. A map is the list of its entries in the order in
-- which a loop meets them, which every statement leaves open. Text folds case and trims spaces in ASCII
-- and Latin-1 only. All loops of the modelled code run over lists or a known number of rounds, so that
-- no definition takes fuel. Cloud providers, Kubernetes, GitHub, HTTP, logging and metrics are outside.
pub mod Common
pub mod Model
pub mod Store
pub mod Scheduler
pub mod Admission
pub mod Budget
pub mod Capabilities
pub mod Capacity
pub mod WorkflowJobRetry
pub mod Service
pub mod Tests
