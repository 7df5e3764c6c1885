-- ===== src/Lib.antt =====
-- asyncmachine-go: the relation resolver, the clocks and the transitions of its state machine.
--
-- A machine (pkg/machine) has named states, a set of active ones and a clock for each, and it moves by
-- mutations: a mutation calls states to be added, removed or set. A transition asks the relation
-- resolver for the target states, asks the handlers of the states whether they agree (negotiation), and
-- then makes the target states active, moves the clocks and runs the final handlers.
--
-- Base       native numbers, lists, equality and maps that all files share.
-- Text       strings.TrimSpace and strconv.Itoa, as far as the code uses them.
-- Slices     pkg/machine/mach_utils.go: slicesWithout, slicesNone, slicesEvery, slicesFilter,
--            slicesReverse, slicesUniq, and their laws.
-- Schema     pkg/machine/mach_utils.go, schema.go: State and Schema. A nil slice is none. Parse follows
--            Schema.Parse, Edit the other operations, and Parsed says what Parse keeps.
-- StateList  pkg/machine/mach_utils.go: the methods of the type S and the functions behind them.
-- Names      pkg/machine/machine.go: mustParseStates, whose panic is none, and ParseStates.
-- Relations  pkg/machine/relations.go: DefaultRelationsResolver. Context is what one call reads;
--            Add (with Implied), Require, Block and Target follow parseAdd, parseRequire, the blocking
--            filter and TargetStates, Sorting follows SortStates, Resolved and Complete say what comes
--            out.
-- Machine    pkg/machine/machine.go: schema, active states and clocks, setActiveStates, the queries,
--            and the time that newTransition predicts.
-- Transition pkg/machine/transition.go: newTransition (Defs, Start), the handlers (Emit) and emitEvents
--            (Run); Called, Vetoes, Refused, WellFormed, NoHandlers and Total say what a transition does, Kept,
--            Partial and Listing what its handlers can do to the target states, Setup what a transition
--            leaves as it is, Sound and Runs which parts of it do not panic, Auto what follows it.
-- Queue      pkg/machine/machine.go: queueMutation, the queue steps of PrependMut and processQueue, and
--            IsQueued, IsQueuedAbove, detectQueueDuplicates and, in WillBe, the WillBe family. A
--            mutation's arguments are only counted.
-- System     pkg/machine/machine.go: a machine with its queue. Defs follows processQueue, Methods the
--            mutation methods (Add, Remove, Set, Toggle, CanAdd, CanRemove, AddErrState, PrependMut).
--            Steps is a step relation for everything that can happen to a system, in any order, and
--            Loop and Calls say that the methods are sequences of its steps; Sound and Kept hold the
--            invariant, Turns and Drain the end of the loop, Limit the queue limit, Check what CanAdd and
--            CanRemove leave, and Total and Idle what holds without handlers.
-- Graph      pkg/machine/relations.go: NewSchema, the graph of the Require relations with its topological
--            sort (Stacks, Sorting, Acyclic), RelationsOf, RelationsBetween and InboundRelationsOf.
-- Verify     pkg/machine/machine.go: verifyStates and SetSchema.
-- Snapshot   pkg/machine/machine.go: Export and Import, with the restored machine in Restored.
-- Subscriptions  pkg/machine/subscriptions.go: WhenQueue (QueueTicks), WhenQueueEnds, WhenTimeSum
--            (TimeSums) and the contexts of states. A channel and a context are numbers.
-- Time       pkg/machine/mach_misc.go: Time and, in Time.Index, TimeIndex.
-- Tests      runs on a small machine, and the theorems applied to it.
--
-- Ticks are uint64 and wrap around. The loops of parseAdd and parseRequire run on fuel: two rounds for
-- parseAdd, as the second one finds every state visited, and two more than the length of the list for
-- parseRequire, as a round that goes on has dropped a state. TopologicalSort visits on fuel, one more
-- than there are keys, as marked nodes are keys. The loop of processQueue is given its fuel by the
-- caller and is unfinished without it: two turns for each mutation of the queue are enough, as an auto
-- mutation is followed by no other. A panic of the code is none. Go's map has no order: a schema is an association list, in the order of one
-- iteration over it.
--
-- Parameters: sort.SliceStable is the instance StableSort, of which only that it permutes its argument is
-- used; the answers of the handlers are a function of the machine, the mutation, the event and the
-- events before it; the functions of Eval mutations, their contexts and Backoff are fields of Env,
-- and so is what the handlers of a transition queue: the queue that they leave, behind their transition. The
-- order in which a map gives its keys is an argument of TopologicalSort. A handler that panics is outside
-- the model. PrependMut takes a mutation with the tick that it has; the invariant of the queue is about
-- mutations that are prepended without one.
--
-- Not modelled: the execution of handlers in goroutines with their timeouts and panics, the subscriptions with
-- an index by state (When, WhenTime, WhenArgs) and WhenQuery,
-- locks other than queueProcessing, disposal in the middle of an operation, logs, debug steps and tracers,
-- which do not change the state, the traced Ev variants of the mutation methods, and every package other
-- than pkg/machine.
pub mod Base
pub mod Text
pub mod Slices
pub mod Schema
pub mod StateList
pub mod Names
pub mod Relations
pub mod Machine
pub mod Transition
pub mod Queue
pub mod System
pub mod Graph
pub mod Snapshot
pub mod Verify
pub mod Subscriptions
pub mod Time
pub mod Tests
