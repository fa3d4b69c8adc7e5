-- ===== src/Lib.antt =====
-- Ř is a just-in-time compiler for R. R closures are compiled to the RIR bytecode, interpreted, and
-- profiled; hot ones are compiled through the intermediate representation PIR to native code,
-- specialized for a context of the call. A closure holds a dispatch table of such versions; a call
-- computes its context and dispatches to the best version whose context it satisfies. A version
-- that fails an assumption is deoptimized: the reason is recorded in the profile of the baseline,
-- and the version is disabled. This library models the parts of that cycle which carry their own
-- logic, and the containers that they and the compiler stand on.
--
-- The parts, the files that model them, and the code:
--   EnumSet, EnumSet/*: rir/src/utils/EnumSet.h. A set is the number of its word; the template
--     parameters are the record Enum. `set`, `reset`, `contains`, `includes`, `|`, `&`, `~`, `/`,
--     `count`, `max`, and the iterator as a search from a position.
--   Bytecode, Bytecode/*: rir/src/bc/insns.h and BC_inc.h, the table of instructions with their sizes
--     and effects on the stack; BC.cpp and CodeStream.h, decoding an instruction from the bytes of a
--     code object, its size and the jumps (Decode), and writing one to a stream with a placeholder
--     for the offset of a jump (Write, Operands).
--   Verifier, Verifier/*: rir/src/bc/CodeVerifier.cpp and the search for sources of
--     rir/src/runtime/Code.cpp. Verifier is calculateAndVerifyStack, with the map of states as an
--     association list and the queue as a list; Checks and Layout are verifyFunctionLayout, whose
--     constant pool is a length and a memory that is read without a check. Accepted describes an
--     instruction that it wants, without its check functions. Run says
--     what a run of the code is, with its stack height, independently of the verifier. The build is
--     one with assertions: a failed assertion is a failure, as is an R error.
--   PirType, PirType/*: rir/src/compiler/pir/type.h and type.cpp. A type is a word of flags and a
--     word of members: isSuper, the operators | and &, the named types and those with a property
--     added or taken away (Named, Results), merge and fromContext (Observed). Included says
--     what a type that includes observed values has, and Promises which types of arguments keep what
--     a context says. The numbering of the
--     types of R values is a parameter.
--   Context, Context/*: rir/src/runtime/Context.h and Context.cpp. A record of the flags, the type
--     flags and the count of missing arguments. `smaller` is the dispatch order, `less` the operator<
--     that tables are sorted by, `join` and `meet` the operators | and &, `is_improving` isImproving.
--   Function, Function/*: rir/src/runtime/Function.h and Function.cpp. A version with its flags and
--     counters: inheritFlags, registerDeopt, registerDeoptReason, registerInvocation and its end,
--     clearDisabledAssumptions.
--   DispatchTable, DispatchTable/*: rir/src/runtime/DispatchTable.h. A list of versions with the
--     baseline in front: dispatchConsideringDisabled, insert with eviction, remove, contains, best,
--     newWithUserContext, combineContextWith. The random number of an eviction is a parameter.
--   TypeFeedback, TypeFeedback/*: rir/src/runtime/TypeFeedback.h and TypeFeedback.cpp, with the
--     extra pool of rir/src/runtime/Code.cpp: what record_test_, record_type_ and record_call_ note,
--     and DeoptReason::record. R itself is the parameter Api: TYPEOF, XLENGTH, ATTRIB and so on, with
--     the pointer comparison as an instance of Eq.
--   ArglistOrder, ArglistOrder/*: rir/src/runtime/ArglistOrder.h. The words behind the object are a
--     function from an index, on memory that is not initialized.
--   Range, Range/*: rir/src/compiler/analysis/range.h and range.cpp. The six ranges with get and merge,
--     the merge of states, applyEntry and apply. An int is its distance from INT_MIN; the ranges of
--     scalar constants are a parameter.
--   SmallMap, SmallMap/*: rir/src/utils/Map.h. The vector of pairs with a hash index from the ninth
--     entry on.
--   SmallSet, SmallSet/*: rir/src/utils/Set.h.
--   Pool, Pool/*: rir/src/utils/Pool.h and Pool.cpp over rir/src/interpreter/instance.h: the constant
--     pool, with its calls as a step relation.
--   FormalArgs, FormalArgs/*: rir/src/utils/FormalArgs.h.
--   Prelude, Prelude/*: names of the libraries, Boolean tests, lists and arrays over the native
--     numbers, bits, a lexicographic order, keys with an equality test, distinct elements.
--   Tests, Tests/*: runs of the model, and the theorems at concrete inputs.
--
-- How they interact: Context is sets of EnumSet; Function and DispatchTable are made of contexts; a
-- deoptimization of TypeFeedback updates the Function of its origin; the state of Range is an
-- association list with the lemmas of SmallMap. The verifier decodes with Bytecode. The flags and
-- members of a PirType are sets of EnumSet, which observed values of TypeFeedback widen and the facts
-- of a Context narrow.
--
-- Bounds and fuel: machine words wrap where the source's do (`% 2 ^ w`), and counters saturate where
-- the source tests for their limit. `insert` of a dispatch table calls itself after an eviction, and
-- takes fuel for that: two rounds are enough, since an eviction leaves room. `max` and the iteration
-- of a set take the number of values that are left as fuel. In calculateAndVerifyStack the walk along
-- one path takes one round for each byte of code and one more, and the queue a round for each state
-- that a walk may push, `code_size * (code_size + 1)`, and two more. The scan of
-- verifyFunctionLayout has a round for each byte and two, which is enough where it comes by no byte
-- above `num_of`: it advances at each instruction, but stays for ever at such a byte, and the model
-- runs out of fuel there. Its list of code objects grows by promises: there is fuel enough if no
-- promise contains itself. All other loops are
-- structural. A failed assertion or an R error is `none`, or a failure in the verifier; the assertions
-- on the operands of EnumSet and PirType are hypotheses of the theorems.
--
-- Not modelled: printing, hashing and serialization of these objects, since they are input and
-- output; the layout of the objects in R's heap and the garbage collector; labels and removal in a
-- stream of bytecode, and the factory methods of instructions; isInstance and the type of a value of
-- R, which ask R; the bytecode compiler, the interpreter, the graph of PIR with its other analyses and
-- passes, and the native backend, which are not reached yet; the R runtime and LLVM, which are other
-- projects.
mod Prelude
pub mod EnumSet
pub mod Bytecode
pub mod Verifier
pub mod PirType
pub mod ArglistOrder
pub mod Context
pub mod Function
pub mod DispatchTable
pub mod SmallMap
pub mod TypeFeedback
pub mod Range
pub mod Pool
pub mod SmallSet
pub mod FormalArgs
mod Tests
