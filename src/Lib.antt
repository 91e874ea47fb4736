-- ===== src/Lib.antt =====
-- temporal-determinizer runs Go workflow code in an interpreter of go/ssa, inside a Temporal worker.
-- This library models the interpreter's values and operations, its deferred calls, the build of an
-- interpreted workflow function, and the combined contexts of the workflow API.
--
-- Parts, with the code that each is about (paths from the repository's root):
-- - Word: the integer types and Go's arithmetic on their bit patterns, as ops.go uses it. A value of a
--   w-bit type is a number below 2 ^ w; int, uint and uintptr have 64 bits.
-- - Types, Types/Identity: the types of go/types that the interpreter reads, and types.Identical.
-- - Value, Float: interpreter/internal/interp/value.go, one constructor for each dynamic type; floats
--   are bit patterns with the host's arithmetic as an interface.
-- - Heap, Memory: load and store of value.go and zero of ops.go. Elements of structures, arrays and
--   slices stand in cells, and a composite value is the address of its first cell with a length.
--   Memory/Layout says which cells a value owns and which tree of scalars it shows.
-- - Equality, Hash: equals, hash and the eq and hash methods of value.go. Interfaces may nest without
--   a bound: the functions run on fuel, one for each interface entered, and the theorems hold for
--   every amount of it.
-- - Hashmap: interpreter/internal/interp/map.go, over any key with hash and eq, and hashmapIter of
--   value.go. Hashmap/Laws has the invariant and the abstract map. Hashmap/Linked has the table
--   again with its entries as linked cells: the loops of lookup, delete and insert over them, and
--   the iterator that keeps a pointer to one of them meanwhile. A loop has fuel for each entry of
--   the bucket and for its end.
-- - Token, Ops, Unary, Consts, Convert, Conv, Utf8, Slices: binop, eqnil, asInt, asUint64; unop;
--   constValue; widen and conv, with the UTF-8 that they use; slice, append, copy and
--   sliceToArrayPointer, all of interp/ops.go.
-- - Assert: typeAssert and checkInterface of interp/ops.go, over the method sets of types.
-- - Frames: runDefer, runDefers, doRecover, the Defer instruction and the handling of a panic in
--   runFrame, of interp/interp.go. How a deferred call runs is an argument.
-- - Store, Maps: the maps, iterators and channels that values refer to; makeMap, lookup, MapUpdate,
--   rangeIter and the iterators of value.go.
-- - Print: writeValue and toString of value.go.
-- - Program, Visit, Elements, Channels: what interp.go reads of package ssa, with one constructor for each
--   instruction, and visitInstr on the instructions without a call.
-- - World, Builtins, Prepare, Steps, Calls: the stack of frames, callBuiltin, prepareCall, call, callSSA and
--   runFrame. `call` has fuel, one for each level of calls, which also bounds the blocks that a frame
--   runs; Calls/Fuel says that more of it changes no end. Calls/Touch, Calls/Late, Calls/Body
--   and Calls/Balance are about the stack.
-- - Globals, Interpret, Workflow: Interpret of interp.go, InterpretWorkflow of interp/temporal.go and
--   the function that BuildFunc of interpreter/build.go makes.
-- - Build: interpreter/build.go. Loading packages and building SSA is a parameter.
-- - Contexts: workflow/context.go. The SDK's contexts are a parameter; the goroutine that
--   withGoContext starts, and the ends of the two contexts, are a step relation.
-- - Activities: workflow/workflow.go, over the combined contexts.
-- - Symbols: LoadPackages, findReflectType and the tables of functions and types, of
--   interpreter/internal/dynreflect/symreflect/package.go. What is read with unsafe is a parameter.
-- - Externals: the functions of interp/external.go, and their table with what interp/temporal.go adds to
--   it. What the standard library computes is a parameter; floats are bit patterns.
-- - Reflect: the emulation of package reflect, interp/reflect.go.
-- - Prelude has the shared names, Tests the theorems at concrete inputs.
--
-- How the parts interact: Ops, Unary, Convert and Slices compute with Value and Word and read the Heap
-- of Memory; eqnil and the keys of Hashmap rest on Equality and Hash. A Store holds the Heap and what
-- else values refer to; Visit computes on it, and Calls on a World, which adds the stack of Frames.
-- How a call runs is an argument of the functions of Frames and Calls until `call` ties the knot.
-- Workflow composes Build, Globals and Calls.
--
-- Parameters: the host has the external functions, sends, receives and select on channels, spawned
-- goroutines, the order in which maps give their entries, what package fmt writes, the capacity of a grown
-- slice, the method sets of types, and which types package reflect makes and to which it assigns. Panics of the model's own bounds end a run out of fuel.
--
-- Not modelled: how goroutines take turns, which is behind the host's operations on channels; how a
-- walk over a hashmap sees changes in a program's run, where the host gives the order of entries;
-- the underlying type that initReflect gives to reflect.Value, since a type carries its own.
pub mod Prelude
pub mod Word
pub mod Types
pub mod Value
pub mod Float
pub mod Heap
pub mod Memory
pub mod Equality
pub mod Hash
pub mod Hashmap
pub mod Token
pub mod Ops
pub mod Contexts
pub mod Build
pub mod Slices
pub mod Convert
pub mod Unary
pub mod Frames
pub mod Assert
pub mod Utf8
pub mod Conv
pub mod Consts
pub mod Store
pub mod Maps
pub mod Print
pub mod Program
pub mod Elements
pub mod Channels
pub mod Visit
pub mod World
pub mod Builtins
pub mod Prepare
pub mod Steps
pub mod Calls
pub mod Globals
pub mod Interpret
pub mod Workflow
pub mod Symbols
pub mod Activities
pub mod Externals
pub mod Reflect
mod Tests
