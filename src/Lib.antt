-- ===== src/Lib.antt =====
-- zanbato: a compiler and evaluator for Kaitai Struct, whose schemas describe binary formats.
--
-- The program reads a schema, turns it into structs with typed attributes (kaitai, kaitai/types),
-- parses the expressions in it (kaitai/expr), and evaluates them against a parsed stream or generates
-- code for them (kaitai/expr/engine, kaitai/eval, kaitai/emitter). This development models the parts
-- that decide what a schema means: the expression language, the operators on values, the kinds of
-- attribute types, the parser of type names, the translation of schemas into structs, the sizes and
-- gaps that follow from a struct, and the stripping of bytes that are read.
--
-- - Base: lists, integers, digits, and the parameters. Text is the list of its runes; what Go reads as
--   bytes of a string literal is a list of bytes. Base.Platform holds what the program takes from Go's
--   libraries and is not defined here: the Unicode tables beyond ASCII, and big.Float.
-- - Compat: kaitai/compat.go.
-- - Expr: kaitai/expr/expr.go. Ast has the nodes, Print their String methods, Lexer the methods below
--   number(), Number number(), Head the first switch of expr(), Operators its loop's switches, and
--   Parser the methods that call one another, and ParseExpr. A parser takes the runes that are left and
--   returns a tree and the rest, or the panic that ParseExpr recovers. `expr depth` is expr(depth), and
--   `saw_compare` the loop's sawCompare. The mutual recursion runs on fuel: four units for a rune and
--   four more, each call costing one.
-- - Engine: kaitai/expr/engine/evaluate.go. Value has the runtime values, Integers the operations of
--   big.Int, Compare the function Compare, Operators evalUnary, evalBinary, evalTernary and the
--   operators they switch over. An operand is the result of its evaluation, an error included.
-- - Types: kaitai/types. Kind has the kinds and Promote, TypeRef the references and the folding of byte
--   orders, Parse and Parse.Split the parser of type names, Attr ParseAttrType and ParseRepeat. A
--   pointer is an option; a nil dereference and a slice out of bounds are the result `crash`. A map is
--   the list of its entries in the order in which the loop visits them.
-- - Schema: kaitai/struct.go, attr.go, enum.go and the specs of kaitai/ksy as records. Translate is
--   kaitai/parse.go behind the decoding of YAML, on a spec of any depth; Inversion takes a translation
--   apart, Encodings, Strings and Names are about its encodings and identifiers, and Setters about the
--   assignments of ParseAttrType that a string goes through. A spec and its nested types are two data
--   types, over the fields that do not nest.
-- - Engine.Sizes: kaitai/expr/engine/sizeof.go. One pair of functions by the sizes of types is both
--   computeStructSizeStaticHelper and computeStructBitSizeHelper; the limit of ten levels is the
--   source's. Sums wrap at 64 bits by `to_int64`. Exact and Scale have sums of natural numbers without
--   limits, and Widths the widths that they are sums of.
-- - Engine.BitAlign: kaitai/expr/engine/bit_align.go. The width of a run is a number without bound: a
--   sequence whose bits exceed an int cannot be held in memory.
-- - Engine.Context: kaitai/expr/engine/context.go. Symbols is the construction of the graph of symbols, in
--   a heap that gives out addresses in order, Resolve the resolution of names. Keeps and Built say what
--   NewStructSymbol leaves and makes, Paths and Members what is found in it. The loops along the
--   definition parents run on as much fuel as there are addresses, and Descends says why that is enough.
-- - Engine.EvalContext: kaitai/expr/engine/evalcontext.go. A pointer that keys a map is its address; a
--   nil stack is no frame, and its dereference `none`. History reads a context off the operations it
--   went through.
-- - Engine.Builtins: kaitai/expr/engine/builtin.go, the methods of values whose result does not depend
--   on a stream. Go's conversions of strings to runes and back are a parameter.
-- - Eval.Strip: kaitai/eval/strip.go. The stream is a record of the two calls that are made of it, and
--   Units says which laws these have; the loop runs on fuel, of which one unit more than there are
--   bytes left is enough.
-- - Eval.Encoding: kaitai/eval/encoding.go, and what readStringBytes of kaitai/eval/readtypes.go strips.
-- - Eval.Value: kaitai/eval/value.go and lookupEnumLabel of kaitai/eval/resolve.go, behind the search of
--   the enumeration's name. An int64 is an integer in its range, a float64 its 64 bits.
-- - Eval.Read: the cases of readSingle in kaitai/eval/readtypes.go that read numbers. The functions of the
--   stream are a record; the node's positions are left out.
-- - Eval.Switch: the choice of a case in readTypeSwitch and readRepeatedSwitch of kaitai/eval/readtypes.go
--   and in resolveEndianSwitch of kaitai/eval/resolve.go. The value of a case, MustParseExpr and
--   evaluateExpr on its text, is a parameter, as is the value that is switched on, which is not nil.
-- - Eval.Repeat: readRepeated and readArrayElement of kaitai/eval/readtypes.go, over a record of what they
--   call, and Repeat.Numbers, where the elements are the numbers that readSingle reads from the runtime
--   library's stream. The loops over eos and until run on fuel, of which one unit more than there are bytes
--   is enough where elements are not empty; the program reads an empty element for ever.
-- - Eval.Nodes: kaitai/eval/node.go and tree.go. A node is its address and the store a function of
--   addresses; the set of a map's keys is the list of them in the order of the loop. Nodes.Sets has the
--   sets, Dirty the operations, whose recursion runs on as much fuel as there are addresses and one
--   more; Touch and Visit follow markDirty, Laws, Edits and Histories say what it comes to. Nodes.Tree has
--   the nodes that NewTree makes, as a tree, with SetStream; what they have of their parents is copied.
-- - Eval.Process: kaitai/eval/process.go, applyProcess and the processes xor, rol and ror. A byte is a
--   number below 256; the evaluation of arguments, zlib and the registered handlers are parameters.
-- - Eval.Path: kaitai/eval/annotation.go, the paths of annotations as text.
--
-- Not modelled: the types of expressions (kaitai/expr/engine/value.go), evalNode, and the sizes that ask a
-- context for names; of the built-in methods reverse, to_i of strings, floats and enumeration values,
-- to_s of bytes, and those of streams; the rest of kaitai/eval, which reads streams and keeps the nodes
-- of the tree; the emitters, which generate text; and the commands and the web client, which are glue.
-- YAML, files and the decoders of text are calls of other libraries.
pub mod Base
pub mod Compat
pub mod Expr
pub mod Types
pub mod Engine
pub mod Eval
pub mod Schema
