-- ===== src/Lib.antt =====
-- function-hcl: a Crossplane function that evaluates a DSL built on HCL, its formatter, and a
-- language server for the DSL.
--
-- The evaluator walks a composition. processGroup visits the blocks of a body; locals are
-- evaluated first, in the order of their dependencies, then the condition, then each block adds
-- to the state of the evaluator: desired resources with their readiness, statuses and connection
-- details of the composite, context values, requirements, and a list of what was discarded and
-- why. Each handler yields diagnostics, and an error ends the loop that it stands in.
--
-- Parts and files:
-- - Base: Boolean tests on native numbers, decidable equality, lists, Go maps as association
--   lists. The order of such a list is the order in which `range` visits the map, so that what
--   holds for each list holds for each order.
-- - Hcl: diagnostics, evaluation contexts and function/internal/evaluator/hclutils/hclutils.go.
--   The operations of the HCL library are the fields of the record `Hcl`, a parameter of the
--   model, with what is documented of them as laws.
-- - Json: decoded JSON documents and reflect.DeepEqual.
-- - Locals: function/internal/evaluator/locals/locals.go: collecting the locals, their
--   dependencies, the check for cycles and the evaluation. Locals.Spec says what a solution is;
--   Locals.Paths, Calls, Declared, Evaluate, Process and Cycles hold the proofs.
-- - Evaluator: function/internal/evaluator, by file: the state of api.go in Evaluator, schemas.go
--   in Schemas, the shared parts of eval.go and utils.go in Common, composite.go, context.go and
--   processReady in Blocks, resources in Resources, collections in Collections, requirements.go in
--   Requirements, processGroup in Groups. The operations of cty, JSON, protobuf and base64 are the
--   fields of the record `Cty`. A handler takes the state and yields a result with the next state,
--   or nothing where the source panics. Frame and Steps show what each handler keeps; Yields and
--   Accounted what becomes of a resource; Selectors what becomes of a requirement; Fuel that the
--   fuel of processGroup suffices. Variables is vars.go, with the laws of the JSON and Kubernetes
--   calls in the record `Wire`; Collected is about the resources of collections. Response has
--   toResponse, addDiagnosticsInfo and mergeResponse of function/internal/fn/fn.go, with the
--   source ranges of diagnostics in the record `Ranges`; Run is makeContent and doEval behind the
--   functions, Evaluate the whole of doEval, Severity its sort of diagnostics. Analyzer is
--   checkStructure of analyze.go; Analyzer.Added and Analyzer.Unique are about the names it lets
--   through, Analyzer.Fuel about its fuel. Analyzer.References is checkReferences and
--   analyzeContent, Analyzer.Bodies the rest of analyze.go; what the checks read of syntax trees
--   is the record `Syntax` of Hcl.Traversal. Analyzer.Resolve, Checks, Visits, Calls and Accepted
--   show what the analyzer accepts, Enough that its fuel suffices.
-- - Functions: function/internal/evaluator/functions, calls of user functions. HCL's evaluation
--   of a function calls back, so it is given as the sequence of its calls, `Evaluation`, by the
--   record `Programs`. Depth is about the limit on calls in each other, Arguments about the
--   arguments. Load reads the functions from their blocks and checks their references; Read and
--   Loaded are about what it accepts.
-- - Events: language-server/internal/eventbus: topics over Go channels. Runs has the steps of
--   subscribers and of publications that go on at the same time; Delivery says what arrives,
--   Settling, Progress and Liveness that publications end.
-- - Unify: unify and unifyBytes of function/internal/evaluator/utils.go, which merge the objects
--   that several blocks contribute. Bytes has the proofs on unifyBytes, Depth those on the depth
--   of objects.
-- - Format: function/internal/format/format.go: the loop over the tokens of an attribute. Grammar
--   has the well nested expressions that the results speak of.
-- - Queue: language-server/internal/utils/queue/queue.go. Each operation under the lock is a
--   function on the queue; Steps has the steps of clients and workers, in any order; Dedupe the
--   invariant.
-- - Document: language-server/internal/document: Source has the lines of a text and the offsets
--   of positions, Change the edits, Store the store of open documents. Lines, Offsets, Edits and
--   Store.Consistent hold the proofs. HCL's scanner of positions, the UTF-8 scanner and Go's
--   code points are the fields of the record `Text`.
-- - Tokens: language-server/internal/langserver/lsp/token_encoder.go: semantic tokens as numbers.
--   Protocol has the way a client reads them, from the specification of the language server
--   protocol; RoundTrip the proof.
-- - Crds: language-server/internal/features/crds/store and
--   language-server/internal/resource/api.go: the store of custom resource definitions. Each job
--   of its one worker is a function on the two maps; the file system is the record `FileSystem`,
--   with the order in which the files of a source are visited.
--   Propagate is about the jobs, Compose about sets of schemas.
--
-- Fuel: eval of the locals has one more than there are locals, which is enough as a path holds no
-- local twice; processGroup has one for each level of nested groups, and its results do not depend
-- on it beyond the depth of the body; checkStructure, analyzeContent and checkFunctionRefs too;
-- unify has one for each level of its objects; a call of a user function needs as much as is left
-- of the 100 levels; the loops over a text have one for each of its bytes.
--
-- Diagnostics keep their severity and the parts of their text; their source ranges are a
-- parameter where the response needs them. Not modelled: the built-in functions (bodies over
-- cty values), reading of files and archives, the rest of the language server, the command line
-- and the editor extensions.
pub mod Base
pub mod Hcl
pub mod Json
pub mod Unify
pub mod Locals
pub mod Evaluator
pub mod Format
pub mod Queue
pub mod Document
pub mod Tokens
pub mod Crds
pub mod Functions
pub mod Events
