-- ===== src/Lib.antt =====
-- The execution runtime of millforge, the validation of harness graphs in its compiler, and the text and path
-- tools of its harnesses. The compiler checks the graph of a harness's nodes and their prerequisites.
-- The runtime loads a compiled harness, checks it against a request, calls a backend for a session,
-- writes artifacts, and returns a result.
--
-- The parts and their files. src/millforge/… names a path from the root of the repository.
--   Prelude         shared names: the libraries', Boolean tests on native numbers, Python's tests
--                   on text.
--   Runtime.States, Contracts, Payloads
--                   the enumerations and records of src/millforge/contracts.py that the runtime
--                   reads and builds, its two enumerations of src/millforge/runtime.py, and the
--                   payloads that it writes. The validator of `HarnessExecutionResult` is
--                   `check_result_class_invariants`.
--   Runtime.Classify
--                   the classification tables of src/millforge/runtime.py.
--   Runtime.Effects the monad of the runtime: `Rt` is the state of `DefaultHarnessRuntime`, with
--                   the flags of `execute` and the effects so far; an action goes on, returns from
--                   `execute`, or raises; Python's exceptions are `Exn`, with one `ExnKind` for
--                   each class that some `except` clause tells apart. `Env` holds the collaborators
--                   that the constructor and the operating system supply: clock, cancellation
--                   token, plan loader, backend, artifact writer and file system. A call of the
--                   file system may raise.
--   Runtime.Machine `_transition_to` and `_enter_non_terminal_finalizing`.
--   Runtime.Preflight
--                   the checks of the request, the plan and the input artifacts, the deadline, and
--                   the run directory.
--   Runtime.ArtifactRefs, Artifacts
--                   the standard artifacts and their references (with src/millforge/artifacts.py),
--                   and the order of the writes before and after the commit.
--   Runtime.Results the result factories and the two finalizers.
--   Runtime.Terminal
--                   `_validate_session_result` and `_validate_terminal_intent`.
--   Runtime.Clauses, Guard, Steps, Execute
--                   the `except` clauses of `execute`, its closure `fail`, its steps 1 to 15, and
--                   the rest of it.
--   Runtime.Logic, Quiet
--                   postconditions of actions, and actions that leave the machine, the sessions and
--                   the terminal results alone. The modules below a component hold its lemmas.
--   PiCompat        src/millforge/tools/pi_compat: Truncation is truncation.py, with its limits
--                   as naturals, LineEndings the line endings and the byte order mark of
--                   editing.py, and Replacements its matched edits; a text is the list of its code points.
--   Compiler.Source, Diagnostics
--                   the nodes of src/millforge/compiler/source.py, and the registry, construction
--                   and order of src/millforge/compiler/diagnostics.py. A step that may raise is
--                   `Fallible`: `value_error` is pydantic's ValidationError, and `stuck` a KeyError
--                   or a walk out of fuel. Diagnostics.Bound is `bound_diagnostics`.
--   Compiler.Capabilities
--                   src/millforge/compiler/capabilities.py.
--   Compiler.Collections
--                   Python's sets, dictionaries and `sorted`.
--   Compiler.Graph  src/millforge/compiler/graph.py: Graph has the pairs and the two adjacencies,
--                   Cycles Tarjan's walk (`Tarjan` is its state), Satisfiable and Reach the other
--                   walks, Arguments the argument matches, and Validate `validate_harness_graph`.
--                   Walks and Edges say what these are compared with.
--   Tools.PathPolicy
--                   the lexical check of src/millforge/tools/path_policy.py; a text is the list of its
--                   code points.
--   Runtime.Sample, and Tests in all four
--                   runs on a small harness, on small graphs, paths and short texts, and the theorems
--                   at them.
-- The trees share no state: the runtime executes what the compiler has accepted and lowered, and a
-- harness uses the text tools inside its session.
-- In Runtime, PiCompat and Tools nothing loops but structurally over lists (the input artifacts, the selected
-- output requirements, the writes after the commit, the lines and characters of a text), so there is no
-- fuel there. The walks of Compiler.Graph take fuel: Tarjan's one more than the adjacency's keys
-- and targets, since each call visits another node; `satisfiable` one more than the nodes, since
-- the calls that wait are for different nodes outside the cycles; the blocked walk the unresolved
-- nodes and all targets; the walk to the ancestors all entries of the dictionary. The theorems of
-- the walks say that it is enough.
--
-- What stands for what: a float of seconds and an instant are naturals in one unit; a JSON value is
-- its canonical text; message templates keep their placeholders. Each reading of a clock or the
-- token, and each awaited call, is numbered, and its answer may depend on the number.
--
-- Not modelled: the JSON schema check of a selected output (`Env.admit_value`), the parsing of ISO
-- instants, the construction checks of pydantic models other than the result's and the timing's,
-- the texts of ISO timestamps, the redacting regular expressions of diagnostics (`Redaction`), the
-- canonical bytes of a property's schema (an argument of `validate_harness_graph`), the size of a
-- serialized report (an argument of `bound_diagnostics`), Python's recursion limit, and the parts
-- of the program besides these: the rest of the compiler, the other tools, the connectors, the
-- model backend and the evaluation suite.

pub mod Prelude
pub mod Runtime
pub mod PiCompat
pub mod Compiler
pub mod Tools
