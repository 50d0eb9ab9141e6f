-- ===== src/Lib.antt =====
-- AtlasFlow: a research agent that plans a graph of tasks, researches them in waves, reviews the
-- results, and writes a report, with a durable journal of every external call.
--
-- The parts and how they interact. A planner's plan is a value of `ResearchPlan`; the workflow
-- (backend/src/atlasflow/agents/workflow.py) hands its ready tasks to researchers wave by wave,
-- stops at a quorum gate, and asks a critic, whose decision is checked against the facts of the
-- run (backend/src/atlasflow/agents/contracts.py) and the rules for repairs and acceptance
-- (backend/src/atlasflow/agents/task_quality.py). A decision may add a supplement to the plan's
-- lineage or start a new version of the plan. Each external call and each node's result goes through
-- the runtime (backend/src/atlasflow/execution/runtime.py), which keeps one bundle per run. Tools are
-- called through a registry (backend/src/atlasflow/tools/registry.py), within a budget of calls and
-- past a guard against sites that keep failing. The knowledge base
-- (backend/src/atlasflow/knowledge) cuts documents into parent and child chunks, indexes them by
-- jobs, and replaces the whole index of a space by a build that is published or cancelled.
--
-- The files:
--   Base            shared names: tests on numbers, lists, texts, sets as lists, dicts, and code
--                   that returns or raises (`Outcome`).
--   Contracts       agents/contracts.py: one file per class or group of classes; `validate_x` is the
--                   constructor of the class x with its validators, `x_fields_ok` its `Field`s.
--   TaskQuality     agents/task_quality.py, under the functions' own names.
--   Chunking        rag/hybrid.py, `chunk_text` (Windows), and knowledge/ingestion/chunker.py: Tokens
--                   (the matches of the token pattern), Structure (sections and groups), Chunks
--                   (`chunk`); Packing, Sections and Linking reason about them.
--   Evaluation      evaluation/budget.py.
--   Execution       execution/runtime.py, ports.py and contracts.py. An operation takes the bundle
--                   and returns the new one; Steps has a step for each operation, and Fencing, Budget,
--                   Replay, Recovery and the children of Outbox reason about them.
--   Knowledge       knowledge/domain/models.py (Models), domain/build_validation.py (BuildChecks,
--                   BuildContents) and infrastructure/memory_repository.py: Repository (its state,
--                   spaces and documents), Versions, Builds, Generations and Jobs. An operation
--                   takes the state and raises, or returns its result and the new state. Targets,
--                   Publishing, Released, Cancelling, Ended, Locking, Activation, JobParts,
--                   JobSteps and Claiming reason about them, Filing about values kept under their
--                   own ids.
--   Tools           tools/registry.py (Registry, with its runs in Retries), `ToolBudget` of
--                   agents/tool_runtime.py (Budget) and agents/tool_failures.py (Failures).
--   Workflow        agents/workflow.py: `AgentState` with its reducers, Schedule (the scheduler and
--                   the review's facts), Decisions (the gate), Critic, QualityGate (from the model's
--                   answer on; what the review of a report does to the answer is an argument),
--                   Planning (planner, approval, routers), Merging (the results' reducer), Progress,
--                   Facts (the review's groups of ids) and Bounds with the runs of the graph that
--                   start at the planner. A node takes the state and returns it with the node's
--                   update merged. Of the synthesizer and the finalizer, Bounds has only that they
--                   write no entry of the plan and its counts.
--                   A file that has outgrown its subject has a child with what comes first in it
--                   (Manifests, Staging, Editing, Replayed), whose names it passes on.
--   X/Tests         the theorems at concrete inputs; Contracts/Samples has the values.
--
-- Numbers and texts. Numbers are naturals; a confidence, a coverage and the quorum count
-- ten-thousandths, so a ratio is compared exactly. A text is its characters. Blanks around texts
-- are stripped before a value reaches the model. A set is a list whose order and repetitions do not
-- matter to what is asked of it. Points in time, drawn ids, digests and Unicode's classification of
-- characters are arguments.
--
-- Fuel. The depth-first search for cycles runs on fuel, one more than the number of tasks; running
-- out would be an error of its own, `out_of_fuel`. `decimal_within` gets one more than the number
-- that it writes. `windows`, the loop of `chunk_text`, gets as many rounds as the text has characters, and
-- `pieces`, the loop of `_split_block`, as many as the text has matches; each round takes one at least.
-- The retries of a tool are counted down.
--
-- Not modelled: calls of language models and tools, the texts of error messages, events, locks (each
-- operation on a bundle is atomic, as `ExecutionRepository.mutate` promises, and so is each operation
-- of the knowledge repository and of the budgets), the storage backends, among them the PostgreSQL
-- repositories, reports, parsing, retrieval with its floating-point scores, the evaluation but for its budget, the
-- tool loop around the model, the HTTP interface and the frontend. A failing operation of the
-- knowledge repository is taken to change nothing: the source makes its checks before it assigns.
pub mod Base
pub mod Chunking
pub mod Evaluation
pub mod Tools
pub mod Contracts
pub mod Execution
pub mod Knowledge
pub mod TaskQuality
pub mod Workflow
