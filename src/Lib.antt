-- ===== src/Lib.antt =====
-- The agent service of a production line of survey products: it diagnoses what blocks an order, drafts
-- a review or a rework, lets a user confirm the draft, and only then writes it back.
--
-- Paths below are from agent-service/app. Files of this library stand for parts of it as follows.
--   Approval: the confirmation of a write. `Draft` is schemas/approval.py with the citations of
--     schemas/knowledge.py; `Record` is the row of models/approval.py; `Store` the statements of
--     repositories/approval.py; `Service` and `Drafting` are the operations of
--     services/approval_lifecycle.py under their own names. `Diagram`, `Rows`, `Safety`, `DraftSafety`,
--     `Outcomes`, `Moves`, `Execution` and `Guarantees` hold the state diagram, the rule of the
--     table and the proofs.
--   Runs: the run of a request. `Record` is the run of models/agent_runtime.py and the usage of
--     schemas/run_observability.py; `Service` has the statements of `AgentRunRepository` in
--     repositories/agent_runtime.py and the helpers of services/run_lifecycle.py; `Operations` has its
--     operations under their own names. `Diagram`, `Kept`, `Changes`, `Safety`,
--     `OperationSafety` and `Guarantees` hold the proofs.
--   Routing: the business objects of a message. `Entities` has the candidates of
--     routing/entity_merge.py with the records of schemas/routing.py and schemas/session.py, and
--     `Merge` its choice among them; `Catalog` is routing/intent_catalog.py, and `Decision` and `Router`
--     are routing/decision.py with the validators of schemas/routing.py: the decision takes what the
--     merge returns, and what `Composition` says of that is what `Totality` asks for. `Groups`,
--     `Priority`, `Rivals`, `Message`, `Collection`, `Precedence`, `Questions`, `Dispatch`,
--     `Totality`, `Consistency`, `Composition`, `Selection`, `Confirmable` and `Confirmation` hold
--     the proofs. A confidence is of any type with a comparison. The entities of a message or a page are the function from a
--     field's name to its value.
--   Workflow: the deterministic part of a diagnosis. `Facts` are the results of the tools in
--     schemas/tools.py and the channels of the state in schemas/workflow.py; `Rules` is
--     workflows/diagnosis_rules.py and `Gaps` is workflows/information_gaps.py. `Completeness`,
--     `Reviews` and `Stages` relate them. `Generation`, `Diagnoses` and `Report` are
--     workflows/diagnosis_generation.py with the results of schemas/workflow.py, up to the
--     lengths of texts and the form of ids: the ids in a state have been checked by the schemas of
--     the tools and by `initialize`, and have at most 128 characters; `Reported`,
--     `Found`, `Generated`, `Conclusive`, `Conclusions` and `Diagnosed` hold the proofs on it.
--   Agent: the loop of the dynamic diagnosis. `Actions` is schemas/action.py with the observations of
--     schemas/workflow.py; `State` has the page of schemas/context.py, the channels of the state, and
--     what the workflow is built with; `Decider` is workflows/action_decision.py; `Nodes`,
--     `Effects`, `Merging` and `Graph` are
--     the nodes and the edges of workflows/dynamic_diagnosis.py, over the rules and the detector of
--     Workflow; `Equality` compares facts. `Invariants`, `Planning`, `Checking`, `Acting`, `Saving`,
--     `Ending`, `Guarantees`, `Decisions` and `Reach` hold the proofs. A run has as many steps as LangGraph's recursion limit,
--     a parameter; five nodes for each round of the budget and three more are enough. What the model and the tools do in a round is a function of the round and the
--     state; a tool, and the sink of the events, may raise.
--   Knowledge: the documents that answers are grounded on. `Paragraphs`, `Sections` and `Chunking` are
--     knowledge/chunking.py: the pieces of a section, the sections of a Markdown document, and the
--     chunker with the ids. `Visible`, `Cuts`, `Gaps`, `Headings`, `Outline`, `Identities` and `Chunks`
--     hold the proofs.
--   Tools: the calls of the business service. `Retry` is tools/retry.py with errors.py and the loop of
--     `_execute_with_retry` in tools/base.py; `Ledger` is tools/deduplication.py; `Execute` is `execute`
--     of tools/base.py with the results of tools/models.py. `Delays`, `Attempts`, `Gates` and `Repeats`
--     hold the proofs.
--   Base: texts as lists of code points, dicts as association lists in insertion order, results, the
--     monad of calls that raise and write, coroutines that share a database (`Worlds`), the reasoning
--     about them (`Safety`), and tables with a rule for each row (`Tables`).
--
-- An operation of a service is a sequence of statements, each of them atomic. Before a statement other
-- transactions may act: the environment holds a function that changes the database at each turn, and a
-- clock whose times may lack a zone. The theorems on the services assume of the others that they keep
-- the rule of the table from valid states, the rule that the calls of the service follow themselves.
-- An error is a value, and what was written before it stays written.
--
-- Parameters stand for what is not code of the repository: Pydantic's reading and dumping of drafts,
-- the standard encoding of JSON objects, the conversion of a duration to whole milliseconds through a
-- float, and the foreign keys to rows of other tables. Times are microseconds. Row timestamps that the
-- database fills in, the cache of the ORM session, and the rollback of a caller are not modelled; a
-- read sees the database as it is.
--
-- Not modelled: steps, sessions and messages, the orchestration of approvals, the single tools,
-- knowledge search and storage, the graphs of the other
-- workflows, the rewriting of a diagnosis by a model, the summaries of observations, the storage of
-- events, evaluation, the HTTP interface and the command line. The frontend and the Java service are other programs.
pub mod Base
pub mod Agent
pub mod Approval
pub mod Knowledge
pub mod Routing
pub mod Runs
pub mod Tools
pub mod Workflow
