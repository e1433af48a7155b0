-- ===== src/Lib.antt =====
-- The RUNE agent: traceability between requirements, designs and tests, inferred by a pipeline and
-- reviewed by people. This library models the part that guards the approved graph: the queue of
-- proposals and the decisions on it, the graph that the decisions write to, the API in front of
-- them with its users, keys and audit register, the improvements that feedback leads to, and the
-- gateway through which requests to models pass; and the parts that feed the queue and read the
-- graph: requests to sources, candidate edges, findings, and the views of chains and neighborhoods.
-- Paths are from the repository's root.
--
-- Base.antt passes on the library's names, with tests on numbers and text, lists, Python's dict as
-- an insertion-ordered association list, text and stable sorting below it. Exec.antt is the monad
-- of methods that change an object and may raise; what was written before a raise stays written.
--
-- Ontology.antt is src/req_tracker/ontology/models.py, Feedback.antt is feedback/models.py there
-- and Feedback/Candidates.antt is feedback/service.py. Approvals.antt is approvals/models.py;
-- Approvals/Service.antt is the staging half of approvals/service.py with reasoning/scoring.py, and
-- Approvals/Decision.antt its method `decide`, of which the branches are `carry_out`, and the two
-- closing steps `settle` and `expire`; `file_feedback` is the end of `settle`, which may raise. The
-- state of both is `Desk`, the service with the graph that it writes to; Graph/Memory.antt is
-- graph/memory_backend.py. Audit.antt is audit/models.py and the recording and pruning of
-- audit/service.py.
--
-- Api/Security.antt is api/security.py, a request being its headers; Api/Idempotency.antt is
-- api/idempotency.py; Api/Runtime.antt is the part of api/state.py that the commands change, the
-- state store being a dict of collections; Api/Approvals.antt is api/routes/approvals.py, and
-- Api/Improvements.antt with Api/Improvements/Commands.antt is api/routes/feedback.py. Evals.antt
-- is evals/datasets.py, metrics.py and runner.py.
--
-- Debug.antt and Debug/Traces.antt are debug/models.py and traces.py. Gateway.antt is
-- model_gateway/models.py and policy.py, Gateway/Client.antt the attempts of client.py,
-- Gateway/Client/Calls.antt its method `complete` with structured_output.py and the writing of
-- debug/artifacts.py, and Gateway/Registry.antt is registry.py.
--
-- Graph/Chain.antt is the search of graph/chain.py, and Graph/Chain/View.antt its function
-- build_traceability_chain; below it, Ending is about the end of the search, Distance about its
-- depths, and Links about its neighbors. Graph/Projection.antt holds the views, degrees and risks
-- of graph/projection.py, Graph/Projection/Select.antt its searches and filters, and
-- Graph/Projection/Build.antt what is put together from them. Adapters.antt and Adapters/Retry.antt
-- are the request error and the raw artifact of adapters/base.py and the loop of adapters/retry.py.
-- Reasoning.antt and Reasoning/Links.antt are ontology/id_factory.py and reasoning/linking.py,
-- Reasoning/Extraction.antt is reasoning/extraction.py, Findings.antt and Findings/Sources.antt are
-- findings/rules.py, Ingestion.antt is ingestion/chunking.py, and Debug/Diff.antt is debug/diff.py.
--
-- A file below a component proves; files called Samples and Witnesses run on concrete inputs.
--
-- What the code takes from other packages is a parameter. `Contracts` holds what the approval code
-- uses of pydantic, json and SHA-256, `IsPydantic` the documented behaviour that a proof relies on,
-- and Approvals/Samples.antt an instance of both. A provider of models is any function on the state
-- behind it that answers or fails. `datetime.now(UTC)` is an argument, and so are new ids and the
-- hash of a request's payload. An HTTPException keeps its status code and the message of its
-- detail.
--
-- Numbers: timestamps count microseconds, confidence scores hundredths, rates of the gate
-- ten-thousandths and costs millionths, and the bounds that the code compares them with are exact
-- in these units; a sleep between requests counts hundredths of a second. The retries of the
-- gateway and the whole numbers of the metadata may be negative (Base/Integers.antt), those of the
-- sources may not. The loops are recursions on a list or on a number but for four, which take fuel:
-- the search of a chain takes as many rounds as nodes may be selected, the search of a neighborhood
-- two rounds and one for each end of an edge, the requests to a source one round more than there
-- are retries, and the cutting of a text one round for each character. That the fuel is enough is
-- part of the results. The rank of a role is shifted by one, since the code takes -1 for an unknown
-- one. Python's casefold, lower and substring test on arbitrary text are parameters, and so is the
-- text of an arbitrary metadata value, isdigit and int; a set is a list without repetitions.
--
-- Not modelled: the fields schema_version, the aliases of feedback actions, the archive's file,
-- errors of the file system and of databases, and the parts that are mostly input and output or
-- views, among them the clients of the sources, the databases behind the graph and the vectors, the
-- dashboard, the scheduler, and the workflow with its masking.
pub mod Base
pub mod Exec
pub mod Ontology
pub mod Feedback
pub mod Approvals
pub mod Graph
pub mod Adapters
pub mod Reasoning
pub mod Ingestion
pub mod Findings
pub mod Audit
pub mod Api
pub mod Debug
pub mod Gateway
pub mod Evals
