-- ===== src/Lib.antt =====
-- Exobrain: the job orchestrator with its knowledge.update worker, and services of the assistant
-- backend.
--
-- The program. A client enqueues a job by the gRPC service of the job orchestrator
-- (apps/job-orchestrator/app/transport/grpc/service.py), which publishes a request message and a
-- status event. The worker (orchestrator.py) receives the request, possibly several times, keeps
-- the life of the job in the table orchestrator_jobs (job_repository.py), runs the job in a process
-- and publishes status events, results and dead letters (contracts.py). Clients read the table or
-- watch the status events by the service. The job knowledge.update
-- (worker/jobs/knowledge_update/core.py) turns messages into a change of the knowledge graph in ten
-- steps, most of which call a model or the knowledge interface.
--
-- The assistant backend (apps/assistant-backend/app/services) is such a client: it streams the
-- answers of the assistant (chat_service.py), keeps conversations (conversation_service.py) behind a
-- cache (journal_service.py) and settings (user_config_service.py), enqueues the messages that are
-- not yet part of the knowledge base as knowledge.update jobs, and passes on the status of these jobs
-- (knowledge_service.py).
--
-- The files.
--   Prelude: shared notation, Boolean tests, lists, texts, dictionaries (Dict), decoded JSON
--     (Json), and exceptions as values (Result).
--   Jobs/Contracts: the records of contracts.py.
--   Jobs/Action: a coroutine of the worker as a function of a World, which holds the table, what was
--     published, how the message was settled and which jobs were started. `Outside` says which
--     calls raise, what decodes, and how jobs end. Rules and Runs have the lemmas on blocks.
--   Jobs/Repository: each statement of job_repository.py; Rows and Quiet have lemmas on them.
--   Jobs/Orchestrator: process_message of orchestrator.py in the order of its statements, one
--     function for each of its parts. Settling, Healthy, Outcomes, Redelivery and Completion prove how
--     a delivery, and a sequence of deliveries, ends.
--   Jobs/Runner: run_job of worker/process_runner.py and the name of its log file; Success has the
--     proofs.
--   Jobs/Lifecycle: _to_lifecycle_state and the replies of service.py; Rows relates them to the rows
--     that the worker writes.
--   Jobs/Servicer: GetJobStatus and WatchJobStatus, with the proof in Watching; Enqueueing has
--     EnqueueJob and its proof, Delivered follows what it publishes to the worker.
--   Update/Retry: _is_transient_error and _call_with_retry of core.py; Attempts has the proofs.
--   Update/Candidates: _classify_candidate_matches; Classes has the proof.
--   Update/Decision: the decisions and the loop of step five; Parsing and Resolution have the proofs.
--   Update/Keyed: the loop that steps six and ten share: it skips what is not valid or has a key that
--     was seen.
--   Update/Pairs: _deduplicate_entity_pairs; Deduplication has the proof.
--   Update/Properties: _to_property_value_dict, _extract_property_value_field,
--     _is_value_type_compatible and _validate_entity_payload_against_property_context; Writable and
--     Required tell apart what a context allows and asks for, Values and Contexts have the proofs.
--   Update/Preflight: _preflight_validate_graph_delta_entities; Cached has the proof.
--   Update/Edges: _default_edge_properties and _preflight_validate_graph_delta_edges.
--   Update/Blocks: _normalize_block_parent_id and the checks of step nine on the blocks of an
--     entity; Tree has the proof for one visit, Acceptance for the checks together.
--   Update/Merge: _build_step_nine_merge_graph_delta; Written has the proof about its edges.
--   Update/FinalGraphs: the loop of step eight, _normalize_step_eight_structured_response and
--     _assert_step_eight_required_entity_fields; Accepted has the proofs.
--   Update/Mentions: _run_step_ten_finalize_graph_delta; Kept has the proofs, also for steps nine and
--     ten together.
--   Assistant/Calls: a coroutine of the assistant backend as a function of its state, which returns
--     or raises.
--   Assistant/Sequences: _list_uncommitted_message_sequences, _split_by_token_limit and
--     _count_text_tokens of knowledge_service.py; Splitting, Gathering and Bounds have the proofs.
--   Assistant/Updates: enqueue_update_job, _message_payload and _mark_messages_committed; Accounts and
--     Accounting have the proof for all answers of its calls, Remaining and Committed the one where
--     none of them raises.
--   Assistant/Watch: watch_update_job; Ending has the proof.
--   Assistant/UserConfig: the values of user_config_service.py; Rows is _load_definitions, with the
--     proof in Steps and Typed; Service has the other methods. Agreement and Reading are about what
--     is shown, Writing about what is stored, Refreshing and Accepting about an update, and Updating
--     has the theorems.
--   Assistant/Chat: _produce_journal_stream and stream_events of chat_service.py; ToolCalls, Stream
--     and Persisted have the proofs.
--   Assistant/Conversations: ensure_conversation, get_reference_by_conversation_id and insert_message
--     of conversation_service.py; Sequence and Retries have the proofs.
--   Assistant/Journals: journal_service.py with the store of journal_cache_store.py, over an interface
--     of the queries of conversation_service.py; Coherence has the invariant of the cache,
--     Invalidation and Reads that writes and reads keep it, Histories what follows for a history.
--   Jobs/Samples, Update/Samples, Update/GraphSamples, Assistant/Samples, Assistant/SettingSamples,
--     Assistant/JournalSamples and Assistant/CacheSamples: concrete inputs.
--
-- Bounds and fuel. Numbers are natural numbers, and Python's integers have no width. The only fuel is
-- that of a visit of a block: one more than the number of blocks, which is enough, since each step
-- of a visit marks a block that had no mark. Python's limit on recursion is not modelled.
--
-- Not modelled. Logging and times of rows and events; the formatting of exceptions; prompts and
-- schemas for models; the clients of the database, the broker, gRPC and the models, whose calls are
-- parameters. uuid4, UUID and random.uniform are parameters. Floats are a type with the comparisons
-- and conversions that the code uses; the delays of retries are numbers of any unit, and the pauses
-- fifths of it. The id of a status row is its text. A statement of the database that raises, and a
-- call of the cache that raises, has changed nothing; a call for the job orchestrator that raises
-- may have enqueued the job. What the JSON text of a cached answer decodes to is a parameter. A
-- state of a job that the protocol does not name, for which watch_update_job raises a ValueError,
-- is left out. In the assistant backend a stored setting is a decoded document: json.dumps, the
-- column's jsonb and json.loads are left out between, and so are races between two requests. The
-- keys of the cache are the parts of their texts. The other steps of core.py, the other services,
-- routers and agents of the assistant backend, the MCP server, the model provider, the frontend and
-- the knowledge interface are not modelled.
pub mod Prelude
pub mod Jobs
pub mod Update
pub mod Assistant
