-- ===== src/Lib.antt =====
-- A verification library for tei-nlp-converter, a Python service that runs NLP providers over a text
-- and writes the results as TEI XML.
--
-- The program's parts and the files that model them (paths from the repository's root):
--
--   tei_converter.py     The converter: it validates the results of the provider, maps token positions
--                        to entities, writes inline, standoff or mixed annotations with a header, and
--                        falls back to a minimal document when anything raises.
--                        Tei/Data: the results and the schema. Tei/Xml: the element tree.
--                        Tei/Escape: _escape_xml. Tei/Validate: _validate_schema and
--                        _validate_nlp_results. Tei/EntityMap: _build_entity_map. Tei/Inline: the inline
--                        annotations. Tei/Header, Tei/Standoff: the header and the standoff annotations.
--                        Tei/Convert: __init__, convert, _prettify_xml, _create_fallback_tei and the
--                        analysis section. Functions bear the names of the methods, without the first
--                        underscore; `self` is a TeiConverter.
--   circuit_breaker.py   CircuitBreaker: call and call_sync are `enter`, the call of the function, and
--                        `leave`. CircuitBreaker/Sequence treats calls that do not overlap,
--                        CircuitBreaker/Interleaving the steps of asyncio's event loop.
--   background_tasks.py  Tasks: TaskManager, whose tasks are a dictionary by their ids; Tasks/Store: what is
--                        found after each operation.
--   domain_nlp/pipeline/ensemble.py
--                        Ensemble: the entities of several models, their union and their groups by span.
--                        Ensemble/Votes: the majority vote; Ensemble/Merge: the weighted vote, the intersection,
--                        the choice of a strategy and the score of agreement.
--   domain_nlp/knowledge_bases/cache.py
--                        Kb/Lru: LRUCache, a dictionary in the order of use. Kb/Lru/Room: what
--                        `set` keeps. Kb/Lru/Bound: the size.
--                        Kb/Lru/Recency: what is evicted last. Kb/Tiers: MultiTierCacheManager over
--                        the memory, Redis and the database; Kb/Tiers/Calls treats any sequence of
--                        calls, Kb/Tiers/Reads a lookup after a store.
--   cache_manager.py     Cache/Redis: the client of Redis, a parameter, and _with_retry; Cache/Retry: how often it
--                        tries. Cache/Manager: CacheManager, whose state is given back also where a method
--                        raises; its methods that write are in Cache/Manager/Writes, cache_result in
--                        Cache/Manager/Wrap.
--   domain_nlp/pattern_matching/matcher.py
--                        Patterns: the rules and entities, and the module re as a parameter.
--                        Patterns/Matcher: how the patterns are loaded, added, removed and used for
--                        validation; Patterns/Extract: extract_structured_data;
--                        Patterns/Normalize: normalize_entity.
--   domain_nlp/knowledge_bases/registry.py
--                        Kb/Registry: the catalog, and the registry with its fallback chain;
--                        Kb/Registry/Sync: the synchronization, one round at a time.
--   middleware.py        Middleware: the requests, the CSRF protection and the audit log; Middleware/Csrf: what
--                        passes.
--   domain_nlp/pipeline/dynamic_pipeline.py
--                        Pipeline: the pipeline's state, its metrics and its models; Pipeline/Steps: the steps
--                        of process, over Ensemble, Patterns and Kb/Registry;
--                        Pipeline/Enrichment: what the lookups give; Pipeline/Process: the
--                        document.
--
-- Base holds what they share: tests on native numbers, lists, dictionaries in the order of insertion,
-- strings, and results. A `Result` is a value, an exception, or `diverges` for a call that does not
-- come back; the rules Ensures, Returns and Settles reason about do blocks of results.
--
-- Bounds and fuel: the loop over the tokens of a sentence runs on fuel, and the number of tokens is
-- enough: with more fuel the result is the same, and out of fuel means that the loop never ends.
-- Numbers are unbounded, as in Python; token positions are natural numbers.
--
-- Values of the providers are taken to have their documented types where the code does not test them;
-- keys may be missing anywhere. In Tei `upper` and `lower` change the letters of ASCII only and
-- keep the others; in Patterns and in Kb they are parameters. The converter's scores are thousandths. In Ensemble
-- and Pipeline a float, none of them negative, stands as a number in the order of the floats, and
-- arithmetic on floats is a parameter. The clock, the serialiser and the parser of XML, the client of
-- Redis, pickle, regular expressions, and the models and knowledge bases behind their interfaces are
-- parameters. The scan of clear_pattern (Cache) runs on fuel, since the server decides when it ends.
--
-- Coroutines: CircuitBreaker/Interleaving has the steps of the event loop. Elsewhere a method is one step,
-- and what is started together is taken in the order of its list.
--
-- Not modelled: logging and metrics, which return nothing to the code; the patterns' tables, which are
-- data; the web application, the storage and the NLP providers, which are calls of FastAPI, SQLAlchemy
-- and spaCy; the registry of models, the configuration of the domains, the ontology manager, the
-- secrets, and security.py.
mod Base
pub mod CircuitBreaker
pub mod Ensemble
pub mod Kb
pub mod Tasks
pub mod Cache
pub mod Patterns
pub mod Middleware
pub mod Pipeline
pub mod Tei
