-- ===== src/Lib.antt =====
-- mcp-zeromem serves a conversational memory store to agents. The engine that stores and ranks
-- turns is native code; the TypeScript server around it is what this development models.
--
-- How the parts correspond (paths from the repository's root):
-- * Common and its children: notation, tests on numbers and texts, lists measured by native
--   numbers, sorting and counting.
-- * Metrics (server/src/metrics.ts): the class Metrics is a record; record_open, record_recall,
--   record_error (the catch of timeRecall), record_ingest and snapshot return the new record.
--   in_bucket is bucket() with the writes through the bucket it returns. The clock, the measured
--   duration and the random slot are arguments. percentile takes one of the two percentages that
--   the code asks for.
-- * Worker (server/src/engine/embed-worker.ts): the class EmbedWorker is a record whose field
--   place says at which await its loop is suspended; advance resumes the loop with the answer it
--   awaited, and start, kick, stop and register are the calls that may come in between. The wake
--   callback is set exactly while the place is sleeping, so it has no field.
-- * Auth (server/src/auth.ts): bearer_token follows the header's regular expression,
--   auth_middleware and mcp_auth_middleware are the two middlewares up to their decision. The
--   SHA-256 digest is a parameter.
-- * Memory (shared/src/memory.ts): the turn that a caller writes, with the check of its fields,
--   the report of a write, stored turns and session windows.
-- * Gateway (server/src/gateway/server.ts, tool.ts, tools/session.ts): all_tools is the listing
--   under its two gates; read_session is the run of zeromem_read_session up to the formatting of
--   the window. Gateway/Route (server/src/gateway/routes.ts): mcp_request is the listing that a
--   request to /mcp is answered with, behind mcp_auth_middleware. Gateway/Server
--   (server/src/gateway/server.ts, routes.ts, server/src/stdio.ts): create_gateway_server gives
--   the annotations of the tools, the brief as instructions and the prompts, read_resource the
--   brief as a resource, and route_server and stdio_server are its two callers. Gateway/Prompts
--   (server/src/gateway/prompts.ts): the curator's five prompts and the text of each.
-- * Ingest (server/src/engine/jsonl.ts, server/src/gateway/tools/remember.ts): parse_jsonl, the
--   runs of zeromem_remember and zeromem_ingest, and in Ingest/Paths the path that a file may be
--   read from, by the POSIX rules of node:path. JSON.parse with the schema's verdict on a line,
--   and the engine's ingestMany, are parameters.
-- * Agent (server/src/curator-agent/agent.ts, with the message types of llm.ts beside it):
--   run_curator; its loop run_loop threads the state that runCurator mutates (report, messages,
--   nudged). The model, the MCP client and JSON.parse are parameters, given the conversation so
--   far, so each may answer anything at any time. The texts of messages are lists of UTF-16 code
--   units.
-- * Curator (server/src/curator.ts, with the settings of shared/src/curation.ts):
--   CuratorSettingsStore is a record with its cache; config and token give their answer with the
--   store after it, update_settings and generate_token are the writes. The engine's answers and
--   the clock's readings are arguments.
-- * Eval (server/src/answer-eval/eval.ts): answer_question, judge_answer, references, sample,
--   summarise and run_answer_eval. The model under test, the judge, the MCP client and toUpperCase
--   are parameters; a quotient is the pair of its numerator and denominator.
-- * Errors (server/src/errors.ts): parts_from is the loop of errorChainMessage, on thrown values
--   given by their message and cause, and error_chain_message joins what it collects;
--   error_message and error_detail_message are on a value by itself.
-- * Config (server/src/config.ts): load_config, with the values of the environment in Config/Env,
--   the checks of configSchema in Config/Schema and the refusals of loadConfig in Config/Load.
--   path.resolve, Number and the test for a URL are parameters.
-- * Discovery (server/src/discovery/settings.ts): is_loopback_host and the settings store.
--   toLowerCase and the tests of node:net are parameters.
-- * Api (server/src/app.ts, server/src/api): Api/Engine is the engine as the routes see it, a
--   record of calls on a store of any type, each of which may fail; Api/Reply is the error
--   middleware; Api/Curator is the curator settings with the engine's failures; Api/Routes and
--   Api/Settings have a function per route; Api/App puts them behind the authentication;
--   Api/App/Mounts has the methods and paths under which they are mounted. What a schema makes of
--   a query or a body is an argument of the route that reads it. Api/Viz has the routes of the
--   visualisations with the reading of the evaluation history, where the file's read and what is
--   made of a line are arguments.
-- * Facade (server/src/engine/index.ts): the class ZeroMemEngine as an implementation of
--   Api/Engine, with its metrics beside the store; Facade/Others has the calls that the tools and
--   the worker make besides; Facade/Calls has sequences of calls with what the callers are told.
--   The native engine, the schemas' verdicts and the readings of the clock are parameters.
-- * Recall (server/src/gateway/tools/recall.ts, and formatWindowText of
--   server/src/gateway/tools/session.ts): normalise and clip, on the characters of a text; the
--   blocks of a recall's text and the run of zeromem_recall. The date of a time and toFixed(2) are
--   parameters.
-- * Gateway/Tools (server/src/gateway/tools, server/src/gateway/server.ts): Calls has a
--   constructor per tool, with the arguments as the schemas have left them; Runs has the tools'
--   runs on an engine that is an interface, and call_tool, the call of a tool that may not be
--   served. The file that zeromem_ingest reads, JSON.stringify, the date and toFixed(2) are
--   parameters.
-- * Cli (server/src/curate.ts, server/src/curator-agent/config.ts): Cli/Settings has
--   load_agent_config; Cli/Start has start, the plan that the arguments and the environment lead
--   to, and the exit code. The values of parseArgs, Number, the test for a URL and the names that
--   an object inherits are parameters.
-- * Llm (server/src/curator-agent/llm.ts): complete, from what is posted to the completion or the
--   error; strip_thinking follows the expression THINKING. The post, JSON with the schema of a
--   response, and JSON.stringify are parameters.
-- * Server (server/src/index.ts): the process as a record with the stage of its shutdown; happen
--   is what an event does to it, and the events may come in any order.
-- * Client (app/src/lib/auth.ts, app/src/lib/api.ts, app/src/components/layouts/token-gate.tsx and
--   app-layout.tsx): the stored token, the flag and its listeners, with an action for each thing
--   that changes them; Client/Request has request, where fetch is a function that may change the
--   state of what it reaches, and that refuses, in Client/Gate, a header that the browser cannot
--   make bytes of; Client/Calls has a constructor for each call of api.ts, and address is what the
--   call hands to request. encodeURIComponent and the text that URLSearchParams writes are
--   parameters. Client/Scan and Client/Target read a path and compare it with the routes,
--   Client/Query has what is asked for by key, Client/Meant is the request that each call stands
--   for, and Client/Called follows a call to its route and back.
-- * Mentions (app/src/lib/mentions.ts): split_mentions, over the UTF-8 bytes of a text. Encoding
--   and decoding are parameters.
-- * Slots (app/src/lib/viz.ts): the class SlotMap, with its Map as a list in insertion order.
--
-- How they interact: Config gives the settings that Auth, Api, Recall and Gateway/Tools read. The
-- tools write through the engine, whose backlog the Worker embeds; the routes of Api/Settings kick
-- it, and its state is part of the world that a request changes. Facade runs the routes' calls on
-- the native engine and has Metrics count the writes and recalls. Auth, with the token that
-- Curator gives, decides which requests reach the routes and the tools, and Gateway whether the
-- curator tools that Agent drives are among them. Recall's text is what an agent reads of a
-- recall. Gateway/Server announces what Gateway/Tools runs. Cli asks for a prompt of
-- Gateway/Prompts and serves Agent the tools of a configuration; Llm is the model that Agent and
-- Eval ask. Server starts the Worker and stops it. Client sends what Auth reads, and Api answers
-- it.
--
-- Bounds and fuel: run_loop and answer_loop count down the requests that maxSteps allows, which is
-- the bound of the loop in the code; parts_from takes fuel, as its loop has no bound of its own,
-- and Errors/Chain says how much is enough; in Common/Units and Recall/Text a number n is printed
-- with fuel n + 1, more than its digits; no other definition takes fuel. Times and counts are
-- natural numbers.
--
-- Not modelled: the native engine (crates/), whose answers are arguments; the discovery documents;
-- the corpus and the arguments of the answer evaluation (server/src/answer-eval.ts); the web UI
-- but for the token, its one request and the calls that make it, the spans of a turn and the
-- colours of keys; its components, which are a copy of another project's (app/components.json);
-- HTTP, timers and the file system themselves, and with HTTP the reading of a request's body,
-- which comes ahead of the authentication (express.json in server/src/app.ts); a server that fails
-- to list its tools or to give its prompt to the curator (server/src/curator-agent/agent.ts), and
-- the texts that a call under the name of an inherited member leaves in its report.
pub mod Common
pub mod Agent
pub mod Api
pub mod Auth
pub mod Cli
pub mod Client
pub mod Config
pub mod Curator
pub mod Discovery
pub mod Errors
pub mod Eval
pub mod Facade
pub mod Gateway
pub mod Ingest
pub mod Llm
pub mod Memory
pub mod Mentions
pub mod Metrics
pub mod Recall
pub mod Server
pub mod Slots
pub mod Worker
