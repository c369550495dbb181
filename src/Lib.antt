-- ===== src/Lib.antt =====
-- A model of the LFX v2 persona service and the theorems that make it correct. The service answers a
-- request with a username and an email by the projects that the person belongs to: it asks six
-- sources in parallel, merges their projects by UID, and replies in JSON.
--
-- Parts, from the repository's root:
--   Model: internal/domain/model/persona.go, the request, the response and `MergeProjects`
--     (`merge_projects`). Model/Merge has the reference fold, Model/Detections what a merge keeps
--     and Model/Successive merges in a row.
--     Model/Tokens is the contract of a project in a reply, Model/Wire the JSON of the messages and
--     Model/Contract the form of the response that ARCHITECTURE.md gives.
--   Username: internal/service/username_validation.go. Username/Filters has what a valid username does
--     to a comma-separated list.
--   Query: internal/infrastructure/query, the records (models.go), their decoding (Query/Tables) and
--     `Search` (Query/Client.search).
--   Nats: internal/infrastructure/nats: the client of client.go and models.go; Nats/Messages is the
--     callback of a subscription with transport_messenger.go, Nats/Headers the carrier of tracing.go.
--   Cdp: internal/infrastructure/cdp, the records (models.go), their JSON (Cdp/Wire), the two calls of
--     client.go (Cdp/Client), the cache of cache.go (Cdp/Cache), with what it is for its callers in
--     Cdp/Cache/Refinement, and the token provider of auth.go (Cdp/Auth).
--   Sources: the sources of internal/service. Sources/Legs has the two legs and their merge, which
--     four files of the source write out alike; Committee, Director, Access, MailingList and Meetings
--     are source_board_member.go, source_executive_director.go, source_writer_auditor.go,
--     source_mailing_list.go and source_meeting_attendance.go. Sources/Slugs, Affiliations and CdpRoles
--     are the CDP part of message_handler.go: the resolution of slugs, the conversion, and
--     `sourceCDPRoles` with its background refreshes. Sources/Found has what their projects are like.
--   Handler: `GetPersona` of internal/service/message_handler.go: validation, the enabled sources, and
--     in Handler/Collector the goroutines, the channel and the `select` as a step relation.
--     Handler/Answers relates a message to the responses that `GetPersona` can give, and
--     Handler/Contract to their JSON.
--   Service: cmd/server. Dispatch is service/message_handler.go, Health service/persona.go, Providers
--     service/providers.go, from the configuration to the handler. Main is main.go from its flags to
--     the channel of errors, Listen the HTTP server of http.go, and Startup the rest of main.go with
--     the goroutines of http.go, as a step relation. Probes has what the server answers.
--   Http: gen/persona_service, the interface of the health service and its endpoints. Http/Server is
--     gen/http/persona_service/server, Http/Client gen/http/persona_service/client with
--     gen/persona_service/client.go, and Http/Cli gen/http/cli/persona/cli.go. Http/Transport carries
--     a request of the client to the server. Http/Design is the API design of
--     cmd/server/design/persona.go.
--   Transport: the HTTP clients with the tracing that `NewClient` of the query and of the CDP client
--     put into them.
--   Config: internal/config/config.go, `Load` over the environment.
--   Errors: pkg/errors, the four types of errors and the texts of errors.
--   Constants: pkg/constants, the subject, the queue, the bucket and the names of variables.
--   Log: pkg/log/log.go, the attributes of a context with the arrays that Go's slices share, and the
--     options of the log (Log/Options).
--   Telemetry: pkg/utils/otel.go, the sampler, the resource and the providers of SetupOTelSDK.
--   Json, Text, Flags, Runtime, Prelude: what the program uses of Go's library: JSON documents with
--     encoding/json's rules for struct fields, strings, and the package flag.
--   Tests: runs at concrete inputs.
--
-- How they interact: `sources` gives the result of each enabled source as a pure function of the
-- request, the clients and the cache; the collector starts from these results and takes them in any
-- order. State is passed explicitly: the cache and the refreshes started are part of the result of
-- `source_cdp_roles`, and a refresh is a function on the cache that is run at some later time. The
-- start-up parses the flags and sets the telemetry up (`set_up`), starts the HTTP server around the
-- health service (`handle_http_server`), reads the configuration, opens the client of NATS and the
-- bucket, builds the handler (`build_handler`) and subscribes it; each message then goes through
-- `handle_message` to `GetPersona`.
--
-- Parameters, for what is not in the repository: the transport and the URL parser of each client;
-- the connection of nats.go; the key-value bucket (`KeyValue`, which may refuse a put; `IsLawful` is
-- the documented behaviour of a put that succeeds in a bucket with a time to live, which the
-- deployment sets, in charts/lfx-v2-persona-service/values.yaml); the readings of the clock
-- (`Times`); the environment and Go's parser of durations; the order in which `range` visits the
-- matches of the writer and auditor source, which is a permutation; and `Runtime`, for the Unicode
-- tables beyond ASCII and the grammar of JSON texts. What the token function of a client returns is
-- a parameter of the client. Cdp/Auth takes the libraries for keys, JWT and OAuth as parameters
-- (`KeyLibrary`, `TokenLibrary`), the providers all that the start-up calls (`Platform`), the
-- telemetry Go's floating-point numbers (`Floats`) and the log the capacity that `append` chooses.
-- Of net/http and goa the router (`Muxer`, with `IsRouter` for the routes of literal patterns), the
-- encoders (`Encoding`, with `IsEncoding`), the decoder of a response, with `ReadsText` for plain
-- text, the handlers that wrap another (`Middleware`, with `IsTransparent`) and the error of making
-- a request are parameters. A client gives the same answer to the same request within one request of
-- the service.
--
-- Bounds: loops are structural recursion and need no fuel. The collecting loop is a relation, with
-- the measure `work`; its context may end at any moment, since the timeout and the caller of the
-- handler can both end it. The process is a relation too; its channel of errors has room for one.
-- The channel of results has room for eight results and there are at most six sources, so a send
-- never waits. Durations are nanoseconds in ℕ; an entry from the future has age 0, where Go has a
-- negative age, and both are below the threshold. JSON numbers are decoded within 64 bits.
--
-- Not modelled: the output of logs and traces, when a usage text is printed, the random request ID header,
-- the descriptions of the API design and the exporters of the telemetry: they are I/O or calls of
-- libraries. Of the lists of projects, arrays that slices share after `append` are not modelled: no
-- caller reads a list again after it was merged. In Startup the goroutine that calls `Shutdown` and the
-- one that waits for the others have no state of their own.
pub mod Prelude
pub mod Json
pub mod Runtime
pub mod Text
pub mod Username
pub mod Errors
pub mod Constants
pub mod Model
pub mod Query
pub mod Nats
pub mod Sources
pub mod Cdp
pub mod Handler
pub mod Config
pub mod Transport
pub mod Flags
pub mod Http
pub mod Service
pub mod Log
pub mod Telemetry
pub mod Tests
