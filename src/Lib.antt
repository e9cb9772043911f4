-- ===== src/Lib.antt =====
-- A verification library for go-utilities, a collection of Go packages for web services: a
-- WebSocket hub, JWT verification, a counter that flushes to Redis, converters between texts, null
-- types and pointers, form parsing, database helpers, a server with its errors and middlewares,
-- envelope encryption, clients for HTTP and Kafka, telemetry, and settings from the environment.
-- Paths are from the repository's root.
--
-- Base: shared types and lemmas. `Base.Dict` is a Go map as an association list whose order is
-- the order in which a `range` goes through it; `Base.Run` is code that returns or panics;
-- `Base.Text` is a Go string as the list of its bytes, with the functions of `strings` that the
-- packages call; `Base.Int` has integers, the wrap-around of an `int32` and `strconv.ParseInt`.
--
-- Websocket: the package websocket.
--   Client: `Client`, its options, `Send`, `SendJSON`, `Close` and the metadata (client.go,
--   config.go). The channel is the list of the queued messages and whether it is closed; a send
--   on a closed channel panics. `Client.Race` has `Send` in two steps, since its mutex is released
--   in between.
--   Hub: the maps of connected clients and of groups over a heap of clients (hub.go, and
--   `DisconnectUser` of broadcast.go). An event is one operation; the hub's mutex makes operations
--   atomic, so a history is a list of events. `Hub.View` is the abstract view of a hub, who is
--   connected, who is in which group and who is closed, and what each event does to it.
--   Broadcast: every send to a user, a group, a tenant or all, and the queries (broadcast.go).
--   Pumps: `WritePump` over the turns of its `select`, among which other goroutines call `Send` and
--   `Close`; `ReadPump`, which leaves the hub; and the allowed origins (pumps.go, upgrader.go).
-- Jwt: `ExtractToken`, `extractRealmFromPath`, `getJWKSet` and `ParseAndVerifyJWT` (jwt/Jwt.go).
--   The libraries for JWT, JWK, URLs and HTTP and the environment are the record `Externals`.
-- Counter: `CounterWorker` (counter/Counter.go). A round of the worker's `select`, or a `FlushNow`
--   of another goroutine, is a `Round`; what Redis makes of a pipeline is an `Outcome` that comes
--   with it. Floats are the parameter `Floats`.
-- Converter: converter/strtotype.go and converter.go; `Converter.Pg` is pg.go and sqltotype.go, and
--   `Converter.Dates` is the `TimeOrDate` of time.go.
--   A time is its Unix time. `time.Parse` and `strconv.ParseFloat` are parameters.
-- FormValidator: formvalidator/formvalidator.go, with the validators of interface.go. A form gives
--   each field's text, empty where the field is missing, as `FormValue` does.
-- Database: `WithTransaction` and `NewPagination` (database/Utils.go), drivers, data source names
--   and connections (database/Connection.go). `database/sql` is the record `Driving`.
-- Server: `NewError`, `ToApiError` and the PostgreSQL violations (server/Error.go), and the error
--   responses (server/Response.go); `Server.Redaction` is `redactSensitiveQueryParams`
--   (server/Middleware.go). Go errors are a data type with the package's own, those of
--   PostgreSQL, and wrapping ones. `Server.Building` configures and builds the HTTP server,
--   `Server.Lifecycle` starts and stops it (server/Server.go, server/Config.go), and `Server.Grpc` the
--   gRPC server (server/Grpc.go), over the state that handlers act on; how the call of the serving
--   goroutine ends is a parameter, and what the goroutine logs is a list of its own, since it may come
--   at any time. `Server.Serving` is the chain of middlewares that `Apply` registers, each with the
--   rest of the chain as a function; a panic is a result that keeps the context.
-- Crypto: `EncryptMessage` and `DecryptMessage` (crypto/service.go) over the interface of key
--   providers (crypto/api/interface.go), and the local provider (crypto/adapters/local/local.go),
--   which fills it. AES-GCM, base64 and JSON are the records `Gcm` and `Codecs`; what is drawn of
--   the random source is passed, `none` for an error.
--
-- HttpClient: httpclient/HttpClient.go. `Config` has the defaults, `Url` the building of URLs, `Tls` the
--   transport and the client certificate, `Request` the requests, `Download` the files; a Go error is a
--   constructor. The libraries of Go and the hystrix client are records of functions.
-- Kafka: `Options` has the configurations of sarama (kafka/Consumer.go, kafka/Producer.go), `Broker` the
--   reading of a broker and the constructors (kafka/Config.go, kafka/Broker.go), `Consume` the sending
--   and the loops of a consumer (kafka/Common.go, kafka/Consumer.go). sarama is the record `Sarama`.
-- Otel: the configuration (otel/config/config.go), what a provider is made with
--   (otel/adapters/otel/otel_adapter.go), and its start from the environment
--   (otel/initialize/telemetry.go).
-- Settings: configurations (crypto/config/config.go, storage/config/config.go,
--   logger/config/config.go), what a logger adds to its lines (logger/adapters/zerolog/zerolog.go,
--   logger/api/logger.go), factories (crypto/factory/factory.go, storage/factory/factory.go,
--   pubsub/PubSub.go, pubsub/Redis.go), and the global instance that three factories keep
--   (`Settings.Globals`: otel/factory/factory.go, logger/factory/factory.go, crypto/factory/factory.go).
--
-- The parts meet in these places: the hub sends to and closes clients through the functions of
-- `Client`, the writing pump takes from the channel that `Send` fills, the reading pump unregisters its
-- client from the hub, the form parsers call the functions of `Converter`, the encryption service calls
-- a key provider, the middlewares redact queries, and Kafka's errors are those of the server.
--
-- All definitions are structurally recursive but the loop of a Kafka consumer, which runs on fuel; the
-- number of the round that ends it is enough.
--
-- Not modelled: what only calls a library (opening a database pool, the Vault provider, the MinIO and S3
-- adapters, redisclient, memcache, the middleware and interceptors of otel, the mock logger, the
-- upgrade of a WebSocket connection, the attributes of an otel resource), `NewBrokerProviderConfig`
-- of kafka/Config.go, which reads structs by a library, and `Subscribe` of pubsub/Redis.go.
pub mod Base
pub mod Websocket
pub mod Jwt
pub mod Counter
pub mod Converter
pub mod FormValidator
pub mod Database
pub mod Crypto
pub mod Server
pub mod Kafka
pub mod HttpClient
pub mod Otel
pub mod Settings
