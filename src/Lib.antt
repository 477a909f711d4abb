-- ===== src/Lib.antt =====
-- duckdb-loki: a DuckDB extension that queries Grafana Loki over HTTP.
--
-- A query reaches Loki by a table function (`loki`, `loki_scan`) or by a table of an attached catalog. Both end
-- in one scan, in four parts. A planner hook translates the predicates of WHERE to label matchers, line filters
-- and time bounds. From these a LogQL query and a window are assembled. A pager turns the query into requests
-- that are no larger than a server allows, and goes on from the extreme timestamp of each page. A client sends
-- the requests with the configured credentials, and a reader turns the bodies into entries, whose rows the
-- scan writes into output vectors. The catalog discovers label names and makes columns of them; it holds
-- generations of its schema tree, which a refresh replaces and a transaction pins.
--
-- The modules and the code that they model:
--   Base          shared helpers: lists, texts as bytes, integers, exceptions as values
--   TimeBounds    src/loki/time_bounds.cpp: TryAddNanos, TryMultiplyNanos, IntervalToNanos,
--                 ParseDurationToNanos
--   Logql         src/loki/logql.cpp, src/include/loki/logql.hpp: escaping, label names, LIKE patterns,
--                 BuildSelectorQuery
--   Types         src/include/loki/loki_types.hpp: the records that the parts exchange
--   Auth          src/loki/auth.cpp: Base64Encode, BuildAuthHeaders
--   HttpRequest   src/loki/http_request.cpp: UrlEncode, the requests, BuildQueryString
--   HttpClient    src/loki/http_client.cpp: EndpointProblem, HttpGet
--   Parse         src/loki/parse.cpp: ResponseSnippet and the three readers of responses
--   Pager         src/loki/pager.cpp, src/include/loki/pager.hpp: StreamPager
--   Scan          src/loki/loki_scan.cpp, src/include/loki/loki_scan.hpp: the bind data; Scan.Bind has
--                 LokiResolveCommon and the two binds, Scan.Promote the loop over promoted labels,
--                 Scan.ColumnNames the reserved names, Scan.Pushdown LokiPushdownComplexFilter and what it
--                 calls, Scan.Filters what its predicates mean in SQL, Scan.Init LokiScanInitGlobal,
--                 Scan.Output and Scan.Cells LokiScanFunction
--   Connection    src/loki/connection.cpp: Connection.Secrets and Connection.BestSecret have the choice of a
--                 secret, Connection.Resolve the two functions that resolve a connection,
--                 Connection.TimeBound the bounds of a window
--   Secrets       src/loki/secret.cpp: the two providers of secrets
--   Discovery     src/loki/loki_discovery.cpp: the functions that list labels, label values and series
--   Catalog       src/loki/catalog.cpp, src/include/loki/catalog.hpp: Catalog.Options and Catalog.Attach have
--                 LokiAttach, Catalog.FetchLabels the discovery of labels, Catalog.Columns and Catalog.Schema
--                 the tables, Catalog.Snapshots the generations and lookups, Catalog.Refresh DoRefresh and its
--                 callers, Catalog.Transactions the transaction manager, Catalog.Pragma the pragma,
--                 Catalog.Series the scan of series, Catalog.Steps the interleaving of threads
--   Tests         the theorems at concrete inputs
--
-- A `std::string` is its list of bytes, and a `std::map` an association list in the order of its keys. A
-- function of the code has the same name in lower case (BuildSelectorQuery is build_selector_query). A
-- function that throws returns a Result, one with an out parameter and a bool returns an Option, and one
-- that changes an object returns the changed record. A function that may crash the process, in the HTTP
-- library, returns an Option of a Result. An int64 is an unbounded integer: where the code computes with it
-- unchecked, the values are taken to be in range (Catalog.Snapshots.add_int64 wraps, for the times of the
-- next check), and where it checks, the theorems say that the check is exact. The clock and the outcome of
-- a lock that is only tried are arguments.
--
-- A shared pointer to a generation is an address with its value; the use count is the number of pointers in
-- the catalog and in the transactions. Threads are interleaved between their critical sections: a step of
-- Catalog.Steps is one of these, or the requests of a refresh.
--
-- Parameters: the JSON library (Parse.Yyjson), the HTTP client library (a function from a call to its
-- outcome), DuckDB's expressions and values (Scan.Planner), its values, casts and secrets
-- (Connection.Duckdb, Scan.Bind.DuckdbBind, Catalog.DuckdbCatalog, Secrets.SecretStore), the server behind the
-- pager (Pager.Progress.Server), RE2 (a test of an expression on a text), and what DuckDB evaluates a predicate
-- to (Scan.Filters.Evaluation).
--
-- Fuel: Pager.Total.pages counts the pages of a scan. One page more than the window has nanoseconds is
-- enough, since every page either is the last or moves the cursor. Scan.Output.fill counts the rounds of the
-- loop over an output vector; a round for each of these pages, for each place of the vector, and one more are
-- enough. Logql.Reader.read_query counts the matchers and the filters of a query. Scan.Pushdown.strip_casts
-- counts the casts around an expression. Catalog.Refresh.prune counts the places of its list.
--
-- Not modelled: the registration of functions, secrets and storage with DuckDB (src/loki_extension.cpp and the
-- Register functions of the other files), the operations of the catalog that do nothing (Checkpoint,
-- GetDatabaseSize, GetStatistics), and the vectors of DuckDB beyond the rows that are written into them.
pub mod Base
pub mod TimeBounds
pub mod Logql
pub mod Types
pub mod Auth
pub mod HttpRequest
pub mod HttpClient
pub mod Parse
pub mod Pager
pub mod Scan
pub mod Catalog
pub mod Secrets
pub mod Connection
pub mod Discovery
pub mod Tests
