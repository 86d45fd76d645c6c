-- ===== src/Lib.antt =====
-- A verification library for ratatoskr, a validator of Prometheus and Loki rule files and of
-- Grafana dashboards.
--
-- The program reads rule files and dashboards, extracts the queries of each, lints the rules,
-- checks the queries against a catalog of the metrics and labels that the servers know, and
-- reports findings in one order. A command runs this once, or in a loop on file system events.
--
-- The files and the code they model:
--   Base          shared helpers: Boolean tests on the native numbers, lists, texts, weak orders,
--                 a stable sort, maps as association lists, strings.TrimSpace and filepath.Ext.
--   Finding       pkg/finding: the data of a finding, its codes, `Sort` as sort_findings with
--                 its comparison `before`, `DefaultSeverity`.
--   Extract       the result types of promql.go, logql.go, traceql.go, rulefile.go, dashboard.go.
--   Dashboard     dashboard.go: Calls has `splitGrafanaVarCall` as a scanner with the state Scan and
--                 `unwrapPromQLVariableQuery`; Variables has `normalizeDashboardExpr`, each regular
--                 expression as a function on bytes; Walk has `ExtractDashboard` with its closure
--                 `walk`, `extractTarget` and `extractInto`.
--   Lint          pkg/lint/lint.go: `lintRule` as lint_rule and its four checks,
--                 `detectDuplicateAlerts` with the closure `add` on the map `seen`, `LintAll`.
--   Catalog       pkg/catalog: Suggest has `Suggest` and `levenshtein`, row by row (suggest.go);
--                 Allowlist has the loading and the questions of allowlist.go; Entry has the
--                 entries, their keys and `Validate` (entry.go); Store has `MemoryStore` and
--                 `sortedUnique` (store.go); Cache has `cachedList` over a record Store and the
--                 clients, and the seven virtual queries; Checker has the three checks over records
--                 of lookups, and the cached lookups that fill these (checker.go); Prewarm has
--                 `plan` and `Prewarm` (prewarm.go); Clients has the HTTP clients (client.go,
--                 mimir.go, loki.go, tempo.go).
--   Runner        internal/runner/runner.go: Expand has `expand`, Load has `load` and the parse
--                 findings, Gather has `runCatalog` and, in Checked, the catalog checker that it
--                 calls, Pipeline has `Run` and `withDefaults`.
--   Watcher       internal/watcher/watcher.go: `New`, `runOnce`, and the loop of `Run` as the
--                 function `handle` on the events of its select; Reach is what a run can reach.
--   Cli           internal/cli/cli.go and watch.go: Setup goes from the flags to the runner's
--                 configuration, Command has the commands, the exit codes and `onResult`.
--   Main          cmd/ratatoskr/main.go: `main` and `run`, and the subcommands that print one line of
--                 JSON for each expression or file; a line is the object that it encodes.
--   Telemetry     internal/telemetry/telemetry.go: counters and gauges as lists of series.
--   Report        pkg/report: the formats (report.go); Lines has the text, GitHub Actions and TSV
--                 writers (text.go).
--   Tests         the theorems at concrete inputs, and runs.
--
-- A text is the list of its bytes, as in Go. An `int` that cannot be negative is a native natural
-- number; where a negative value matters it is ℤ of Base/Int. A Go map is an association list,
-- and where the code walks a map the order is a function `range` that permutes the list. A nil
-- pointer is none. An error is the left side of a sum, or a constructor of a data type of errors.
-- State that a call changes is passed and returned: the catalog of a run, the metrics, the loop
-- of the watcher. Every function is by structural recursion, so there is no fuel.
--
-- A call that may fail and that changes a state is a function to a pair, Call of Base/Calls, with
-- do blocks. A lookup of the checker is one step: goroutines that prewarm the cache run in some
-- order, lookup by lookup.
--
-- Parameters stand for what is not in the repository: the Prometheus duration parser, the YAML
-- parser, SHA-256, the flag package, the file system as os.Stat, filepath.WalkDir and os.Open show
-- it, the delivery of file system events, net/http, net/url and encoding/json as the record Net of
-- Catalog/Clients, and encoding/json on the raw messages of a dashboard as the record Json of
-- Dashboard/Walk. The runner takes the extractors of files as a record, Files, and dashboards those
-- of queries, Extractors; the record Tools of Main has the scanner of standard input, os.Open and the
-- JSON encoder. Not modelled: logging, the HTTP handler of the metrics, the file store, the
-- extraction from the parsers' trees, the JSON, JUnit and SARIF writers.
pub mod Base
pub mod Catalog
pub mod Cli
pub mod Dashboard
pub mod Extract
pub mod Finding
pub mod Lint
pub mod Main
pub mod Report
pub mod Runner
pub mod Telemetry
mod Tests
pub mod Watcher
