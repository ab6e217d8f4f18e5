-- ===== src/Lib.antt =====
-- kube-state-metrics: the core that lists and watches Kubernetes objects, renders them to metrics
-- and serves them.
--
-- main sets a store builder up from the command line and hands it to the metrics handler. The handler
-- configures sharding: it has the builder build a store for each enabled resource, whose reflector
-- lists and watches the objects of the selected namespaces and of this shard, and adds them to the
-- store, which keeps the text of their metrics. A request to /metrics is answered with the text of
-- all stores. When the StatefulSet of the program's own pod is resized, the handler configures
-- sharding anew and cancels the reflectors of before.
--
-- The files, and the code that each is about:
-- - Prelude: tests, lists, texts as lists of bytes, maps as lists of entries, integers, results.
-- - Go: what the code uses of `strings`, `sort` and `strconv`.
-- - Api: what the code uses of k8s.io/apimachinery and k8s.io/client-go.
-- - Metric: pkg/metric. `write` is Write, `byte_slice` is ByteSlice.
-- - Generator: pkg/metric_generator, under the names of its functions.
-- - MetricsStore: pkg/metrics_store. The state is the record MetricsStore; `add`, `update`, `delete`,
--   `replace` and `write_all` are the methods; MetricsStore/Operations runs sequences of them,
--   MetricsStore/Refinement is about the map that a store stands for, and about the stores of shards.
--   MetricsStore/Entries and MetricsStore/Zipped are about what the operations keep of each entry, and
--   MetricsStore/Exposed and MetricsStore/WriteOrder about the text that WriteAll writes for them.
-- - AllowDenyList: pkg/allowdenylist.
-- - Options: pkg/options, with a file for each of the three flag types.
-- - Sharding: pkg/sharding. `list` and `watch` wrap those of another lister-watcher.
-- - Instrumented: pkg/watch.
-- - ListWatch: pkg/listwatch. Multi combines several lister-watchers; Multi/Senders has the goroutines
--   of newMultiWatch and the calls of Stop as the relation Step, Multi/Watching and Multi/Stopping what
--   it keeps and reaches. Denylist filters one, and its goroutine is Step of Denylist/Goroutine.
-- - Builder: internal/store/builder.go, which pkg/builder/builder.go passes on. A Kind stands for the
--   families, the type and the list and watch functions of a resource. Builder/Listers is the lister
--   and watcher that reflectorPerNamespace makes of those of the namespaces. The builder's theorems are
--   about any families; Store/Registry has the program's own.
-- - Handler: pkg/metricshandler. `configure_sharding`, `handle` and `run` are ConfigureSharding, the
--   informer's handlers and Run; Handler/Serve is ServeHTTP; Handler/Detect finds the own shard.
-- - Store: internal/store/utils.go, and a file for each resource, under the name of its type:
--   Store/CronJob is internal/store/cronjob.go. It has the type of the objects, as far as the families
--   read it, the wrap function, and the list of the family generators; its child Laws is
--   about their labels and texts. Store/Shapes has what the
--   generators of several resources are built from, Store/Wrapped the wrap functions' common body,
--   Store/Render the text of families, and Store/Packages what the files use of packages outside the
--   repository (schedules, quantities, IntOrString, owners).
-- - Store/Registry: the families that the builder hands on for each Kind, and what they have in common:
--   Readable says of which objects no generator panics, Names where a name stands, Stores composes them
--   with the metrics store.
-- - Main: main.go up to the start of its servers.
--
-- A Go error is the left side of a sum, and a panic the value `panic` of Result; a family generator
-- may panic, and then so does the store. A function that changes an object returns the new one. What
-- holds a mutex for a whole call is one step. The order in which Go visits a map is an argument, and
-- goroutines step relations, so the theorems are about every order. Loops are recursions on the lists
-- that they range over: there is no fuel. FNV-1a keeps its 64-bit words, int32 its 32 bits, and Atoi
-- the bounds of an int. A number that only becomes the value of a metric is an integer, and its
-- conversion a field of Float64.
--
-- Parameters, with laws where a theorem relies on one: float64, its arithmetic and the digits that
-- AppendFloat writes, regular expressions, the jump hash, Prometheus counters, watch.Filter, the API
-- server, cron schedules, resource quantities, IntOrString, and the closing of gzip writers.
--
-- Not modelled: logs, the parsing of flags by pflag, the clients and the functions of the stores that
-- only call them to list and watch, the servers' other pages, and what a reflector does between the
-- calls to its store (client-go).
pub mod Prelude
pub mod Go
pub mod Api
pub mod Metric
pub mod Generator
pub mod MetricsStore
pub mod AllowDenyList
pub mod Options
pub mod Sharding
pub mod Instrumented
pub mod ListWatch
pub mod Builder
pub mod Handler
pub mod Store
pub mod Main
