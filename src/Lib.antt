-- ===== src/Lib.antt =====
-- A verification of go-hypercube's core: the parts of the framework that order plugins, keep
-- registries, read and run migrations, schedule and run jobs, and set the whole up.
--
-- The program. An app (app/app.go) holds plugins and registries of commands, seeders, migrations and
-- jobs, all slices of namespaced items (namespaced/namespaced.go). Setup orders the plugins by their
-- dependencies (app/plugin.go) with a generic graph (internal/structure/graph.go); the migration
-- commands (app/migration.go) walk a namespace's migrations in name order over a tracking table; a
-- worker (app/queue.go) takes messages from a queue driver, runs the registered job and settles the
-- delivery under the job's retry policy (job/). Migrations also come from embedded files
-- (migration/embed.go), which a parser splits into statements (migration/parser.go). Recurring tasks
-- belong to a namespace (scheduler/scheduler.go), and services are bound by type and name
-- (internal/container/service_container.go).
--
-- The files.
--   Common        tests, lists, association lists, stable sorting; an association list stands for a
--                 Go map, and a Text is a string as the list of its code points
--   Graph         internal/structure/graph.go: Graph, add_vertex, add_edge, dfs,
--                 get_topological_or_cycle, get_reverse_topological_or_cycle
--   Namespaced    namespaced/namespaced.go, one definition per method
--   Registry      registerCommandForNamespace of app/cmd.go, registerSeederForNamespace of
--                 app/seeder.go, registerJobForNamespace of app/queue.go and
--                 registerMigrationForNamespace of app/migration.go
--   Database      the tracking tables and the statements of app/migration.go and app/seeder.go, as a
--                 state monad with errors over a world
--   Runner        the loops over namespaces that app/migration.go and app/seeder.go share; Visits says
--                 what such a loop comes to
--   Migrations    the commands of app/migration.go, with MigrationState
--   Seeders       the commands of app/seeder.go, with SeederState
--   Job           the policies and defaults of job/
--   Worker        app/queue.go: dispatch, processMessage, deadLetter, and in Loop consumeQueue and
--                 Worker, with the errors of queue/err.go
--   Plugins       app/plugin.go with plugin/plugin.go
--   Parser        migration/parser.go: parse_raw_migration, split_up_down, split_statements; Strings has
--                 what it uses of Go's packages strings and bufio, Printer a writer of such files
--                 and Loop the inner loop of splitStatements as it is written
--   Embed         migration/embed.go, and RegisterMigrationFromFs of app/migration.go
--   Scheduler     scheduler/scheduler.go, and the table of owned schedules that it implements
--   AppSchedule   app/schedule.go, with the scheduling calls of plugin/job.go and job/schedule.go
--   Lifecycle     app/app.go: New, Setup, Boot; Host has what a host application calls on its app
--   Container     internal/container/service_container.go
--
-- The world of Database. A call of the database fails or not as the list `faults` says, one entry per
-- call, so that a theorem about every world covers every pattern of failures. The schema is of any
-- type and a statement acts on it by the parameter `exec`, which may refuse it. A transaction works on
-- a copy of the schema that Commit stores; a Commit that fails leaves the schema as it was, although a
-- database may then have stored it. The clock does not advance within a command, so the rows that one
-- command records have one time. An error of the model names the step that failed.
--
-- A seeder's Run is a function from the schema to an error or none and the schema that it leaves; it
-- touches neither tracking table, and what a failing run did stays done.
--
-- Bounds. The closure dfs of the graph takes the depth of its recursion as fuel: one more than the
-- number of vertices and ends of edges, since each call enters a vertex that no call had entered.
-- The walk back along `parent` takes the same bound, since it meets no vertex twice. A time.Duration
-- is its 64-bit pattern.
--
-- The loop of consumeQueue does not end by itself: what Pop returns, what ctx.Err returns then and
-- whether the timer of waitForQueueRetry fires is a list of rounds, and the loop is followed through as
-- many rounds as are given.
--
-- The inner loop of splitStatements takes a bound on its rounds, one more than the line has characters;
-- the definition that the parser uses makes one pass over them instead, with the same result.
--
-- Files. A text is valid UTF-8. bufio.Scanner gives up at a line of 64 KiB, counted in bytes; the length
-- of a line is counted as far as the limit.
--
-- Parameters. golang.org/x/mod/semver is the record Semver; the queue driver is a function from
-- commands to errors, a job's handler a function from payloads to errors, and the JSON encoding of
-- the dead-letter metadata a function that may fail. A worker's message is followed through its
-- deliveries by the documented contract of Queue.Pop and Queue.Retry (queue/queue.go). gocron is the
-- record Gocron, with its documented behaviour as IsGocron: it applies the options of a job in order, so
-- that the identity that Schedule puts behind the configured options is the job's; an embedded file system is the record
-- EmbedFs; unicode.ToLower beyond ASCII is a function. The conversions to any and the type assertions
-- of Go are the record Interfaces, with the rules of the language as IsGo. What a plugin's Register and
-- Boot do to the rest of the program is a function on an environment.
--
-- Not modelled. Goroutines, whose calls are sequences here; the configuration, which reads the process;
-- the choice of SQL placeholders; the interface of the cache, which has no implementation; the set of
-- internal/collection, which nothing uses; accessors and the other fields of the facades that plugins,
-- jobs, commands and seeders are given. Nil pointers other than a nil job, a nil task, a nil message or
-- a nil option do not occur, and log lines keep only their kind.
pub mod Common
pub mod Graph
pub mod Database
pub mod Job
pub mod Migrations
pub mod Namespaced
pub mod Plugins
pub mod Registry
pub mod Worker
pub mod Runner
pub mod Seeders
pub mod Parser
pub mod Embed
pub mod Scheduler
pub mod AppSchedule
pub mod Lifecycle
pub mod Container
