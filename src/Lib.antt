-- ===== src/Lib.antt =====
-- A model of the core of eins, a Go library of building blocks for services: its resource pools
-- (onepool), its cache with fallback and its stores (onecache), its data access (onesql), its HTTP
-- clients (onenet), the wrappers of its HTTP servers (onegovernor), and a lock that renews itself
-- (watchdog). Around them stand its wrappers of environment variables (oneenv), logs (onelog),
-- metrics (oneprom) and gin (onegin).
--
-- Pool (onepool/pool.go) has the configuration, the pooled item and its expiry. Two pools stand on
-- it.
--
-- Pool/ListPool (onepool/list.go) is `List`, a stack of idle items and a channel on which a `Get`
-- without a place waits. `ListPool` is the state under `p.mu`; `put`, `close`, `reload`, `stat` and
-- `clean_step` are `Put`, `Close`, `Reload`, `Stat` and `staleCleaner`. ListPool/Session cuts `Get`
-- at each place where it holds no lock: a goroutine is a `Session`, and `session_step` takes it
-- from one place to the next. ListPool/System interleaves `n` goroutines, the cleaner, `Close` and
-- `Reload`; `Reach` are the states that come of it. Accounting, Ownership and Limits have what
-- holds in all of them, Wakeup what a signal does, Alone what one `Get` does when nobody else runs,
-- and Stack what any calls of one goroutine do, as Pool/Order specifies it. There `get_alone` goes
-- on fuel: it takes two steps for each idle item and one more, and stops earlier when it has an
-- item, an error, or has to wait.
--
-- Pool/SlicePool (onepool/slice.go) is `Slice`, a queue of free items with requests that wait for
-- an item of their own. `SlicePool` is the state, with the channel of each request as a place in
-- `mail`; SlicePool/Session has `Get` and `itemOpener`, Requests has lemmas on `release` and on
-- what is sent, System interleaves goroutines, the opener, the cleaner and `Close`; Ownership says
-- where each item is. Cleaning is one pass of `staleCleaner`, whose loop runs on as much fuel as
-- there are free items: each round removes an item or goes one place on. Cleaner puts the goroutine
-- of `staleCleaner` with its timer, and the system, on a clock; Cleaner/Young and Cleaner/Ages are
-- about the age of items. There a turn takes no time, and comes when the timer fires or earlier.
-- Settings has `Reload`, `setIdle` and `setActive` with the mutex in the state; they have no step
-- in System, as Settings shows. Abandoned is about requests that were given up, Waiting about when
-- a request waits, and Queue about the calls of one goroutine alone, as Pool/Order specifies them.
--
-- Cache (onecache/cache.go, options.go, box.go) is `Cache`. The store, the limiter and what
-- `reflect` tells of a value are the fields of `World`, a parameter. Cache has the operations on
-- one key, Multi, Multi/Refresh and MultiGet those on many; Get, MultiGet and MultiResult have what
-- they promise, Hits and Writes lemmas on their loops. ReadThrough has the contract that the cache
-- wants of a store, `IsMap`, on terms that client and store agree on, and compares any calls over
-- such a store with the same calls on a map. An operation takes what its fallback returns as an
-- argument and says how it ended as a `Verdict`, a panic included.
--
-- Store (onecache/store/gcache.go, store.go) is `LocalStore` over a parameter `Gcache` for the
-- library gcache; a run ends with an `Outcome`. Store/Laws relates its operations, under what
-- gcache documents, and Store/Contract puts it behind the cache and shows the contract.
--
-- Store/Redis (onecache/store/redis.go) is `RedisStore` over a parameter for the client of go-redis
-- and one for its serializer; Redis/Spec says which map the store stands for, under what Redis
-- documents, Redis/Readable what can be read again, Redis/Cached puts it behind the cache,
-- Redis/Contract shows the contract for it, and Redis/CachedMulti is about `GetMulti` over it.
-- Store/Variables is the cache over `LocalStore` once more, for `Get` only, with the pointer that
-- the store is given: a variable has an address, and gcache holds addresses. Variables/Aliased has
-- gets into variables of their own, and into one variable. Store/Serializer
-- (onecache/store/serializer.go) is `JsonSerializer` over encoding/json and compress/gzip, which
-- are parameters.
--
-- Watchdog (watchdog/impl.go) is `WatchDog`: `lock`, `unlock` and `watch_wake`, one turn of the
-- goroutine of `Watch`, over a parameter for Redis. Watchdog/Exclusion interleaves several of them
-- on one key, where each unlocks only what it has won and the key does not expire. Watchdog/Lease
-- puts them on a clock with a key that does expire, all locking it for the same time, with contexts
-- that live until they unlock; Lease/Dogs, Calls, Wakes and Kept are about what they keep there.
-- Watchdog/Keeper is about the goroutine, and Watchdog/Instance has `NewWatchDog`
-- (watchdog/global.go).
--
-- Net (onenet/http.go) has a request and its settings, Net/Wire what the clients use of libraries,
-- Net/Standard and Net/Fast (onenet/standard.go, fast.go) the two clients, from the request through
-- the library's exchange to the answer; Net/Calls compares them, Net/Readers has their pool of gzip
-- readers, Net/Shared (onenet/global.go) has the clients that a process shares. What is logged is
-- left out, but for the panic that a negative size brings.
--
-- Dao (onesql/dao.go) is `FastDaoImpl`, `ComplexQuery` and `ComplexExec` over a `Builder` and a
-- `Driver`, which are parameters; Dao/Setup has what `Init` keeps. A `Run` counts the rows that an
-- operation gets and closes.
--
-- Sql (onesql/builder.go) is the builder of statements over squirrel and sqlutils, which are
-- parameters. A Go map is a list of its entries, in the order in which they come up; Sql/Select has
-- `buildSelect` and `formatWhere`, where the copied map has an order of its own, Sql/Insert the
-- other statements with rows. Sql/Scanner (onesql/scanner.go) is `fastScanner`: the rows are what a
-- binding function makes of them, and the target is told apart by its kind. Dao has parameters of
-- its own for both. Sql/Connections (onesql/fastsql.go, manager.go, oneredis/redis.go) has
-- `ComplexSelect`, `ComplexExec` and the connections.
--
-- Governor (onegovernor/response.go, request.go) has the responses and the values of a request in
-- its context, over `http.ResponseWriter` as net/http documents it; Governor/Middleware
-- (onegovernor/http.go) has `Recover`, `Prom` and `Logger`, which take a handler to a handler.
-- Governor/Served has what a handler behind them finds, Governor/Metrics what oneprom shows of it.
--
-- Env (oneenv/env.go) has the environment of a service, Log (onelog/onelog.go) the default logger
-- and the fields that a logger gets, Prom (oneprom/prom.go) the metrics, as functions of the values
-- of their labels; Prom/Labels runs any calls after `Init`.
--
-- Gin (onegin/gin.go, response.go, ginerr/err.go) has the routes and the answers, with gin as a
-- list of what it was told, which it may refuse with a panic. Gin/Request (onegin/ginreq/req.go,
-- args.go) is a request that keeps its body and its query; Gin/Request/Reads reads it again and
-- again.
--
-- Elastic (onees/onees.go) has the options of its client for Elasticsearch, and `MustConnect`.
--
-- Prelude has the numbers, lists and finite families that the components share.
--
-- Times and durations are numbers of nanoseconds (but of seconds in Elastic), and integers of Go do
-- not overflow here: a pool counts items that exist, and a request key grows by one a request. The
-- clock is an argument of each step. Which request a map iteration meets first is an argument too.
-- The capacity of `openerCh`, which is 1,000,000, has no bound here. The store of a cache is given
-- the value that `dst` points to, and not the pointer, but in Store/Variables. The errors that
-- closing an item returns are left out, as the pools only pass them on.
--
-- Not modelled: the HTTP handler of the metrics (oneprom), the text of log lines, and `TimeoutRun`,
-- in which the clients of onenet run their calls. These only call libraries, whose behaviour is not
-- part of the repository.
mod Prelude
pub mod Pool
pub mod Cache
pub mod Store
pub mod Dao
pub mod Watchdog
pub mod Net
pub mod Sql
pub mod Governor
pub mod Env
pub mod Log
pub mod Prom
pub mod Gin
pub mod Elastic
