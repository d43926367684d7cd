-- ===== src/Lib.antt =====
-- Verification of gobase, a set of helper packages for Go web services.
--
-- The packages are independent of one another; each has a module here, named for it:
--   WorkQueue   pqworkqueue/main.go: a job queue in a table of the database
--   RemoteZip   remotezip/main.go: an archive of files that several workers download
--   Paginate    paginate/main.go: queries by page, with filters and an order from a request
--   SsrfProxy   pdfprinter/pdfprinter2/ssrfproxy/ssrfproxy.go: the dialer of a proxy
--   Jv          jv/arrayutil.go, jv/maputil.go, jv/set.go, jv/map.go, jv/iter.go,
--               jv/main.go (Min and Max): slices, maps, sets
--   Currency    currency/main.go: amounts in cents, printed and parsed
--   ApiVersion  apiversion/main.go: dotted version numbers and their comparison
--   RequestIp   requestip/main.go: the client's address behind proxies
--   Cors        cors/main.go: which origins may read a response
--   RateLimit   ratelimit/main.go (Limiter), ratelimit/keyed.go (KeyedLimiter, in RateLimit/Keyed)
--   Tsv         encoding/tsv/main.go: rows of tab-separated values
--   TimeUtil    timeutil/main.go: business days and weekdays
-- Base holds what they share: lists, byte strings, decimals, integers, Go's maps, and the laws of
-- these. In each module the functions are those of the Go file, in snake_case (Permutations is
-- permutations, Map.Set is map_set); a loop is a function of its own, named for its work, which
-- recurses over what the loop ranges over. The file next to it that is named for a law proves it,
-- and Tests holds runs of the code and the theorems at concrete inputs.
--
-- State and failure. A method that changes its receiver takes the old value and returns the new
-- one. An error, a panic or an index out of range is `none`, a constructor of the result, or a
-- default that the comment at the definition states. A Go map is an association list with distinct
-- keys, its order being the order in which one range loop meets the keys: what is stated for all
-- lists holds in every order. A string is the list of its bytes. The Limiter is a list of events,
-- each one channel operation of one goroutine, so a theorem about all lists is one about all
-- interleavings.
--
-- The job queue is the list of committed rows (Table, Add, Status) and, in Watch, the open slots
-- of the workers with the rows that their transactions hold. An event is one atomic action: a
-- worker that is registered, a concurrency check, a claim, a commit, a rollback, an add, a
-- cleaning. Adds are taken as committed at once; a row that a transaction holds is skipped by the
-- others, and what it wrote is seen by none before the commit. The zip of remotezip is changed
-- only under its lock, so one call is one step; what the file system, the downloads and each
-- select answer is an input.
--
-- Bounds and fuel. An int is a parameter max_int, or an integer without bound where the code only
-- compares or counts; the sums of currency.Parse, the limit of a copy in remotezip and the offset
-- of paginate are reduced modulo 2^64. The retries of remotezip run on fuel maxAttemptCt, which is
-- what the loop counts to. Iter.Next, Permutations and the loops of timeutil run on fuel: one
-- round for each item left, for each row of the product, and for each day stepped on. The theorems
-- about the first three take that much fuel and show that it gives the result; no theorem is about
-- BusinessDaysBetween.
--
-- Not modelled. What packages net and net/url know of names, connections and URLs, what package
-- strings does to Unicode case and white space, the arithmetic of float64, the calendar of package
-- time and case conversion are parameters (NetPackage, UrlPackage, Tokens, TimePackage,
-- CasePackage). Sorting, random choice and averages of jv, its text functions, the database and
-- JSON methods of NullCents, the middleware of apiversion, the janitor's ticker, ScheduleJob and
-- SetTime of timeutil, the signals, timers, delays, logs and migration of pqworkqueue, the
-- interleaving of several workers of remotezip, the database calls and the CSV of paginate, the
-- HTTP handlers of ssrfproxy, and the other packages are left out.
pub mod ApiVersion
pub mod Base
pub mod Cors
pub mod Currency
pub mod Jv
pub mod Paginate
pub mod RateLimit
pub mod RemoteZip
pub mod RequestIp
pub mod SsrfProxy
pub mod TimeUtil
pub mod Tsv
pub mod WorkQueue
