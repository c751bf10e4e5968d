-- ===== src/Lib.antt =====
-- Miniflux, a reader of feeds: the parts of internal/ that decide what is fetched, kept, shown and
-- accepted.
--
-- The program polls feeds. A batch of jobs is ordered by host (internal/worker), each job fetches its
-- feed under the limits of the host (internal/reader/fetcher) and perhaps through a proxy
-- (internal/proxyrotator). The entries that the parser finds pass the filter (internal/reader/filter),
-- are compared with the stored ones (internal/model, FeedRefreshed), and entries that several feeds of
-- one user bring are read in all feeds but one (internal/storage/dedup.go). Requests that change users,
-- categories and entries pass the checks of internal/validator, whose rule sets the filter reads
-- later. The Google Reader API (internal/googlereader) names feeds, labels and entries by ids of its
-- own, reads them back, and marks and stars the entries that a query of internal/storage finds. The web
-- interface shows lists by page (internal/ui/pagination.go) and texts in plural forms
-- (internal/locale), and finds the client's address (internal/http/request/client_ip.go).
--
-- The files, each with the code that it models:
--   Base             helpers: tests, lists, dictionaries, Go's int (ℤ), strings, slices.Sort/Compact
--   Model/Entry      internal/model/entry.go, enclosure.go
--   Model/Feed       internal/model/feed.go: Feed, FeedModificationRequest
--   Model/Category   internal/model/category.go
--   Model/User       internal/model/user.go
--   Model/Refreshed  internal/model/feed.go: FeedRefreshed, mapStoredEntries
--   Storage/Dedup    internal/storage/dedup.go
--   Storage/EntryQuery internal/storage/entry_query_builder.go
--   Storage/Entries  internal/storage/entry.go: the updates that mark, star and flush entries
--   Storage/Categories internal/storage/category.go: what a rename of a category needs
--   Fetcher/Limits   internal/reader/fetcher/limits.go, Client.Do and Close: one host, its
--                    requests and Expire
--   Fetcher/Hosts    internal/reader/fetcher/limits.go: limitHosts, the table of the hosts
--   Fetcher/Proxies  internal/proxyrotator/proxyrotator.go
--   Worker/Distribute internal/worker/pool.go: distributeJobs
--   Worker/UserCache internal/worker/cache.go
--   Reader/Filter    internal/reader/filter: Rules (rules.go), Dates and Entries (filter.go, age.go,
--                    authors.go, uniq.go)
--   Validator        internal/validator: Checks (validator.go, entry.go), User, Category, Feed
--   Locale/Plural    internal/locale/plural.go, printer.go
--   Ui/Pagination    internal/ui/pagination.go
--   Http/ClientIp    internal/http/request/client_ip.go
--   GoogleReader     internal/googlereader: Streams (stream.go, prefix_suffix.go), Items (item.go), Pages
--                    (request_modifier.go, handler.go), Tags, EditTag, Marking,
--                    Subscriptions and RenameTag (handler.go)
-- A definition has the name of its Go function in snake case. A method that changes its receiver
-- returns it, a method with an error returns an Option, a sum or a result type, a nil dereference or an
-- index out of range is a value of that type. The Tests modules run definitions at inputs and apply the
-- theorems there.
--
-- State and interleaving: Fetcher/Limits/World has the steps of a request between two critical sections
-- of its host as `client_step`, and `Step` and `Reach` let any number of requests take them in any
-- order, with look-ups of the host, which create it where it is not in the table, and Expire, which drops
-- it. In a run that is `IsOrderly` no Expire drops the host between the look-up of a request and its
-- IncRefs; the code does not rule out others, and a test of Fetcher/Hosts shows what may happen there. Storage/Dedup runs a history of calls under its mutex in sequence. Fetcher/Hosts has pointers as
-- addresses in a heap, so that limits outlive their entry in the table; Storage/Entries has the table of
-- entries as a list of rows.
--
-- Numbers: instants and durations are nanoseconds, identifiers natural numbers. Go's int is ℤ without
-- wrap-around, except for the durations of the date rules and of the next check, which wrap at 64 bits. Strings are code
-- points, and lengths in bytes are counted as UTF-8.
--
-- Fuel: `rounds` of Worker/Distribute counts down from the number of jobs; a round yields at least one
-- job. The client of GoogleReader/Pages/Walk has a round for each page, and one more than there are items
-- is enough. The digits of Base/Numbers recur on Acc. All other recursions are structural.
--
-- Parameters: regexp, strings.ToLower, time.Parse and the like come as the record
-- Reader.Filter.Dates.Library, golang.org/x/sync/semaphore as Fetcher.Limits.Semaphores with its
-- documented laws, net/url as functions, the answers of the database as Validator.User.World.
--
-- GoogleReader/Pages takes the two queries of a page as functions, with the laws of LIMIT, OFFSET and
-- count over one list; GoogleReader/EditTag takes the query of the entries and the failures of the writes, where `attempted`
-- are all that the error group starts,
-- GoogleReader/Subscriptions the storage of feeds and categories, with what an update or a creation changes.
--
-- Not modelled: the SQL of internal/storage but for the updates of entries and a rename of a category, the parsers and rewriters of HTML and XML, the handlers of
-- the web interface and of the APIs, the integrations, the configuration, and logging, which are input
-- and output or calls of libraries.
pub mod Base
pub mod Model
pub mod Storage
pub mod Worker
pub mod Fetcher
pub mod Reader
pub mod Http
pub mod GoogleReader
pub mod Locale
pub mod Ui
pub mod Validator
