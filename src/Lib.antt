-- ===== src/Lib.antt =====
-- A verification library for mikrouli, a URL shortener: its API (apps/api/src) and the state of its web
-- client (apps/web/src). The API is a NestJS server over PostgreSQL, Redis and ClickHouse. A visitor of a slug is redirected by way of a cache
-- in Redis that stands before the table of links; users and a shared Guest create links under a
-- monthly quota; sessions are an access token and a refresh token whose id is kept in Redis; API
-- keys speak for their owners; an MCP tool creates links too; an hourly job removes expired links.
--
-- Which file is about which part; of the API, the paths are those under apps/api/src:
--   Http, Io           exceptions as values, and asynchronous code as explicit state passing: a call
--                      changes the state and returns or throws. App is the state of the process:
--                      the database, the Redis server, and the runtime (clock, randomness, crypto).
--   Services           the entities and the calls of TypeORM, ioredis, bcryptjs, @nestjs/jwt and Node
--                      that the code makes, as records of functions over any state; Services.Laws
--                      states what the code relies on of them; Services.Memory is an instance;
--                      Services.Slugs is the comparison of slugs in links/link.entity.ts's column.
--   Slug               links/slug-generator.service.ts
--   Calendar, Usage    usage/usage.service.ts (getMonthBounds and the quotas), common/constants.ts
--   Redis, Cache       redis/redis.service.ts, cache/link-cache.service.ts
--   Urls               links/dto (the validators of a destination), redirect.service.ts hasHttpScheme
--   Redirect           redirect/redirect.service.ts and redirect.controller.ts
--   Links              links/links.service.ts; Links.Controller is links/links.controller.ts
--   Users              users/users.service.ts
--   Auth               auth/auth.service.ts; Auth.Controller is auth/auth.controller.ts
--   ApiKeys            api-keys/api-keys.service.ts; ApiKeys.Guards are the guards of api-keys,
--                      common/credential-presence.ts and auth/jwt.strategy.ts
--   Oauth              auth/github.strategy.ts and github-oauth.errors.ts
--   Stats              stats/stats.service.ts, stats.controller.ts and ua-parser.ts
--   ClickHouse         clickhouse/clickhouse.service.ts, the schema and the dictionaries
--   Correlation        common/correlation-id.ts, its middleware and its logger
--   Problems           common/problem-details.ts and problem-details.filter.ts
--   Mcp                mcp/create-short-link.handler.ts and mcp-error-mapper.ts
--   Cleanup            cleanup/cleanup.service.ts
--   Coherence          the handlers of links and redirects and the cleanup run one after the other, and
--                      the cache beside the table
--   Throttling         common/throttler-policy.ts and credentialed-request-throttler.guard.ts
--   Telemetry          instrumentation.ts
--   Web                of apps/web/src: Web.Client is api/client.ts, Web.GuestFlag
--                      hooks/useGuestShortenEnabled.ts with apps/web/scripts/runtime-config.njs,
--                      Web.Clipboard hooks/useCopyToClipboard.ts, Web.ThemeMode
--                      theme-mode-context.tsx, Web.Session the folder auth with App.tsx,
--                      pages/LoginPage.tsx and RegisterPage.tsx, Web.Register pages/RegisterPage.tsx
--                      with the API's auth/dto/register.dto.ts, Web.Dashboard
--                      pages/DashboardPage.tsx, Web.Shorten components/ShortenCard.tsx with the guest's
--                      section of pages/LandingPage.tsx, Web.Regex the character classes of their patterns
--   Examples           runs of all of these, those of the API over Services.Memory
-- A definition has the name of the function it translates, in snake case. A child module proves what
-- its name says of its parent.
--
-- Bounds and fuel. build_slug takes the rounds of its loop, which in the source is unbounded: six are
-- enough from any stream in which no three neighbours are all rejected (Slug.Sampling). The retries
-- of a creation are bounded in the source, by five. year_of_day counts years down from the number of
-- days, which is enough because a year has a day at least; decimal in Mcp has a round for each unit
-- of its number. Times are milliseconds since the epoch and not before it. The awaited calls of a
-- handler run in order, and those of Promise.all one after the other; a query of another request may
-- fall between two runs of handlers, but not inside one.
--
-- Parameters. The parsers of URLs and IP addresses, the syntax checks of class-validator, passport's
-- extraction and verification of access tokens, base64 and JSON of a token's payload, and Number()
-- are functions that the definitions take. Services may throw at any call; a law says what holds
-- where a call has returned, and what a failed call leaves alone.
-- URLSearchParams, fetch, @nestjs/throttler's guard and the letter case of texts are taken likewise.
--
-- The web client's pages are machines: an event is something that the reader does or an answer that
-- arrives, and a run is a list of them in any order. What React renders is a function of the state,
-- and a query of @tanstack/react-query changes it by events of its own.
--
-- The table of links is read by what its column, CHAR(6), compares: trailing blanks are ignored. The
-- slugs that are made have six characters, as Slug.Sampling proves of the generator and the field
-- generate_fills of SlugGenerator relies on.
--
-- Not modelled: a creation with an explicit null for its expiry, which the validation lets through and
-- which makes a link without one; health, the migrations, the wiring of modules,
-- logging and connection handling; of the web client, what its pages draw, the pages
-- ApiKeysPage, StatsPage and UsagePage, translations and styling.
pub mod ApiKeys
pub mod Auth
pub mod Cache
pub mod Calendar
pub mod Cleanup
pub mod ClickHouse
pub mod Coherence
pub mod Common
pub mod Correlation
pub mod Examples
pub mod Http
pub mod Io
pub mod Links
pub mod Mcp
pub mod Oauth
pub mod Problems
pub mod Redirect
pub mod Redis
pub mod Services
pub mod Slug
pub mod Stats
pub mod Telemetry
pub mod Throttling
pub mod Urls
pub mod Usage
pub mod Users
pub mod Web
