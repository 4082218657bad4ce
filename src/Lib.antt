-- ===== src/Lib.antt =====
-- Verification of the core logic of metaphysics, the GraphQL gateway of this repository.
--
-- The program answers GraphQL queries by calling services (Gravity, Exchange and others) through
-- loaders and by shaping their answers for clients. Resolvers under src/schema/v2 call loaders,
-- which read through the cache, and hand the answers to helpers that compute what a client shows:
-- page cursors, the sections of the home view, dates, the texts and price lines of orders, search
-- results. What the program computes itself is modelled here, one module to a part:
--
--   Common          numbers, texts, lists and options as the runtime treats them
--   Pagination      src/schema/v2/fields/pagination.ts: create_page_cursors is createPageCursors,
--                   with a function to each branch and helper; Pagination/Args has the conversions
--                   of src/lib/helpers.ts that feed it, and paginationResolver
--   Version         src/lib/semanticVersioning.ts: versions of the app and their comparison
--   HomeView        src/schema/v2/homeView: isSectionDisplayable (which uses Version), the two
--                   rules of the mixer, getSections, and the price buckets
--   Dates           src/lib/date.ts; Dates/Status has the functions from relativeDays on
--   Order           src/schema/v2/order/types: the display texts of buyers (Order/DisplayTexts)
--                   and of sellers (Order/SellerTexts), and the breakdown lines (Order/Pricing)
--   SearchableItem  src/schema/v2/SearchableItem/SearchableItemPresenter.ts: links and display
--                   types, and the descriptions in SearchableItem/Descriptions
--   Timeout         work raced against a timer: _get of src/lib/cache.ts (Timeout/Cache),
--                   withTimeout of src/lib/loaders/helpers.ts (Timeout/Loader) and
--                   src/lib/rateLimiter.ts (Timeout/RateLimiter)
--   Errors          src/lib/graphqlErrorHandler.ts: which errors are reported, and the answer
--   ServiceErrors   src/lib/gravityErrorHandler.ts: what a client gets of a service's error, on
--                   JSON values (ServiceErrors/Handler)
--   Batch           src/lib/loaders/batchLoader.ts: the function that DataLoader is given, which
--                   groups keys, calls the loaders and hands out the answers; Batch/Loader has
--                   the function that batchLoader returns, which hands keys to DataLoader;
--                   Batch/Serialized reads serialized parameters back
--   ApiLoader       src/lib/loaders/api/loader_without_authentication_factory.ts: loads through the
--                   cache, with the stamping of _set of src/lib/cache.ts, and what the cache holds
--                   after them; the shape of what a load gives is in ApiLoader/Stamped
--   SaleArtworks    src/lib/loaders/batchSaleArtworkLoader.ts: the sale artworks of a batch of
--                   keys, one request to a sale; SaleArtworks/Wrapper keeps promises by key
--   AllPages        src/lib/all.ts: all pages of a list through its loader; AllPages/Followed has
--                   allFollowedArtistsLoader of src/lib/loaders/helpers.ts
--   FieldSelection  src/lib/isFieldRequested.ts, and isSkipped of src/lib/hasFieldSelection.ts:
--                   whether a query asks for a field
--   Shuffle         src/lib/shuffle.ts: the hash, the random numbers and the shuffle
--   SavedSearch     src/schema/v2/previewSavedSearch/searchCriteriaLabel.ts: the labels of a saved
--                   search, with the tables of src/lib that they are looked up in, and the
--                   name of a saved search (SavedSearch/DisplayName, from
--                   generateDisplayName.ts beside it), and the suggested filters
--                   (SavedSearch/Suggested, from suggestedFilters.ts beside it)
--   DaySchedules    src/schema/v2/types/formattedDaySchedules.ts: the opening hours of a week
--   Insights        src/schema/v2/artist/helpers.ts and insights.ts beside it: the insights of an
--                   artist, their texts (Insights/Texts), and the resolver (Insights/Resolver)
--   MyBids          src/schema/v2/me/myBids.ts: the lots of a user's sales, active and closed, with
--                   the requests and the joining of their answers in MyBids/Resolver
--   CollectorAttributes
--                   src/schema/v2/CollectorProfile/helpers/selectCollectorAttributes.ts
--   ArtworksForUser src/schema/v2/artworksForUser: the artworks that are new for a user, with
--                   backfill
--   Recommendations src/schema/v2/me/artworkRecommendations.ts and artistRecommendations.ts: which
--                   service recommends works and artists, and their pages
--   FilterArtworks  src/schema/v2/filterArtworksConnection.ts: the arguments and their new names, the
--                   checks (FilterArtworks/Checks), the options and the choice of the loader
--                   (FilterArtworks/Query), and the resolver (FilterArtworks/Connection)
--   Search          src/schema/v2/search/SearchResolver.ts: the results of a search and which of
--                   them are loaded
--   HomePage        src/schema/v2/home: the artwork modules of the home page, the generic genes, and
--                   the resolver with the followed genes and the related artists
--                   (HomePage/Modules)
--   ContextGrids    src/schema/v2/artwork/artworkContextGrids and context.ts beside it: the grids
--                   beside a work, their titles and connections (ContextGrids/Connections), and
--                   the work's context
--   CollectorSignals
--                   src/schema/v2/artwork/collectorSignals.ts: the signals of lots and the label of
--                   a work
--   Money           src/lib/moneyHelpers.ts: the texts of a price, which Insights shows
--
-- Correspondence. A function keeps its name in snake case, and so do the fields of a record; a
-- chain of ifs and early returns is a chain of ifs in the same order. A value that may be null or
-- undefined is an Option where the code does not tell the two apart. Numbers that the code takes
-- from users or services as counts, sizes, pages, cents and years are natural numbers; a number
-- that may be NaN is an Option, and every comparison with `none` is false. Handlers that the
-- runtime calls in any order are functions on the state of one call, under a step relation whose
-- constructors say when the runtime may call them. Objects whose keys the code renames, spreads
-- and deletes are the objects of Common/Json, with Common/Lookup on what their fields are
-- afterwards; a loader that rejects answers `none`.
--
-- Bounds. All loops are structural recursion, on a list or on a number that the code computes
-- before the loop (the pages of a window or of a list, the index of a shuffle), so no fuel is
-- needed, save for the digits of a number in Common: a number has no more digits than itself and
-- one, which is their fuel.
--
-- Parameters. moment-timezone, graphql-relay, relay-cursor-paging, the runtime's Number, the
-- Unleash client, resolveMoney, stripTags, numeral, JSON.parse and the formats of moment are
-- arguments of the definitions that use them. The memcached client, zlib and express-rate-limit
-- are the sources of the events in Timeout, and the loaders of a batch are arguments, with what
-- they answer as hypotheses. DataLoader gives promises of an abstract type, or the values that a
-- batch gives; JSON.stringify and the tree of graphql-parse-resolve-info are arguments. The
-- nodes of a query that `visit` of the package graphql visits, Math.random and lodash's
-- sampleSize are arguments too, and so is the value undefined of a shuffle, which a read outside
-- the array gives. The instant of moment() is fixed during one call, and so is the
-- present of Date.now().
--
-- Not modelled: helpers of single types that nothing above uses (fields of money, displays of
-- sales, images, the visits of a query by hasFieldSelection, the titles and results of a home
-- page module); the GraphQL types, the other resolvers and the mutations of src/schema/v2, which
-- declare fields and pass arguments on to loaders; the loaders and the HTTP client; schema
-- stitching; directives, tracing and the server's start; configuration and data files other than
-- the tables of SavedSearch.
mod Common
pub mod Pagination
pub mod Version
pub mod HomeView
pub mod HomePage
pub mod Dates
pub mod Order
pub mod SearchableItem
pub mod Timeout
pub mod Errors
pub mod Shuffle
pub mod SavedSearch
pub mod Batch
pub mod ApiLoader
pub mod SaleArtworks
pub mod DaySchedules
pub mod Money
pub mod AllPages
pub mod ArtworksForUser
pub mod Recommendations
pub mod ServiceErrors
pub mod CollectorAttributes
pub mod ContextGrids
pub mod FieldSelection
pub mod FilterArtworks
pub mod Search
pub mod CollectorSignals
pub mod MyBids
pub mod Insights
