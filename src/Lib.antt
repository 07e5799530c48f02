-- ===== src/Lib.antt =====
-- A verification library of the fulfillment service: models of the parts of the Go program that
-- decide who may see and change what, and theorems about them.
--
-- The service keeps its objects in PostgreSQL tables, one table and one archive table for each
-- type. gRPC servers (internal/servers) receive requests, ask the tenancy and attribution logic
-- (internal/auth) what the subject of the request may see and assign, and call the generic data
-- access object (internal/database/dao), which writes SQL. Sets of tenants are the sets of
-- internal/collections, which may be given by exclusion.
--
-- Prelude.antt has the shared names, Boolean tests, sorting and integers (Prelude/Order.antt and
-- Prelude/Sorting.antt prove that sorting forgets the order and nothing else). Errors.antt has the
-- errors of the program as values (internal/database/dao/dao_errors.go and gRPC status codes), and
-- the monad of results.
--
-- Collections.antt models internal/collections/sets.go: Set, its constructors and its operations.
-- Collections/Maps.antt has the loops over key maps; Collections/Membership.antt,
-- Collections/Distinct.antt and Collections/Comparison.antt prove what the operations do.
--
-- Auth.antt models internal/auth: Subject with UnmarshalJSON and MarshalJSON, and the methods of
-- DefaultTenancyLogic, GuestTenancyLogic, DefaultAttributionLogic and SystemAttributionLogic.
-- Auth/Wire.antt and Auth/Tenancy.antt prove their properties.
--
-- Dao.antt models the types and helpers of internal/database/dao (generic_dao_request.go): a Store
-- is a table, its archive and the events fired. Dao/Requests.antt has the requests (the `do`
-- methods of CreateRequest, GetRequest, ExistsRequest, UpdateRequest and DeleteRequest),
-- Dao/Translation.antt their `translateError` methods. Dao/Rows.antt has lemmas on rows,
-- Dao/Lifecycle.antt the step relation of requests and its invariant, Dao/Access.antt what
-- requests see and change, Dao/Outcomes.antt what they leave, and Dao/Resaving.antt what reading
-- an object and writing it back leaves. Dao/Filter.antt models the assembly of SQL text in
-- filter_translator.go; Dao/Filter/Reading.antt is PostgreSQL's reading of that text by the
-- precedences of its operators, and Dao/Filter/Binding.antt and Dao/Filter/Meaning.antt relate the
-- two. Dao/Listing.antt models generic_dao_list.go, and Dao/Selection.antt and Dao/Page.antt prove
-- which rows a list request selects and answers with. Dao/Paging.antt has the lemmas on walking a
-- table page by page, Dao/Absence.antt what an empty answer says.
--
-- Servers.antt has the parts of internal/servers/generic_server.go. Servers/Tenants.antt models
-- determineAssignedTenant, Servers/Labels.antt the validation of metadata, with
-- Servers/Labels/Keys.antt on the keys. Servers/Generic.antt models Get, Create (with
-- prepareForCreate and dry runs), Update (with its version check, masks, equivalentObjects) and
-- Delete over the DAO; a Server holds what the DAO, the tenancy and attribution logic, the request
-- header and protovalidate answer in one request. Servers/Generic/Reads.antt has List and Signal.
-- Servers/Generic/Effects.antt, Servers/Generic/Locking.antt and Servers/Generic/Replacing.antt
-- prove what they do, Servers/Generic/Statuses.antt what errors they answer with.
--
-- PublicIps.antt models internal/servers/private_public_ips_server.go: the messages, the state
-- machine and the counters of a pool, with the wrap-around of int64. PublicIps/Pools.antt has
-- validatePoolReference and updatePoolCapacity, PublicIps/Requests.antt Create, Update, Delete and
-- selectPool, with updateIncludesField of field_mask.go. PublicIps/Capacity.antt and
-- PublicIps/Counters.antt prove what happens to counters, PublicIps/Reachability.antt what any
-- sequence of requests keeps of them, PublicIps/Selection.antt which pool is selected,
-- PublicIps/Transitions.antt what an update may change, and PublicIps/Equality.antt gives the
-- equality of messages.
--
-- PublicIpAttachments.antt models the messages of
-- internal/servers/private_public_ip_attachments_server.go, and PublicIpAttachments/Requests.antt
-- its Create, Update and Delete with their tests, over Servers/Generic.antt, the DAO and
-- PublicIps.antt. PublicIpAttachments/Flags.antt is about updatePublicIPAttachedFlag,
-- PublicIpAttachments/Attaching.antt and PublicIpAttachments/Detaching.antt about single requests;
-- PublicIpAttachments/Targets.antt, PublicIpAttachments/Invariant.antt and
-- PublicIpAttachments/Reachability.antt are about sequences of requests, and
-- PublicIpAttachments/Equality.antt gives the equality of messages.
--
-- PublicIpPools.antt models the validation and the capacity of pools in
-- internal/servers/private_public_ip_pools_server.go, with cidrsOverlap of
-- private_subnets_server.go, and PublicIpPools/Requests.antt its Create, Update and Delete over
-- Servers/Generic.antt. Prefixes of net/netip are a parameter, the record Networks, with what its
-- documentation says in the record Documented. PublicIpPools/Capacity.antt is about
-- calculatePoolCapacity, PublicIpPools/Addresses.antt about the addresses that networks share,
-- PublicIpPools/Overlap.antt and PublicIpPools/Paging.antt about the checks for overlaps,
-- PublicIpPools/Creation.antt and PublicIpPools/Updating.antt about the requests.
--
-- ClusterVersions.antt models the effects of an update on a version in
-- internal/servers/private_cluster_versions_server.go, ClusterVersions/Validation.antt its tests
-- and defaults, ClusterVersions/Queries.antt the filters by which other versions are found, and
-- ClusterVersions/Requests.antt Create, Update and Delete, with their loops over other versions.
-- ClusterVersions/Listing.antt is about listAllMatching, ClusterVersions/Eligibility.antt,
-- ClusterVersions/Creation.antt and ClusterVersions/Updating.antt prove what the requests leave,
-- and ClusterVersions/Equality.antt gives the equality of messages. Semantic versions and the name
-- that generateNameFromVersion makes are parameters.
--
-- CatalogItems.antt models internal/servers/catalog_item_validation.go: nested maps of JSON
-- values, getNestedValue, setNestedValue and collectLeafPaths. CatalogItems/Definitions.antt has
-- applyFieldDefinitions and validateFieldDefinitions. CatalogItems/Nested.antt and
-- CatalogItems/Leaves.antt have the laws of nested maps, CatalogItems/Applying.antt is about one
-- definition and CatalogItems/Settling.antt about all of them. encoding/json, protojson and
-- jsonschema are parameters, the record Libraries.
--
-- Masks.antt has messages as trees, as far as internal/masks reads and writes them through
-- protoreflect. Masks/Paths.antt models mask_path.go (Path with Get, Set and Clear),
-- Masks/Compiler.antt mask_path_compiler.go, Masks/Calculator.antt masks_calculator.go, and
-- Masks/Merging.antt the loop of GenericServer.Update that applies a mask to the current object. A
-- panic of the Go program is an outcome. Masks/Slots.antt has the laws of fields and the induction
-- on messages. Masks/Differences.antt, Masks/Sameness.antt and Masks/Cases.antt are about the
-- calculator, Masks/Nesting.antt, Masks/Wholes.antt and Masks/Convergence.antt about an update
-- with the mask that it gives, and Masks/Laws.antt, Masks/Indexes.antt and Masks/Setting.antt
-- about Get and Set.
--
-- Console.antt models the sessions of internal/console/manager.go. The methods of Manager run at
-- the same time in the source; Console/Steps.antt has a step for each of their atomic parts, which
-- the lock of the map makes so, and Console/Invariant.antt the invariant of every interleaving.
-- Console/Sessions.antt has lemmas on the map, and Console/Exclusion.antt proves who holds a
-- session.
--
-- A request runs in one transaction that is rolled back when it fails, so an error carries no
-- store. Requests are sequential: the row locks of the source make them so for one row. SQL
-- statements are functions on lists of rows; rows are found by identifier and tenant, as the where
-- clauses say. Recursion is structural, except in two loops over pages, that over existing pools
-- (check_pages in PublicIpPools/Requests.antt) and that of listAllMatching (list_pages in
-- ClusterVersions/Requests.antt). These run on fuel, one more than the rows of the table, which is
-- enough, since no page but the last is empty.
--
-- Not modelled: texts of messages, logging, metrics, JSON encoding of documents, changes that
-- database triggers make to a row beyond refusing it, and the overflow of the int32 version.
-- Operands of filters are atoms. The constraints and triggers of the database, its clock, the
-- generated identifiers and the event callbacks are parameters, and so are protovalidate and, in
-- Server, one path of an update mask (internal/masks). Generated code, the command line, the
-- gateway, OAuth flows, the reconcilers, and the tickets and the relay of the console are not
-- modelled.
pub mod Prelude
pub mod Collections
pub mod Errors
pub mod Auth
pub mod Dao
pub mod Servers
pub mod PublicIps
pub mod PublicIpAttachments
pub mod PublicIpPools
pub mod ClusterVersions
pub mod CatalogItems
pub mod Masks
pub mod Console
