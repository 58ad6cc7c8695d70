-- ===== src/Lib.antt =====
-- agent-transcript archives the sessions of coding agents in an encrypted bucket and lists local and
-- archived sessions together. This library models its core over plain data.
--
-- Parts, with the file that models each (paths are those of the repository):
-- - Freshness: src/merge.rs, first half. `rank`, `prefer` and `choose_current` decide which of several
--   snapshots of a session is current. Freshness/Order describes the order by times and message
--   counts, Freshness/Choice the loop of `choose_current`.
-- - Merge: src/merge.rs, second half. `select` merges the local sessions with the archived ones of one
--   repository. Merge/Pair is about one pair of copies, Merge/Scope and Merge/Unique about which
--   sessions are listed and how often, Merge/Listing about the order.
-- - Catalog: src/catalog.rs. `merge_catalogs` and `validate`; Catalog/Steps inverts a successful merge,
--   Catalog/Union, Catalog/Keys and Catalog/Valid are about its result, Catalog/Total about when it
--   succeeds. Catalog/Prune models `prune_to_current`: its hash map is compared with a specification, `survivors`, in
--   Catalog/Prune/Survivors; Cuts, Keeps and Kept are about the pruned list.
-- - Bucket: the object store of src/store.rs as the other parts call it, an interface with the documented
--   behaviour of conditional writes. Remote: src/remote.rs. `load_catalog` and `commit_catalog`, whose
--   five attempts are the recursion of `commit_loop`; Remote/Attempt inverts its steps, Remote/Commit
--   is about what a commit replaced and stored, Remote/Conflict about its errors,
--   Remote/Retry about the attempts of a commit that succeeds. Encryption and
--   serialisation are an interface there.
-- - Plaintext: src/remote.rs. `load_plaintext` and `prune_plaintext_cache`; Plaintext/Integrity is about
--   what is returned, Plaintext/Pruning about which files are removed. The filesystem and SHA-256
--   are parameters.
-- - Crypto: src/crypto.rs. `encrypt` and `decrypt` over an interface of the packages; Crypto/RoundTrip fills
--   the interface of encryption that Remote takes.
-- - Sessions: src/sessions.rs. `choose_local`, `remote_views`, `merged` and `find_session`;
--   Sessions/Copies has `local_views` and `grouped` of src/local_state.rs, whose hash map is a list in
--   the order in which the groups come up, and Sessions/Copies/Partition is about that grouping.
--   Sessions/Views is about what readers see of a catalog, Sessions/Locals about the choice among the
--   copies of a session, Sessions/Find about queries. Sessions/Transcripts is `transcript`, which reads
--   a source through Sources and an archived body through Plaintext.
-- - Fragment: src/fragment.rs. `parse_ref`, the printing of ranges and `resolve`; Fragment/RoundTrip and
--   Fragment/Resolve relate them. Printing a number recurses on fuel, and the number itself is
--   always enough. `usize` has 64 bits where a number is parsed.
-- - Read: src/read.rs. `chunk_ranges`, with Read/Chunks about the ranges that it proposes.
-- - Document: src/document.rs, the document that archives a transcript; a transcript is read through a
--   parameter.
-- - RepoId: src/repo_id.rs. The key of a repository from its remote address; RepoId/Agree compares two
--   spellings. Sources: src/sources.rs. The sites, how a listing names their sessions, the fingerprints and
--   `load`; Sources/Table is the table of sites, with Sources/Table/Consistent, and Sources/Owner is about the
--   site that loads a source. Walk is `walk_tree`, over a snapshot of the directories as a tree, of
--   which the walk is the structural recursion. Paths are those of Unix.
-- - LocalState: src/local_state.rs, the records of the local sources. LocalState/Reload loads one source,
--   LocalState/Diff scans all sites and has the tests of `retain`. LocalState/Reload/Records and
--   LocalState/Reload/Effect say what a reload changes, LocalState/Diff/Preserved is the induction over the
--   steps of a diff; Valid, Owned and Noted beside it are about the records and the report after a diff,
--   Again and Cached about a scan that is repeated.
-- - Ingest: src/ingest.rs. `sweep`; Ingest/Sweep is about the test for garbage, Ingest/Deletes about what
--   a sweep does to the bucket. Ingest/Scan is `scan`, with Plan and Loop about its uploads; Ingest/Run is
--   `ingest`, which calls LocalState, Remote and the sweep, and Ingest/Run/Stored is about the objects
--   behind a commit.
-- - Sigv4: src/sigv4.rs, the signature of a request; Sigv4/RoundTrip is about percent encoding. Store:
--   src/store.rs, the client that Bucket abstracts; Store/Xml is `parse_listing`, Store/Pages is about the listing
--   loop, Store/Conditional about reads and conditional writes. The loop over the pages is on fuel, of which the
--   number of the pages is enough; decoding entities takes one unit per character at most, and the
--   length of the text is the fuel (Store/Entities).
-- - Errors: src/error.rs. Harness: `txcript::HarnessId`, a parameter. Prelude: shared lists, bytes and
--   the stable sort of the standard library.
-- - Examples: sample data, and each theorem at concrete arguments.
--
-- How data is represented: a `DateTime<Utc>` is the number of nanoseconds since the least one (only
-- its order and differences are used); text is the list of its UTF-8 bytes; an error message is a
-- constructor for its call site with the values that it shows; a hash map is an association list; the
-- stable `sort_by` is insertion sort, and `&mut` state is passed on. Loops are structural recursion on
-- the list that they walk, so they need no fuel. Positions, lengths and sums of the sizes of data that
-- a machine holds do not reach 2^64, and are natural numbers without a wrap-around.
--
-- During one diff the clock, the filesystem, git and the stores of the txcript package do not change: they
-- are the fields of one record, `World`. A `BTreeMap` is the list of its entries.
--
-- Not modelled: the network, the filesystem and the clock themselves, the txcript package and the ciphers,
-- which are parameters; the search index, the MCP server and the configuration; the installation of the
-- service, the update of the program, and the parts that only start or print.
pub mod Bucket
pub mod Catalog
pub mod Crypto
pub mod Document
pub mod Errors
pub mod Examples
pub mod Fragment
pub mod Freshness
pub mod Harness
pub mod Ingest
pub mod LocalState
pub mod Merge
pub mod Plaintext
pub mod Prelude
pub mod Read
pub mod Remote
pub mod RepoId
pub mod Sessions
pub mod Sigv4
pub mod Sources
pub mod Store
pub mod Walk
