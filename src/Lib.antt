-- ===== src/Lib.antt =====
-- The core of an encrypting MySQL proxy. A statement of a client is planned once and kept in the plan
-- cache of its session. The scan of a table takes its filters apart: each index of the table takes the
-- part of a filter that it supports and turns it into a filter on its own, unencrypted columns, which
-- the database server evaluates; what is left is evaluated by the proxy after decryption. The proxy's
-- own statements run in weak transactions between the transactions of the client.
--
-- Parts and files:
-- - Filter: backends/mysql/src/filtering/indexable_filter.rs. `IndexableFilterExpr` and its types;
--   Filter/Meaning gives a filter a truth value on a row, in the three-valued logic of Truth, since
--   the source has no evaluator of its own. Filter/Split is `split_into_supported_unsupported`, a
--   function for each of its arms, with `recombine!`; Filter/Negation is `pushup_not` and
--   `pushdown_not`; Filter/Comparison is `optimize_cmp`, its test on two bounds, the smaller value
--   and the match on the operators being functions of their own. Scalar is DataFusion's
--   `ScalarValue` as far as it is read, with `ScalarOp::min`.
-- - RangeIndex: backends/mysql/src/metadata/indices/range_queries.rs. `value_to_indexable` on i64 with
--   its wrapping difference, its division and the cut to a u32; `for_value` and, per value,
--   `for_array`; `is_indexable_expr_supported` and `indexable_query_to_expr`. Run says how a call
--   ends: it returns, fails with a plan error, or panics. Sql is the part of sqlparser's expressions
--   that the indices build (backends/mysql/src/ast_expr_ext.rs) and its meaning to the server.
--   RangeIndex/Buckets is about the numbers, RangeIndex/Query about the filters, RangeIndex/Planning
--   has `logical_support_options` and `logical_query`.
-- - BlindIndex: backends/mysql/src/metadata/blind_index.rs, `is_indexable_expr_supported` and
--   `indexable_query_to_expr` and the stored identifier of a value over the identifiers of a key;
--   BlindIndex/Query puts them together with the split.
-- - InvertedIndex: backends/mysql/src/metadata/indices/inverted_index. Of db_inverted_index.rs: the
--   queries on terms and the table of the modifications (InvertedIndex,
--   InvertedIndex/Modifications), `MetadataPage` (Metadata), `TermPage` byte by byte (Pages), the
--   table of the index with `CachedIndexState::load_metadata` (Store), `query`, `query_terms` and
--   `query_pages` (Store/Lookup), `update_changeset`, `insert_many` and `update_many` (Update), and
--   `do_next_version`: from the old pages to the new ones (Rebuild; Rebuild/Maps, Kept and Paged
--   are about the changes, the pass over the old pages and the new pages, Remaining about the
--   modifications that it leaves), and the task with its reads and writes (Rebuild/NextVersion). Of
--   inverted_index.rs: the tree of queries with `simplify`, `to_expr` and `execute_filter` (Tree).
--   The rows of the table are a list; each query of the database has the table that it finds as an
--   argument. Tree/Leaf and Tree/Execute are about the SQL filter of a tree, Tree/Conjunction about
--   trees with no disjunction, Tree/Match is MATCH .. AGAINST from the keywords on, Store/Entries
--   says what the rows stand for, Store/Lookup/Tags, Results and Answers are about the steps of a
--   query, Update/Sound about the table after a change.
-- - PlanCache: proxy/src/cache.rs. `CacheEntry::new`, `Cache::insert`, `get` and `free_space`, and
--   `prepare_logical_or_get_cached` over an abstract planner. The map is a list in the order in which
--   it is iterated, the clock an argument. PlanCache/Size is about the size of an entry,
--   PlanCache/Entries about the map, PlanCache/Eviction about the clean-up, PlanCache/Newest about the
--   entry that was put last, PlanCache/Planner about the answers.
-- - Transaction: backends/mysql/src/transaction_control.rs. The eight calls of `TransactionControl` and
--   the statements of `ConnGetterExt`, over an abstract connection, whose errors the source unwraps.
--   Transaction/Weak is about the weak calls, Transaction/Server about the state against the server's.
-- - Statistics: the table statistics that the split reads and `refresh_if_needed`, from
--   backends/mysql/src/providers/table_provider.rs.
-- - RowId: crypto/src/row_id.rs, with the tests on columns of
--   common/src/conversions/column_def_ext.rs. `get_natural_if_any` and `create_for_table` choose the
--   column (RowId/Columns), `compute_rowid` makes the identifiers (RowId/Encoding). Identifiers is
--   crypto/src/identifiers.rs.
-- - PreparedStatements: frontends/mysql/src/command_phase/statements.rs, the statements that a client
--   has prepared, and the loop that looks for a free number (PreparedStatements/Ids).
-- - Prelude has the shared names, tests and lists, Tests runs of the definitions on concrete values.
--
-- Bounds and fuel: a w-bit integer is a number with its wrap-around written out, as in a release
-- build. The clean-up of the plan cache runs on fuel, one more than the entries of the map, and
-- each round removes one entry or ends. The loop for a statement number has fuel 2 ^ 32, one for
-- each number that it can try. The chunks of the documents of a word have fuel for each of its
-- documents. In `do_next_version` the shrinking of the metadata has fuel for the sum of its numbers
-- of pages. Elsewhere the shrinking of an index's metadata has fuel two more than the number of
-- pages of each term over the default; the loading of its control pages has a table for each query,
-- and two are enough.
--
-- Parameters: the ciphers of an index and the identifiers that the tags of its pages are made of,
-- with bincode's encodings; how DataFusion shows a literal and the bytes of a text, which a blind
-- index hashes; the planner, `==` of statements and the sizes of their nodes; `Precision`, whose
-- `min`, `add` and `sub` are those of DataFusion; `>` of floats; the database connection; the
-- conversion of SQL types into Arrow's; the key derivation that fills a buffer. The theorems name
-- what they need of them: that `==` decides equality, that the rows' comparisons are those of SQL,
-- and what MySQL documents of its transaction statements, that the tags of the pages that an index
-- has of a finite vocabulary are different for different terms (tags have 12 bytes, so they cannot
-- be for all terms), that HKDF fills at most 255 blocks of its hash, and that decryption undoes
-- encryption.
--
-- Not modelled: the initial provisioning of an index, and what other transactions do to its table
-- while `do_next_version` runs, but for the table that it finds when it writes; the streams of
-- DataFusion, the plans that it executes, the splitting of search strings into keywords and LIKE
-- filters on the inverted index, the MySQL client and its protocol, which only pass data on; the
-- cryptography, which is the libraries'; the estimates in floats; and the locks of the transaction
-- control, which are never contended within a session.
pub mod Prelude
pub mod Truth
pub mod Scalar
pub mod Statistics
pub mod Filter
pub mod Run
pub mod Sql
pub mod RangeIndex
pub mod PlanCache
pub mod Transaction
pub mod RowId
pub mod Identifiers
pub mod PreparedStatements
pub mod BlindIndex
pub mod InvertedIndex
mod Tests
