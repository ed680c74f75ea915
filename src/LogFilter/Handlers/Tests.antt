-- ===== src/LogFilter/Handlers/Tests.antt =====
-- Runs of the batch handlers and witnesses of their properties.
use eip_toolkit.Prelude.{
  ◌≡◌, refl, sym, inl, Option, none, some, List, [], ◌∷◌, arith, Bytes, codes, GoError, text,
}
use eip_toolkit.LogFilter.Log.{LogResult}
use eip_toolkit.LogFilter.Handlers.{
  SqlDb, topics_from, insert_all, insert_and_commit, in_transaction, sql_handle_batch, escape,
  message_of,
}
use eip_toolkit.Strings.{join}
use eip_toolkit.LogFilter.Handlers.Table.{Rows, has_key, store, row_of}
use eip_toolkit.LogFilter.Handlers.Sql.{
  IsSqlDb, IsAtomic, sql_handle_batch_whole_or_nothing, redelivery_changes_nothing,
}

abbrev log_with : Bytes → Bytes → LogResult
log_with tx a = record {
  block_number = codes "7";
  block_num_uint = 7;
  transaction_hash = tx;
  address = a;
  topics = codes "x" ∷ codes "y" ∷ [];
  payload = [];
}

-- A database whose calls succeed, but for an insertion without a transaction or with too few
-- arguments.
record Conn : Type 0 where
  pub committed : Rows
  pub open_rows : Option Rows
  pub statement : Bytes

abbrev exec_row : List Bytes → Option Rows → Conn → Option GoError × Conn
exec_row (b ∷ t ∷ a ∷ topics ∷ d ∷ []) (some rows) c = (
  none,
  record c {
    open_rows = some (
        store
          (record {
            block_number = b;
            tx_hash = t;
            contract_addr = a;
            topics = topics;
            log_data = d;
          })
          rows);
  },
)
exec_row args rows c = (some (text (codes "cannot insert")), c)

abbrev commit_rows : Option Rows → Conn → Option GoError × Conn
commit_rows (some rows) c = (none, record c { committed = rows; open_rows = none })
commit_rows none c = (some (text (codes "sql: transaction has already been committed")), c)

abbrev rollback_rows : Option Rows → Conn → Option GoError × Conn
rollback_rows (some rows) c = (none, record c { open_rows = none })
rollback_rows none c = (some (text (codes "sql: transaction has already been committed")), c)

abbrev postgres : SqlDb Conn
postgres = record {
  begin_tx = λ c. (none, record c { open_rows = some c.committed });
  prepare = λ q c. (none, record c { statement = q });
  exec = λ args c. exec_row args c.open_rows c;
  commit = λ c. commit_rows c.open_rows c;
  rollback = λ c. rollback_rows c.open_rows c;
  close_stmt = λ c. (none, c);
}

exec_row_keeps :
    (args : List Bytes) (rows : Option Rows) (c : Conn)
    → (exec_row args rows c).1.committed ≡ c.committed
exec_row_keeps [] rows c = refl
exec_row_keeps (b ∷ []) rows c = refl
exec_row_keeps (b ∷ t ∷ []) rows c = refl
exec_row_keeps (b ∷ t ∷ a ∷ []) rows c = refl
exec_row_keeps (b ∷ t ∷ a ∷ topics ∷ []) rows c = refl
exec_row_keeps (b ∷ t ∷ a ∷ topics ∷ d ∷ []) none c = refl
exec_row_keeps (b ∷ t ∷ a ∷ topics ∷ d ∷ []) (some rows) c = refl
exec_row_keeps (b ∷ t ∷ a ∷ topics ∷ d ∷ x ∷ more) rows c = refl

rollback_rows_keeps :
    (rows : Option Rows) (c : Conn)
    → rows ≡ c.open_rows
    → ((rollback_rows rows c).1.committed ≡ c.committed)
      × ((rollback_rows rows c).1.open_rows ≡ none)
rollback_rows_keeps none c e = (refl, sym e)
rollback_rows_keeps (some rows) c e = (refl, refl)

commit_rows_works :
    (rows : Rows) (open_rows : Option Rows) (c : Conn) (e : GoError)
    → open_rows ≡ some rows
    → ¬ ((commit_rows open_rows c).0 ≡ some e)
commit_rows_works rows none c e p bad = ground arith
commit_rows_works rows (some open_rows) c e p bad = ground arith

abbrev postgres-IsSqlDb : IsSqlDb postgres
postgres-IsSqlDb = record {
  table = λ c. c.committed;
  pending = λ c. c.open_rows;
  prepared = λ c. c.statement;
  begin_keeps = λ c. refl;
  begin_opens = λ c e. refl;
  begin_fails = λ c e bad. absurd (ground arith);
  prepare_keeps = λ q c. refl;
  prepare_sets = λ q c e. (refl, refl);
  exec_keeps = λ args c. exec_row_keeps args c.open_rows c;
  exec_inserts = λ row c rows q p fine. rw p (refl, refl);
  commit_writes = λ c rows p fine. rw p refl;
  commit_fails = λ c rows e p bad. absurd (commit_rows_works rows c.open_rows c e p bad);
  close_keeps = λ c. refl;
  rollback_keeps = λ c. (rollback_rows_keeps c.open_rows c refl).0;
  rollback_ends = λ c. (rollback_rows_keeps c.open_rows c refl).1;
}

abbrev batch : List LogResult
batch =
    log_with (codes "t") (codes "a")
    ∷ log_with (codes "t") (codes "b")
    ∷ log_with (codes "u") (codes "a")
    ∷ []

-- The second event of transaction t is not inserted.
abbrev stored : Rows
stored = row_of (log_with (codes "u") (codes "a")) ∷ row_of (log_with (codes "t") (codes "a")) ∷ []

abbrev empty : Conn
empty = record { committed = []; open_rows = none; statement = [] }

batch_goes_in :
    ((sql_handle_batch postgres batch empty).0 ≡ none)
    × ((sql_handle_batch postgres batch empty).1.committed ≡ stored)
unfolding sql_handle_batch in_transaction insert_and_commit insert_all topics_from store has_key
    join
batch_goes_in = (refl, refl)

topics_are_joined : topics_from 0 (codes "x" ∷ codes "y" ∷ []) [] ≡ codes "x,y"
unfolding topics_from
topics_are_joined = refl

sql_handle_batch_whole_or_nothing_example :
    let t = sql_handle_batch postgres batch empty in
    (t.1.open_rows ≡ none) × IsAtomic postgres postgres-IsSqlDb batch [] t.0 t.1.committed
sql_handle_batch_whole_or_nothing_example =
    sql_handle_batch_whole_or_nothing postgres postgres-IsSqlDb batch empty refl

redelivery_changes_nothing_example :
    let c = (sql_handle_batch postgres batch empty).1 in
    (sql_handle_batch postgres (log_with (codes "t") (codes "c") ∷ []) c).1.committed ≡ c.committed
redelivery_changes_nothing_example =
    redelivery_changes_nothing postgres postgres-IsSqlDb batch
      (log_with (codes "t") (codes "c") ∷ []) empty refl batch_goes_in.0
      ((log_with (codes "t") (codes "a"), inl refl, refl, refl), tt)

kafka_text :
    (message_of (log_with (codes "0xt") (codes "a\"b"))).value
    ≡ codes "{\"block\":\"7\",\"tx\":\"0xt\",\"addr\":\"a\\\"b\"}"
unfolding escape
kafka_text = refl
