-- ===== src/LogFilter/Handlers.antt =====
-- The batch handlers `NoopBatchHandler`, `SQLBatchHandler` and `KafkaBatchHandler`
-- (go/logfilter/logfilter.go). The database and the writer of kafka-go are parameters.
pub mod Table
pub mod Sql
pub mod Quote
pub mod Kafka
mod Tests
use eip_toolkit.Prelude.{
  ℕ, zero, suc, ◌/◌, ◌%◌, ◌||◌, Option, none, some, List, [], ◌∷◌, ◌++◌, map, ltb, ◌==◌,
  if◌then◌else◌, Bytes, codes, GoError,
}
use eip_toolkit.Hex.{hex_digit}
use eip_toolkit.LogFilter.Log.{LogResult}

-- `LogBatchHandler` over what the handler writes to.
abbrev pub LogBatchHandler : Type 0 → Type 0
LogBatchHandler D = List LogResult → D → Option GoError × D

abbrev pub noop_batch_handler : {D : Type 0} → LogBatchHandler D
noop_batch_handler logs d = (none, d)

-- The prepared statement.
abbrev pub insert_statement : Bytes
insert_statement =
    codes
      "\nINSERT INTO event_logs (block_number, tx_hash, contract_addr, topics, log_data)\nVALUES ($1, $2, $3, $4, $5)\nON CONFLICT (block_number, tx_hash) DO NOTHING"

-- The calls of `*sql.DB`, of its transaction and of the prepared statement that the handler makes,
-- over the states `C` of the connection; each returns its error.
pub record SqlDb (C : Type 0) : Type 0 where
  pub begin_tx : C → Option GoError × C
  pub prepare : Bytes → C → Option GoError × C
  pub exec : List Bytes → C → Option GoError × C
  pub commit : C → Option GoError × C
  pub rollback : C → Option GoError × C
  pub close_stmt : C → Option GoError × C

-- The loop over the topics of a log, from topic `i` on.
unfoldable pub topics_from : ℕ → List Bytes → Bytes → Bytes
topics_from i [] topics_str = topics_str
topics_from zero (t ∷ topics) topics_str = topics_from 1 topics (topics_str ++ t)
topics_from (suc i) (t ∷ topics) topics_str =
    topics_from (suc (suc i)) topics (topics_str ++ codes "," ++ t)

-- The arguments of the statement for a log.
abbrev pub arguments : LogResult → List Bytes
arguments l =
    l.block_number ∷ l.transaction_hash ∷ l.address ∷ topics_from 0 l.topics [] ∷ l.payload ∷ []

-- `if err != nil { return err }` behind a call.
abbrev pub and_then :
    {C : Type 0} → Option GoError × C → (C → Option GoError × C) → Option GoError × C
and_then (some e, c) next = (some e, c)
and_then (none, c) next = next c

-- `defer f()` around what follows it: `f` runs on return, and its error is dropped.
abbrev pub deferred :
    {C : Type 0} → (C → Option GoError × C) → Option GoError × C → Option GoError × C
deferred f (e, c) = (e, (f c).1)

module _ {C : Type 0} (db : SqlDb C) where
  -- The loop over the logs.
  unfoldable pub insert_all : List LogResult → C → Option GoError × C
  insert_all [] c = (none, c)
  insert_all (l ∷ logs) c = and_then (db.exec (arguments l) c) (insert_all logs)

  -- From the loop to the end, with the deferred `stmt.Close()`.
  unfoldable pub insert_and_commit : List LogResult → C → Option GoError × C
  insert_and_commit logs c = deferred db.close_stmt (and_then (insert_all logs c) db.commit)

  -- From the open transaction to the end, with the deferred `tx.Rollback()`.
  unfoldable pub in_transaction : List LogResult → C → Option GoError × C
  in_transaction logs c =
      deferred db.rollback (and_then (db.prepare insert_statement c) (insert_and_commit logs))

  -- `SQLBatchHandler.HandleBatch`.
  unfoldable pub sql_handle_batch : LogBatchHandler C
  sql_handle_batch [] c = (none, c)
  sql_handle_batch (l ∷ logs) c = and_then (db.begin_tx c) (in_transaction (l ∷ logs))

-- `%q` of fmt on ASCII texts; hashes, addresses and numbers are ASCII.
abbrev pub escape_control : ℕ → Bytes
escape_control c =
    if c == 7
    then codes "\\a"
    else if c == 8
    then codes "\\b"
    else if c == 9
    then codes "\\t"
    else if c == 10
    then codes "\\n"
    else if c == 11
    then codes "\\v"
    else if c == 12
    then codes "\\f"
    else if c == 13
    then codes "\\r"
    else codes "\\x" ++ hex_digit (c / 16) ∷ hex_digit (c % 16) ∷ []

abbrev pub escape_byte : ℕ → Bytes
escape_byte c =
    if (c == 34) || (c == 92)
    then 92 ∷ c ∷ []
    else if ltb c 32 || (c == 127)
    then escape_control c
    else c ∷ []

unfoldable pub escape : Bytes → Bytes
escape [] = []
escape (c ∷ s) = escape_byte c ++ escape s

abbrev pub quote : Bytes → Bytes
quote s = 34 ∷ escape s ++ 34 ∷ []

-- `kafka.Message`.
pub record Message : Type 0 where
  pub key : Bytes
  pub value : Bytes

abbrev pub message_of : LogResult → Message
message_of l = record {
  key = l.transaction_hash;
  value =
      codes "{\"block\":"
      ++ quote l.block_number
      ++ codes ",\"tx\":"
      ++ quote l.transaction_hash
      ++ codes ",\"addr\":"
      ++ quote l.address
      ++ codes "}";
}

-- `KafkaBatchHandler.HandleBatch`; `write_messages` is `WriteMessages` of the writer.
unfoldable pub kafka_handle_batch :
    {W : Type 0} → (List Message → W → Option GoError × W) → LogBatchHandler W
kafka_handle_batch write_messages logs w = write_messages (map message_of logs) w
