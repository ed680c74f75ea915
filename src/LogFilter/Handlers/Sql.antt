-- ===== src/LogFilter/Handlers/Sql.antt =====
-- What `SQLBatchHandler` leaves in the database (go/logfilter/logfilter.go).
use eip_toolkit.Prelude.{
  ◌≡◌, refl, sym, ◌∙◌, subst, subst₂, ◌⊎◌, inl, inr, true, Option, none, some, List, [], ◌∷◌, map,
  arith, Option-cases, Elem, All, Bytes, codes, GoError,
}
use eip_toolkit.LogFilter.Log.{LogResult}
use eip_toolkit.LogFilter.Handlers.{
  SqlDb, insert_statement, arguments, insert_all, in_transaction, insert_and_commit,
  sql_handle_batch,
}
use eip_toolkit.LogFilter.Handlers.Table.{
  EventRow, columns, Rows, store, store_all, row_of, arguments-columns, has_key, store_all-has_key,
  store_all_nothing_new,
}

-- The documented behaviour of database/sql and of PostgreSQL, one call at a time, for a table that
-- only this connection writes, with block and transaction as its key.
pub record IsSqlDb {C : Type 0} (db : SqlDb C) : Type 1 where
  -- The rows that are committed, those that the open transaction sees, and the prepared text.
  pub table : C → Rows
  pub pending : C → Option Rows
  pub prepared : C → Bytes
  pub begin_keeps : (c : C) → table (db.begin_tx c).1 ≡ table c
  pub begin_opens : (c : C) → (db.begin_tx c).0 ≡ none → pending (db.begin_tx c).1 ≡ some (table c)
  pub begin_fails :
      (c : C) (e : GoError) → (db.begin_tx c).0 ≡ some e → pending (db.begin_tx c).1 ≡ pending c
  pub prepare_keeps : (q : Bytes) (c : C) → table (db.prepare q c).1 ≡ table c
  pub prepare_sets :
      (q : Bytes) (c : C)
      → (db.prepare q c).0 ≡ none
      → (prepared (db.prepare q c).1 ≡ q) × (pending (db.prepare q c).1 ≡ pending c)
  -- The statement inserts into the rows of the transaction; nothing is committed by it.
  pub exec_keeps : (args : List Bytes) (c : C) → table (db.exec args c).1 ≡ table c
  pub exec_inserts :
      (row : EventRow) (c : C) (rows : Rows)
      → prepared c
        ≡ codes
            "\nINSERT INTO event_logs (block_number, tx_hash, contract_addr, topics, log_data)\nVALUES ($1, $2, $3, $4, $5)\nON CONFLICT (block_number, tx_hash) DO NOTHING"
      → pending c ≡ some rows
      → (db.exec (columns row) c).0 ≡ none
      → (prepared (db.exec (columns row) c).1 ≡ prepared c)
        × (pending (db.exec (columns row) c).1 ≡ some (store row rows))
  -- A commit that fails may have taken effect all the same.
  pub commit_writes :
      (c : C) (rows : Rows)
      → pending c ≡ some rows
      → (db.commit c).0 ≡ none
      → table (db.commit c).1 ≡ rows
  pub commit_fails :
      (c : C) (rows : Rows) (e : GoError)
      → pending c ≡ some rows
      → (db.commit c).0 ≡ some e
      → (table (db.commit c).1 ≡ table c) ⊎ (table (db.commit c).1 ≡ rows)
  pub close_keeps : (c : C) → table (db.close_stmt c).1 ≡ table c
  -- Without an open transaction `Rollback` only returns an error.
  pub rollback_keeps : (c : C) → table (db.rollback c).1 ≡ table c
  pub rollback_ends : (c : C) → pending (db.rollback c).1 ≡ none

module _ {C : Type 0} (db : SqlDb C) (is_db : IsSqlDb db) where
  open is_db use {table, pending, prepared}

  -- The loop has inserted the logs into the rows of the transaction, or has stopped at an error.
  abbrev Inserted : List LogResult → C → Rows → Option GoError × C → Type 0
  Inserted logs c rows t =
      (table t.1 ≡ table c)
      × (((t.0 ≡ none) × (pending t.1 ≡ some (store_all (map row_of logs) rows)))
          ⊎ ((e : GoError) × (t.0 ≡ some e)))

  insert_all-Inserted :
      (logs : List LogResult) (c : C) (rows : Rows)
      → prepared c ≡ insert_statement
      → pending c ≡ some rows
      → Inserted logs c rows (insert_all db logs c)
  unfolding insert_all store_all
  insert_all-Inserted [] c rows q open_tx = (refl, inl (refl, open_tx))
  insert_all-Inserted (l ∷ logs) c rows q open_tx =
      elim (Option-cases (db.exec (arguments l) c).0) [
        | inr (e, bad) ↦ rw bad (is_db.exec_keeps (arguments l) c, inr (e, refl))
        | inl good ↦
            let same = arguments-columns l in
            let (q', p') = is_db.exec_inserts (row_of l) c rows q open_tx (rw (← same) good) in
            let c' = (db.exec (arguments l) c).1 in
            let rest =
              insert_all-Inserted logs c' (store (row_of l) rows) (rw same (q' ∙ q)) (rw same p') in
            rw good ((rest.0 ∙ is_db.exec_keeps (arguments l) c), rest.1)
      ]

  -- What a batch leaves: all of it, or an error and nothing of it, but for a commit that has failed.
  abbrev pub IsAtomic : List LogResult → Rows → Option GoError → Rows → Type 0
  IsAtomic logs before result after =
      ((result ≡ none) × (after ≡ store_all (map row_of logs) before))
      ⊎ ((e : GoError) × (result ≡ some e)
          × ((after ≡ before)
              ⊎ ((after ≡ store_all (map row_of logs) before)
                  × ((c : C) × ((db.commit c).0 ≡ some e)))))

  insert_and_commit-IsAtomic :
      (logs : List LogResult) (c : C) (before : Rows)
      → prepared c ≡ insert_statement
      → pending c ≡ some before
      → table c ≡ before
      → let t = insert_and_commit db logs c in IsAtomic logs before t.0 (table t.1)
  unfolding insert_and_commit
  insert_and_commit-IsAtomic logs c before q open_tx same =
      let (kept, result) = insert_all-Inserted logs c before q open_tx in
      let c' = (insert_all db logs c).1 in
      elim result [
        | inr (e, bad) ↦ rw bad (inr (e, refl, inl (is_db.close_keeps c' ∙ kept ∙ same)))
        | inl (good, full) ↦ elim (Option-cases (db.commit c').0) [
          | inl done ↦
              rw good (
                inl (done, is_db.close_keeps (db.commit c').1 ∙ is_db.commit_writes c' _ full done))
          | inr (e, failed) ↦ elim (is_db.commit_fails c' _ e full failed) [
            | inl as_before ↦ rw good (
                inr (e, failed, inl (is_db.close_keeps (db.commit c').1 ∙ as_before ∙ kept ∙ same)))
            | inr written ↦
                rw good (
                  inr (e, failed, inr (is_db.close_keeps (db.commit c').1 ∙ written, (c', failed))))
          ]
        ]
      ]

  in_transaction-IsAtomic :
      (logs : List LogResult) (c : C) (before : Rows)
      → pending c ≡ some before
      → table c ≡ before
      → let t = in_transaction db logs c in IsAtomic logs before t.0 (table t.1)
  unfolding in_transaction
  in_transaction-IsAtomic logs c before open_tx same =
      let c' = (db.prepare insert_statement c).1 in
      let same' = is_db.prepare_keeps insert_statement c ∙ same in
      elim (Option-cases (db.prepare insert_statement c).0) [
        | inr (e, bad) ↦ rw bad (inr (e, refl, inl (is_db.rollback_keeps c' ∙ same')))
        | inl good ↦
            let (q, p) = is_db.prepare_sets insert_statement c good in
            rw good (
              subst (IsAtomic logs before (insert_and_commit db logs c').0)
                (sym (is_db.rollback_keeps (insert_and_commit db logs c').1))
                (insert_and_commit-IsAtomic logs c' before q (p ∙ open_tx) same'))
      ]

  in_transaction-ends :
      (logs : List LogResult) (c : C) → pending (in_transaction db logs c).1 ≡ none
  unfolding in_transaction
  in_transaction-ends logs c = is_db.rollback_ends _

  -- A batch goes into the table whole or not at all, and no transaction is left open. Without an
  -- error each log of the batch in turn has added its row to the table, the topics with commas
  -- between them, unless a row with its block and transaction was there; with an error the table is
  -- as before, or, where it was the commit that has failed and it took effect all the same, as after
  -- the whole batch. The database behaves as database/sql and the statement are documented to, only
  -- this connection writes the table, and no transaction is open before.
  pub sql_handle_batch_whole_or_nothing :
      (logs : List LogResult) (c : C)
      → pending c ≡ none
      → let t = sql_handle_batch db logs c in
        (pending t.1 ≡ none) × IsAtomic logs (table c) t.0 (table t.1)
  unfolding sql_handle_batch store_all
  sql_handle_batch_whole_or_nothing [] c closed = (closed, inl (refl, refl))
  sql_handle_batch_whole_or_nothing (l ∷ logs) c closed = elim (Option-cases (db.begin_tx c).0) [
    | inr (e, bad) ↦
        rw bad (is_db.begin_fails c e bad ∙ closed, inr (e, refl, inl (is_db.begin_keeps c)))
    | inl good ↦ rw good (
      in_transaction-ends (l ∷ logs) (db.begin_tx c).1,
      in_transaction-IsAtomic (l ∷ logs) (db.begin_tx c).1 (table c) (is_db.begin_opens c good)
          (is_db.begin_keeps c),
    )
  ]

  -- A log with the block and the transaction of a log of the batch.
  abbrev pub SameKeyIn : List LogResult → LogResult → Type 0
  SameKeyIn logs l =
      (k : LogResult) × Elem k logs
      × (k.block_number ≡ l.block_number)
      × (k.transaction_hash ≡ l.transaction_hash)

  present :
      (logs again : List LogResult) (rows : Rows)
      → All (SameKeyIn logs) again
      → All
          (λ l. has_key l.block_number l.transaction_hash (store_all (map row_of logs) rows) ≡ true)
          again
  present logs [] rows same = tt
  present logs (l ∷ again) rows ((k, m, b, t), same) = (
    subst₂ (λ x y. has_key x y (store_all (map row_of logs) rows) ≡ true) b t
        (store_all-has_key logs k rows m),
    present logs again rows same,
  )

  -- A batch that is handed over again, as after a checkpoint that was not saved, changes nothing
  -- in the table, whether it ends in an error or not; and neither does any batch of logs whose block
  -- and transaction are those of a log of the first, so further events of a transaction are not
  -- stored. The first batch went in without an error; the database behaves as database/sql and the
  -- statement are documented to, only this connection writes the table, and no transaction is open
  -- before.
  pub redelivery_changes_nothing :
      (logs again : List LogResult) (c : C)
      → pending c ≡ none
      → (sql_handle_batch db logs c).0 ≡ none
      → All (SameKeyIn logs) again
      → let c' = (sql_handle_batch db logs c).1 in table (sql_handle_batch db again c').1 ≡ table c'
  redelivery_changes_nothing logs again c closed fine same =
      let (done, outcome) = sql_handle_batch_whole_or_nothing logs c closed in
      let c' = (sql_handle_batch db logs c).1 in
      elim outcome [
        | inr (e, bad, rest) ↦ absurd (ground arith)
        | inl (fine', whole) ↦
            let nothing =
              subst (λ rows. store_all (map row_of again) rows ≡ rows) (sym whole)
                (store_all_nothing_new again _ (present logs again (table c) same)) in
            elim (sql_handle_batch_whole_or_nothing again c' done).1 [
              | inl (fine'', after) ↦ after ∙ nothing
              | inr (e, bad, kept) ↦ elim kept [
                | inl after ↦ after
                | inr (after, failed) ↦ after ∙ nothing
              ]
            ]
      ]
