-- ===== src/LogFilter/Handlers/Table.antt =====
-- The table `event_logs` of `SQLBatchHandler` as its rows, and the row of a log
-- (go/logfilter/logfilter.go).
use eip_toolkit.Prelude.{
  ℕ, suc, ◌≡◌, refl, ap, ◌∙◌, inl, inr, Bool, true, false, ◌&&◌, ◌||◌, List, [], ◌∷◌, ◌++◌, map,
  append_assoc, arith, if◌then◌else◌, Bool-cases, Elem, All, Bytes, codes, bytes_eq, bytes_eq_refl,
}
use eip_toolkit.Strings.{join}
use eip_toolkit.LogFilter.Log.{LogResult}
use eip_toolkit.LogFilter.Handlers.{topics_from, arguments}

pub record EventRow : Type 0 where
  pub block_number : Bytes
  pub tx_hash : Bytes
  pub contract_addr : Bytes
  pub topics : Bytes
  pub log_data : Bytes

-- The columns in the order of the statement.
abbrev pub columns : EventRow → List Bytes
columns row = row.block_number ∷ row.tx_hash ∷ row.contract_addr ∷ row.topics ∷ row.log_data ∷ []

-- The rows, the newest first.
abbrev pub Rows : Type 0
Rows = List EventRow

-- A row with these values of the two columns of the key.
unfoldable pub has_key : Bytes → Bytes → Rows → Bool
has_key block tx [] = false
has_key block tx (row ∷ rows) =
    (bytes_eq block row.block_number && bytes_eq tx row.tx_hash) || has_key block tx rows

-- An insertion that does nothing on a conflict of the key.
unfoldable pub store : EventRow → Rows → Rows
store row rows = if has_key row.block_number row.tx_hash rows then rows else row ∷ rows

unfoldable pub store_all : List EventRow → Rows → Rows
store_all [] rows = rows
store_all (row ∷ more) rows = store_all more (store row rows)

-- The row of a log, its topics with commas between them.
abbrev pub row_of : LogResult → EventRow
row_of l = record {
  block_number = l.block_number;
  tx_hash = l.transaction_hash;
  contract_addr = l.address;
  topics = join b',' l.topics;
  log_data = l.payload;
}

later_topics :
    (i : ℕ) (t : Bytes) (topics : List Bytes) (s : Bytes)
    → topics_from (suc i) (t ∷ topics) s ≡ s ++ b',' ∷ join b',' (t ∷ topics)
unfolding topics_from join
later_topics i t [] s = simp append_assoc
later_topics i t (u ∷ topics) s =
    later_topics (suc i) u topics (s ++ codes "," ++ t) ∙ simp append_assoc

topics_from-join : (topics : List Bytes) → topics_from 0 topics [] ≡ join b',' topics
unfolding topics_from join
topics_from-join [] = refl
topics_from-join (t ∷ []) = refl
topics_from-join (t ∷ u ∷ topics) = later_topics 0 u topics t

pub arguments-columns : (l : LogResult) → arguments l ≡ columns (row_of l)
arguments-columns l = rw (topics_from-join l.topics) refl

has_key-store :
    (row : EventRow) (rows : Rows) → has_key row.block_number row.tx_hash (store row rows) ≡ true
unfolding store
has_key-store row rows = elim (Bool-cases (has_key row.block_number row.tx_hash rows)) [
  | inl there ↦ ground arith
  | inr new ↦
      let b = bytes_eq_refl row.block_number in
      let t = bytes_eq_refl row.tx_hash in unfold has_key in ground arith
]

store-keeps :
    (block tx : Bytes) (row : EventRow) (rows : Rows)
    → has_key block tx rows ≡ true
    → has_key block tx (store row rows) ≡ true
unfolding store
store-keeps block tx row rows h = elim (Bool-cases (has_key row.block_number row.tx_hash rows)) [
  | inl there ↦ ground arith
  | inr new ↦ unfold has_key in ground arith
]

store_all-keeps :
    (block tx : Bytes) (batch : List EventRow) (rows : Rows)
    → has_key block tx rows ≡ true
    → has_key block tx (store_all batch rows) ≡ true
unfolding store_all
store_all-keeps block tx [] rows h = h
store_all-keeps block tx (row ∷ batch) rows h =
    store_all-keeps block tx batch (store row rows) (store-keeps block tx row rows h)

-- Each log of a batch has its key in the table afterwards.
pub store_all-has_key :
    (logs : List LogResult) (l : LogResult) (rows : Rows)
    → Elem l logs
    → has_key l.block_number l.transaction_hash (store_all (map row_of logs) rows) ≡ true
unfolding store_all
store_all-has_key [] l rows m = elim m [ ]
store_all-has_key (k ∷ logs) l rows (inl e) = rw e (
    store_all-keeps k.block_number k.transaction_hash (map row_of logs) (store (row_of k) rows)
      (has_key-store (row_of k) rows))
store_all-has_key (k ∷ logs) l rows (inr m) = store_all-has_key logs l (store (row_of k) rows) m

-- A batch changes nothing where the key of each of its logs is in the table.
pub store_all_nothing_new :
    (logs : List LogResult) (rows : Rows)
    → All (λ l. has_key l.block_number l.transaction_hash rows ≡ true) logs
    → store_all (map row_of logs) rows ≡ rows
unfolding store_all
store_all_nothing_new [] rows h = refl
store_all_nothing_new (l ∷ logs) rows (h, hs) =
    let same : store (row_of l) rows ≡ rows = unfold store in rw h refl in
    ap (store_all (map row_of logs)) same ∙ store_all_nothing_new logs rows hs
