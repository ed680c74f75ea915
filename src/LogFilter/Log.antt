-- ===== src/LogFilter/Log.antt =====
-- `LogResult` and the removal of duplicates within a batch (go/logfilter/logfilter.go).
pub mod Dedup
use eip_toolkit.Prelude.{ℕ, Bool, true, false, ◌||◌, List, [], ◌∷◌, ◌++◌, Bytes, codes, bytes_eq}
use eip_toolkit.Hex.{encode_to_string}

pub record LogResult : Type 0 where
  pub block_number : Bytes
  pub block_num_uint : ℕ
  pub transaction_hash : Bytes
  pub address : Bytes
  pub topics : List Bytes
  pub payload : Bytes

-- `_, ok := seen[k]`.
abbrev pub contains : Bytes → List Bytes → Bool
contains k [] = false
contains k (j ∷ seen) = bytes_eq k j || contains k seen

-- The digest is a parameter: `sha256.Sum256`.
module _ (sum256 : Bytes → Bytes) where
  unfoldable pub unique_key : LogResult → Bytes
  unique_key l = encode_to_string (sum256 (l.block_number ++ codes "|" ++ l.transaction_hash))

  -- The loop "Dedup within batch": `seen` are the keys so far, `batch` the results kept so far.
  unfoldable pub dedup_from : List LogResult → List Bytes → List LogResult → List LogResult
  dedup_from [] seen batch = batch
  dedup_from (l ∷ logs) seen batch = elim (contains (unique_key l) seen) [
    | true ↦ dedup_from logs seen batch
    | false ↦ dedup_from logs (unique_key l ∷ seen) (batch ++ l ∷ [])
  ]

  unfoldable pub dedup : List LogResult → List LogResult
  dedup logs = dedup_from logs [] []
