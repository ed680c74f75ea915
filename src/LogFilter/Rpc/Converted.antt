-- ===== src/LogFilter/Rpc/Converted.antt =====
-- The logs that `fetchRawLogs` makes of the node's (go/logfilter/logfilter.go).
use eip_toolkit.Prelude.{ℕ, ◌<◌, ◌≡◌, refl, ap, List, [], ◌∷◌, map, u64_mod, All, Bytes, Result, ok}
use eip_toolkit.Decimal.{parse_uint, parse_uint-format_uint}
use eip_toolkit.LogFilter.Log.{LogResult}
use eip_toolkit.LogFilter.Rpc.{
  RawLog, FilterQuery, Conversions, converted, fetch_raw_logs, filter_of, log_result_of,
}

module _ (conv : Conversions) where
  map-Reads :
      (raw : List RawLog)
      → All (λ (l : RawLog). l.raw_block_number < u64_mod) raw
      → All
          (λ (l : LogResult). parse_uint l.block_number ≡ ok l.block_num_uint)
          (map (log_result_of conv) raw)
  unfolding log_result_of
  map-Reads [] h = tt
  map-Reads (l ∷ raw) (h, hs) = (parse_uint-format_uint l.raw_block_number h, map-Reads raw hs)

  numbers-map :
      (raw : List RawLog)
      → map (λ (l : LogResult). l.block_num_uint) (map (log_result_of conv) raw)
        ≡ map (λ (l : RawLog). l.raw_block_number) raw
  unfolding log_result_of
  numbers-map [] = refl
  numbers-map (l ∷ raw) = ap (λ t. l.raw_block_number ∷ t) (numbers-map raw)

  -- Where the node answers with logs whose block numbers fit in 64 bits, as many logs come back in
  -- the same order with these numbers, and the decimal text of each reads back as its number.
  pub fetch_raw_logs_numbers :
      (filter_logs : FilterQuery → Result (List RawLog)) (from to : ℕ) (addresses : List Bytes)
      (topics : List (List Bytes)) (raw : List RawLog)
      → filter_logs (filter_of conv from to addresses topics) ≡ ok raw
      → All (λ (l : RawLog). l.raw_block_number < u64_mod) raw
      → (logs : List LogResult) × (fetch_raw_logs conv filter_logs from to addresses topics
          ≡ ok logs)
        × (map (λ (l : LogResult). l.block_num_uint) logs
            ≡ map (λ (l : RawLog). l.raw_block_number) raw)
        × All (λ (l : LogResult). parse_uint l.block_number ≡ ok l.block_num_uint) logs
  unfolding fetch_raw_logs
  fetch_raw_logs_numbers filter_logs from to addresses topics raw h fits = (
    map (log_result_of conv) raw,
    ap (λ r. converted conv r) h,
    numbers-map raw,
    map-Reads raw fits,
  )
