-- ===== src/LogFilter/Rpc.antt =====
-- `RealRPC`: the calls of the node with retries, and the logs that it returns
-- (go/logfilter/logfilter.go). The client of go-ethereum answers by the number of the attempt.
pub mod Steps
pub mod Retries
pub mod Hidden
pub mod Waits
pub mod Converted
mod Tests
use eip_toolkit.Prelude.{
  ℕ, zero, suc, ◌*◌, ◌%◌, ◌^◌, Option, none, some, List, [], ◌∷◌, ◌++◌, map, u64_mod, Bytes, codes,
  GoError, text, wrap, Result, ok, err,
}
use eip_toolkit.Prelude.Int.{ℤ, pos, negsuc}
use eip_toolkit.Decimal.{format_uint}
use eip_toolkit.LogFilter.Log.{LogResult}

-- `RealRPC` without its client; the wait is in nanoseconds.
pub record RealRpc : Type 0 where
  pub max_retries : ℤ
  pub retry_base_wait : ℕ

-- `RealRPCOption`: `WithMaxRetries` and `WithRetryBaseWait`.
pub data RealRpcOption : Type 0 where
  with_max_retries : ℤ → RealRpcOption
  with_retry_base_wait : ℕ → RealRpcOption

abbrev pub apply_rpc_option : RealRpcOption → RealRpc → RealRpc
apply_rpc_option (with_max_retries n) r = record r { max_retries = n }
apply_rpc_option (with_retry_base_wait d) r = record r { retry_base_wait = d }

abbrev pub apply_rpc_options : List RealRpcOption → RealRpc → RealRpc
apply_rpc_options [] r = r
apply_rpc_options (o ∷ opts) r = apply_rpc_options opts (apply_rpc_option o r)

-- `NewRealRPC`; `dial` is the error of `ethclient.Dial`.
unfoldable pub new_real_rpc : Option GoError → List RealRpcOption → Result RealRpc
new_real_rpc (some e) opts = err e
new_real_rpc none opts =
    ok (apply_rpc_options opts (record { max_retries = pos 3; retry_base_wait = 500_000_000 }))

-- The bits of `r.retryBaseWait * (1 << attempt)`.
abbrev pub wait_of : ℕ → ℕ → ℕ
wait_of base attempt = base * 2 ^ attempt % u64_mod

-- What a call with retries returns, how often it asked the node, how often it failed there
-- (`metricRPCRetriesTotal`), and the waits that it began.
pub record Attempts (A : Type 0) : Type 0 where
  pub outcome : Result A
  pub calls : ℕ
  pub retries_total : ℕ
  pub waits : List ℕ

module _ {A : Type 0} where
  abbrev pub after_failure : Attempts A → Attempts A
  after_failure r = record r { calls = suc r.calls; retries_total = suc r.retries_total }

  abbrev pub begin_wait : ℕ → Attempts A → Attempts A
  begin_wait d r = record r { waits = d ∷ r.waits }

  -- The loop from `attempt` on, with `left` more attempts allowed behind it: `answer` is what the
  -- client returns, `done` is `ctx.Err()` where the context ends the wait behind an attempt.
  unfoldable pub attempts : Bytes → ℕ → (ℕ → Result A) → (ℕ → Option GoError) → ℕ → ℕ → Attempts A
  attempts prefix base answer done zero attempt = elim (answer attempt) [
    | ok a ↦ record { outcome = ok a; calls = 1; retries_total = 0; waits = [] }
    | err e ↦ record { outcome = err (wrap prefix e); calls = 1; retries_total = 1; waits = [] }
  ]
  attempts prefix base answer done (suc left) attempt = elim (answer attempt) [
    | ok a ↦ record { outcome = ok a; calls = 1; retries_total = 0; waits = [] }
    | err e ↦ elim (done attempt) [
      | some c ↦ record {
        outcome = err c;
        calls = 1;
        retries_total = 1;
        waits = wait_of base attempt ∷ [];
      }
      | none ↦
          begin_wait (wait_of base attempt)
            (after_failure (attempts prefix base answer done left (suc attempt)))
    ]
  ]

  -- `for attempt := 0; attempt <= r.maxRetries; attempt++`; with a negative bound the loop does not
  -- run, and the nil error is printed.
  abbrev pub with_retries : Bytes → RealRpc → (ℕ → Result A) → (ℕ → Option GoError) → ℤ → Attempts A
  with_retries prefix r answer done (pos n) = attempts prefix r.retry_base_wait answer done n 0
  with_retries prefix r answer done (negsuc n) = record {
    outcome = err (text (prefix ++ codes "%!w(<nil>)"));
    calls = 0;
    retries_total = 0;
    waits = [];
  }

-- `RealRPC.BlockNumber`.
unfoldable pub block_number : RealRpc → (ℕ → Result ℕ) → (ℕ → Option GoError) → Attempts ℕ
block_number r answer done =
    with_retries (codes "block number retries exhausted: ") r answer done r.max_retries

-- `types.Log` of go-ethereum, and what `fetchRawLogs` asks for.
pub record RawLog : Type 0 where
  pub raw_block_number : ℕ
  pub raw_tx_hash : Bytes
  pub raw_address : Bytes
  pub raw_topics : List Bytes
  pub raw_data : Bytes

pub record FilterQuery : Type 0 where
  pub from_block : ℕ
  pub to_block : ℕ
  pub addresses : List Bytes
  pub topics : List (List Bytes)

-- The conversions of go-ethereum's common package are parameters: `HexToAddress` and `HexToHash`
-- of a query, `Hex` of a hash and of an address, and `Bytes2Hex`.
pub record Conversions : Type 0 where
  pub hex_to_address : Bytes → Bytes
  pub hex_to_hash : Bytes → Bytes
  pub hash_hex : Bytes → Bytes
  pub address_hex : Bytes → Bytes
  pub bytes_to_hex : Bytes → Bytes

module _ (conv : Conversions) where
  unfoldable pub filter_of : ℕ → ℕ → List Bytes → List (List Bytes) → FilterQuery
  filter_of from to addresses topics = record {
    from_block = from;
    to_block = to;
    addresses = map conv.hex_to_address addresses;
    topics = map (map conv.hex_to_hash) topics;
  }

  unfoldable pub log_result_of : RawLog → LogResult
  log_result_of l = record {
    block_number = format_uint l.raw_block_number;
    block_num_uint = l.raw_block_number;
    transaction_hash = conv.hash_hex l.raw_tx_hash;
    address = conv.address_hex l.raw_address;
    topics = map conv.hash_hex l.raw_topics;
    payload = conv.bytes_to_hex l.raw_data;
  }

  abbrev pub converted : Result (List RawLog) → Result (List LogResult)
  converted (ok raw) = ok (map log_result_of raw)
  converted (err e) = err e

  -- `fetchRawLogs`; `filter_logs` is `client.FilterLogs`.
  unfoldable pub fetch_raw_logs :
      (FilterQuery → Result (List RawLog))
      → ℕ
      → ℕ
      → List Bytes
      → List (List Bytes)
      → Result (List LogResult)
  fetch_raw_logs filter_logs from to addresses topics =
      converted (filter_logs (filter_of from to addresses topics))

  -- `RealRPC.EthGetLogs`.
  unfoldable pub eth_get_logs :
      RealRpc
      → (ℕ → FilterQuery → Result (List RawLog))
      → (ℕ → Option GoError)
      → ℕ
      → ℕ
      → List Bytes
      → List (List Bytes)
      → Attempts (List LogResult)
  eth_get_logs r filter_logs done from to addresses topics =
      with_retries (codes "get logs retries exhausted: ") r
        (λ attempt. fetch_raw_logs (filter_logs attempt) from to addresses topics) done
        r.max_retries
