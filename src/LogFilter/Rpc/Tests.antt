-- ===== src/LogFilter/Rpc/Tests.antt =====
-- Runs of `RealRPC` and witnesses of its properties.
use eip_toolkit.Prelude.{
  ℕ, zero, suc, ◌≤◌, ◌<◌, ◌≡◌, refl, ◌⊎◌, false, Option, none, some, List, [], ◌∷◌, Bytes, codes,
  GoError, text, wrap, Result, ok, err,
}
use eip_toolkit.Prelude.Int.{pos}
use eip_toolkit.LogFilter.Errors.{is_rate_limit_or_range_err}
use eip_toolkit.LogFilter.Rpc.{
  RealRpc, RawLog, FilterQuery, Conversions, with_retries, eth_get_logs, fetch_raw_logs, attempts,
  filter_of, new_real_rpc, with_max_retries,
}
use eip_toolkit.LogFilter.Rpc.Steps.{waits_from}
use eip_toolkit.LogFilter.Rpc.Retries.{with_retries_exhausted, with_retries_outcome}
use eip_toolkit.LogFilter.Rpc.Hidden.{range_error_is_hidden}

-- `WithRetryBaseWait(1ms)`, two retries.
abbrev rpc : RealRpc
rpc = record { max_retries = pos 2; retry_base_wait = 1_000_000 }

abbrev refused : GoError
refused = text (codes "block range too large")

-- The node refuses the first attempt.
abbrev second_try : ℕ → Result ℕ
second_try zero = err refused
second_try (suc n) = ok 100

abbrev always_refused : ℕ → Result ℕ
always_refused n = err refused

abbrev never : ℕ → Option GoError
never n = none

abbrev prefix : Bytes
prefix = codes "block number retries exhausted: "

defaults :
    new_real_rpc none (with_max_retries (pos 7) ∷ [])
    ≡ ok (record { max_retries = pos 7; retry_base_wait = 500_000_000 })
unfolding new_real_rpc
defaults = refl

three_refusals : with_retries prefix rpc always_refused never (pos 2) ≡ record {
  outcome = err (wrap prefix refused);
  calls = 3;
  retries_total = 3;
  waits = waits_from 1_000_000 0 2;
}
three_refusals =
    with_retries_exhausted prefix rpc always_refused never 2 refused
      (λ i h. ((refused, refl), refl)) refl

with_retries_outcome_example :
    (n : ℕ) × (n ≤ 2)
    × ((i : ℕ) → i < n → ((e : GoError) × (second_try i ≡ err e)) × (never i ≡ none))
    × (((a : ℕ) × (second_try n ≡ ok a)
          × (with_retries prefix rpc second_try never (pos 2) ≡ record {
            outcome = ok a;
            calls = suc n;
            retries_total = n;
            waits = waits_from 1_000_000 0 n;
          }))
        ⊎ ((e : GoError) × (n ≡ 2)
            × (second_try n ≡ err e)
            × (with_retries prefix rpc second_try never (pos 2) ≡ record {
              outcome = err (wrap prefix e);
              calls = suc n;
              retries_total = suc n;
              waits = waits_from 1_000_000 0 n;
            }))
        ⊎ ((e c : GoError) × (n < 2)
            × (second_try n ≡ err e)
            × (never n ≡ some c)
            × (with_retries prefix rpc second_try never (pos 2) ≡ record {
              outcome = err c;
              calls = suc n;
              retries_total = suc n;
              waits = waits_from 1_000_000 0 (suc n);
            })))
with_retries_outcome_example = with_retries_outcome prefix rpc second_try never 2

-- Hexadecimal texts and values are the same bytes here.
abbrev conv : Conversions
conv = record {
  hex_to_address = λ b. b;
  hex_to_hash = λ b. b;
  hash_hex = λ b. b;
  address_hex = λ b. b;
  bytes_to_hex = λ b. b;
}

abbrev refuses : ℕ → FilterQuery → Result (List RawLog)
refuses n q = err refused

refused_three_times :
    (eth_get_logs conv rpc refuses never 5 9 [] []).outcome
    ≡ err (wrap (codes "get logs retries exhausted: ") refused)
unfolding eth_get_logs attempts fetch_raw_logs filter_of
refused_three_times = refl

range_error_is_hidden_example :
    is_rate_limit_or_range_err (some (wrap (codes "get logs retries exhausted: ") refused)) ≡ false
range_error_is_hidden_example =
    range_error_is_hidden conv rpc refuses never 5 9 [] []
      (wrap (codes "get logs retries exhausted: ") refused) (λ i c h. elim (none_some h) [ ])
      refused_three_times
  where
    none_some : {c : GoError} → none ≡ some c → ⊥
    none_some h = cc

abbrev raw : List RawLog
raw =
    record {
      raw_block_number = 1234;
      raw_tx_hash = codes "0xaa";
      raw_address = codes "0x01";
      raw_topics = [];
      raw_data = [];
    }
    ∷ []
