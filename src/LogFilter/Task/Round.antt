-- ===== src/LogFilter/Task/Round.antt =====
-- One round of the loop in `RunOnce`: what it does where the loop goes on.
use eip_toolkit.Prelude.{
  ℕ, ◌+◌, ◌/◌, ◌≤◌, ◌<◌, ◌≡◌, refl, sym, ap, subst₂, subst₃, ◌↔◌, ◌⊎◌, inl, inr, true, false,
  Option, none, List, [], ◌∷◌, arith, u64_mod, add64, Option-cases, Elem, Bytes, GoError, Result,
  ok, err,
}
use eip_toolkit.LogFilter.Log.{LogResult}
use eip_toolkit.LogFilter.Pool.{PendingPool, IsPendingPool, is_confirmed}
use eip_toolkit.LogFilter.Task.{
  LogTask, Machine, Env, FetchEnd, got, shrunk, failed, fetched, delivered, saved, fetch, process,
  set_pending, run_round, batch_end,
}
use eip_toolkit.LogFilter.Task.Fetch.{fetch_frame, fetch_got, fetch_shrunk}
use eip_toolkit.LogFilter.Task.Process.{HeldWith, Processed, process_frame, process_ok}

FetchEnd-cases :
    (f : FetchEnd)
    → ((logs : List LogResult) × (end : ℕ) × (f ≡ got logs end))
      ⊎ (f ≡ shrunk)
      ⊎ ((e : GoError) × (f ≡ failed e))
FetchEnd-cases (got logs end) = inl (logs, end, refl)
FetchEnd-cases shrunk = inr (inl refl)
FetchEnd-cases (failed e) = inr (inr (e, refl))

module _ {S : Type 0} where
  -- The batch was too large, and half of it is tried next.
  pub record Shrunk (from next : ℕ) (m m' : Machine S) : Type 0 where
    pub again : next ≡ from
    pub halved : m'.task.batch_size ≡ m.task.batch_size / 2
    pub positive : 1 ≤ m'.task.batch_size
    pub same_pool : m'.pool ≡ m.pool
    pub same_trace : m'.trace ≡ m.trace
    pub same_task :
        (m'.task.checkpoint ≡ m.task.checkpoint)
        × (m'.task.confirm_block_num ≡ m.task.confirm_block_num)

  set_pending_frame :
      (r : Result ℕ) (m : Machine S)
      → ((set_pending r m).task ≡ m.task)
        × ((set_pending r m).pool ≡ m.pool)
        × ((set_pending r m).trace ≡ m.trace)
        × ((set_pending r m).local_sem ≡ m.local_sem)
        × ((set_pending r m).rpc_sem ≡ m.rpc_sem)
  set_pending_frame (ok n) m = (refl, refl, refl, refl, refl)
  set_pending_frame (err e) m = (refl, refl, refl, refl, refl)

module _ {S : Type 0} (sum256 : Bytes → Bytes) (pools : PendingPool S)
    (laws : IsPendingPool pools) where
  open laws use {IsValid, Held}

  -- A batch of logs was fetched and went through the pool.
  pub record Advanced (env : Env) (latest from next : ℕ) (m m' : Machine S) : Type 0 where
    pub end : ℕ
    pub logs : List LogResult
    pub ready : List LogResult
    pub end_lem : end ≡ batch_end latest from m.task.batch_size
    pub next_lem : next ≡ add64 end 1
    pub answered : env.eth_get_logs m.round from end m.task.address m.task.topics ≡ ok logs
    pub delivers :
        ((ready ≡ [])
          × (m'.trace ≡ fetched from end logs ∷ m.trace)
          × (m'.task.checkpoint ≡ m.task.checkpoint))
        ⊎ ((m'.trace ≡ saved end ∷ delivered ready ∷ fetched from end logs ∷ m.trace)
            × (m'.task.checkpoint ≡ end))
    pub valid : IsValid m'.pool
    pub stays :
        (j : ℕ) (l : LogResult)
        → Held m'.pool j l ↔ (
            HeldWith sum256 pools laws m.pool from logs j l
            × (is_confirmed latest m.task.confirm_block_num j ≡ false))
    pub goes :
        (l : LogResult)
        → Elem l ready ↔ (
            (j : ℕ) × HeldWith sum256 pools laws m.pool from logs j l
            × (is_confirmed latest m.task.confirm_block_num j ≡ true))
    pub same_size : m'.task.batch_size ≡ m.task.batch_size
    pub same_confirm : m'.task.confirm_block_num ≡ m.task.confirm_block_num

  module _ (env : Env) (latest from : ℕ) (m : Machine S) where
    abbrev first : FetchEnd × Machine S
    first = fetch env latest from m

    -- On every path a round gives back the slots that it took.
    pub round_frame :
        ((run_round sum256 pools env latest from m).1.local_sem ≡ m.local_sem)
        × ((run_round sum256 pools env latest from m).1.rpc_sem ≡ m.rpc_sem)
    round_frame = elim (FetchEnd-cases first.0) [
      | inl (logs, end, e) ↦
          unfold run_round in
          ground (
            arith,
            fetch_frame env latest from m,
            process_frame sum256 pools laws env latest from end logs first.1,
            set_pending_frame
                (pools.count (process sum256 pools env latest from end logs first.1).1.pool)
                (process sum256 pools env latest from end logs first.1).1,
          )
      | inr (inl e) ↦ unfold run_round in ground (arith, fetch_frame env latest from m)
      | inr (inr (f, e)) ↦ unfold run_round in ground (arith, fetch_frame env latest from m)
    ]

    module _ (logs : List LogResult) (end : ℕ) (e : first.0 ≡ got logs end) where
      abbrev second : Option GoError × Machine S
      second = process sum256 pools env latest from end logs first.1

      abbrev final : Machine S
      final = record (set_pending (pools.count second.1.pool) second.1) {
        round = second.1.round + 1;
      }

      round_lem :
          second.0 ≡ none → run_round sum256 pools env latest from m ≡ (ok (add64 end 1), final)
      unfolding run_round
      round_lem h = rw (e, run_round) (rw h)

      Advanced_lem :
          Processed sum256 pools laws latest from end logs first.1 second.1
          → Advanced env latest from (add64 end 1) m final
      Advanced_lem p =
          let facts = fetch_got env latest from m logs end e in
          let frame = fetch_frame env latest from m in
          let pending = set_pending_frame (pools.count second.1.pool) second.1 in
          let depth = λ (t : LogTask). t.confirm_block_num in
          record {
            end = end;
            logs = logs;
            ready = p.ready;
            end_lem = facts.0;
            next_lem = refl;
            answered = facts.3;
            delivers = ground (arith, p.delivers);
            valid = rw pending.1 p.valid;
            stays = λ j l.
                subst₃
                  (λ x y (t : LogTask). Held x j l ↔ (
                    HeldWith sum256 pools laws y from logs j l
                    × (is_confirmed latest t.confirm_block_num j ≡ false)))
                  (sym pending.1) frame.2 facts.1 (p.stays j l);
            goes = λ l.
                subst₂
                  (λ y (t : LogTask). Elem l p.ready ↔ (
                    (j : ℕ) × HeldWith sum256 pools laws y from logs j l
                    × (is_confirmed latest t.confirm_block_num j ≡ true)))
                  frame.2 facts.1 (p.goes l);
            same_size = ground (arith, p.same_task);
            same_confirm = ground (arith, p.same_task);
          }

    pub round_ok :
        (next : ℕ)
        → from < u64_mod
        → IsValid m.pool
        → (run_round sum256 pools env latest from m).0 ≡ ok next
        → Shrunk from next m (run_round sum256 pools env latest from m).1
          ⊎ Advanced env latest from next m (run_round sum256 pools env latest from m).1
    round_ok next below v h = elim (FetchEnd-cases first.0) [
      | inr (inr (f, e)) ↦ absurd (unfold run_round in ground arith)
      | inr (inl e) ↦ inl (
          unfold run_round in
          ground (arith, fetch_frame env latest from m, fetch_shrunk env latest from m e))
      | inl (logs, end, e) ↦ elim (Option-cases (second logs end e).0) [
        | inr (f, bad) ↦ absurd (unfold run_round in ground arith)
        | inl good ↦
            let frame = fetch_frame env latest from m in
            let whole = round_lem logs end e good in
            let same : add64 end 1 ≡ next = cc (h, ap (λ (r : Result ℕ × Machine S). r.0) whole) in
            inr (
              subst₂ (λ n (x : Machine S). Advanced env latest from n m x) same
                (sym (ap (λ (r : Result ℕ × Machine S). r.1) whole))
                (Advanced_lem logs end e (
                  process_ok sum256 pools laws env latest from end logs first.1 below (rw frame.2 v)
                    good)))
      ]
    ]
