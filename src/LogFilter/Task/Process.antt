-- ===== src/LogFilter/Task/Process.antt =====
-- The second half of a round, over any pool that keeps the laws of the interface.
use eip_toolkit.Prelude.{
  ℕ, ◌+◌, ◌<◌, ◌≡◌, ◌≢◌, ◌↔◌, ◌⊎◌, inl, inr, true, false, Option, none, List, [], ◌∷◌, arith,
  u64_mod, Option-cases, length, Elem, Bytes, GoError, Result, ok, Result-cases,
}
use eip_toolkit.LogFilter.Log.{LogResult, dedup}
use eip_toolkit.LogFilter.Pool.{PendingPool, IsPendingPool, is_confirmed}
use eip_toolkit.LogFilter.Task.{Machine, Env, delivered, saved, deliver, process}

module _ {S : Type 0} where
  -- What `deliver` leaves alone.
  abbrev pub SameButTrace : Machine S → Machine S → Type 0
  SameButTrace m m' =
      (m'.pool ≡ m.pool)
      × (m'.local_sem ≡ m.local_sem)
      × (m'.rpc_sem ≡ m.rpc_sem)
      × (m'.task.batch_size ≡ m.task.batch_size)
      × (m'.task.confirm_block_num ≡ m.task.confirm_block_num)
      × (m'.round ≡ m.round)

  pub deliver_frame :
      (env : Env) (end : ℕ) (ready : List LogResult) (m : Machine S)
      → SameButTrace m (deliver env end ready m).1
  unfolding deliver
  deliver_frame env end [] m = ground arith
  deliver_frame env end (l ∷ ready) m = ground arith

  -- How a call that succeeds changes the checkpoint and the trace.
  abbrev pub Delivers : ℕ → List LogResult → Machine S → Machine S → Type 0
  Delivers end ready m m' =
      ((ready ≡ []) × (m'.trace ≡ m.trace) × (m'.task.checkpoint ≡ m.task.checkpoint))
      ⊎ ((m'.trace ≡ saved end ∷ delivered ready ∷ m.trace) × (m'.task.checkpoint ≡ end))

  pub deliver_ok :
      (env : Env) (end : ℕ) (ready : List LogResult) (m : Machine S)
      → (deliver env end ready m).0 ≡ none
      → Delivers end ready m (deliver env end ready m).1
  unfolding deliver
  deliver_ok env end [] m h = ground arith
  deliver_ok env end (l ∷ ready) m h = inr (ground arith)

module _ {S : Type 0} (sum256 : Bytes → Bytes) (pools : PendingPool S)
    (laws : IsPendingPool pools) where
  open laws use {IsValid, Held}

  -- What the pool holds once a batch that starts at `from` is stored.
  abbrev pub HeldWith : S → ℕ → List LogResult → ℕ → LogResult → Type 0
  HeldWith p from logs j l = ((from ≡ j) × Elem l (dedup sum256 logs)) ⊎ ((from ≢ j) × Held p j l)

  -- A round that succeeds on the logs of a batch.
  pub record Processed (latest from end : ℕ) (logs : List LogResult) (m m' : Machine S)
      : Type 0 where
    pub ready : List LogResult
    pub delivers : Delivers end ready m m'
    pub valid : IsValid m'.pool
    pub stays :
        (j : ℕ) (l : LogResult)
        → Held m'.pool j l ↔ (
            HeldWith m.pool from logs j l
            × (is_confirmed latest m.task.confirm_block_num j ≡ false))
    pub goes :
        (l : LogResult)
        → Elem l ready ↔ (
            (j : ℕ) × HeldWith m.pool from logs j l
            × (is_confirmed latest m.task.confirm_block_num j ≡ true))
    pub same_sems : (m'.local_sem ≡ m.local_sem) × (m'.rpc_sem ≡ m.rpc_sem)
    pub same_task :
        (m'.task.batch_size ≡ m.task.batch_size)
        × (m'.task.confirm_block_num ≡ m.task.confirm_block_num)

  module _ (env : Env) (latest from end : ℕ) (logs : List LogResult) (m : Machine S) where
    abbrev pub added : Option GoError × S
    added = pools.add from (dedup sum256 logs) m.pool

    abbrev pub taken : Result (List LogResult) × S
    taken = pools.pop_confirmed latest m.task.confirm_block_num added.1

    -- The machine whose pool has been popped.
    abbrev pub after_pool : Machine S
    after_pool = record m { logs_total = m.logs_total + length (dedup sum256 logs); pool = taken.1 }

    pub process_lem :
        (ready : List LogResult)
        → added.0 ≡ none
        → taken.0 ≡ ok ready
        → process sum256 pools env latest from end logs m ≡ deliver env end ready after_pool
    unfolding process
    process_lem ready ea et = rw (ea, process) (rw et)

    -- On every path the semaphores are as before.
    pub process_frame :
        ((process sum256 pools env latest from end logs m).1.local_sem ≡ m.local_sem)
        × ((process sum256 pools env latest from end logs m).1.rpc_sem ≡ m.rpc_sem)
    process_frame = elim (Option-cases added.0) [
      | inr (e, ea) ↦ unfold process in ground arith
      | inl ea ↦ elim (Result-cases taken.0) [
        | inr (e, et) ↦ unfold process in ground arith
        | inl (ready, et) ↦
            rw (process_lem ready ea et) (ground (arith, deliver_frame env end ready after_pool))
      ]
    ]

    module _ (ready : List LogResult) (fits : from < u64_mod) (v : IsValid m.pool)
        (ea : added.0 ≡ none) (et : taken.0 ≡ ok ready) where
      added_valid : IsValid added.1
      added_valid = laws.add-IsValid from (dedup sum256 logs) m.pool fits v

      pub stays_lem :
          (j : ℕ) (l : LogResult)
          → Held taken.1 j l ↔ (
              HeldWith m.pool from logs j l
              × (is_confirmed latest m.task.confirm_block_num j ≡ false))
      stays_lem j l =
          let pop =
            laws.Held-pop latest m.task.confirm_block_num added.1 ready j l added_valid et in
          let add = laws.Held-add from (dedup sum256 logs) m.pool j l fits v ea in
          ((λ h. (add.0 (pop.0 h).0, (pop.0 h).1)), (λ h. pop.1 (add.1 h.0, h.1)))

      goes_lem :
          (l : LogResult)
          → Elem l ready ↔ (
              (j : ℕ) × HeldWith m.pool from logs j l
              × (is_confirmed latest m.task.confirm_block_num j ≡ true))
      goes_lem l =
          let pop = laws.Elem-pop latest m.task.confirm_block_num added.1 ready l added_valid et in
          let add = λ (j : ℕ). laws.Held-add from (dedup sum256 logs) m.pool j l fits v ea in
          (
            (λ h. let (j, held, c) = pop.0 h in (j, (add j).0 held, c)),
            (λ (j, held, c). pop.1 (j, (add j).1 held, c)),
          )

      Processed_lem :
          (m' : Machine S)
          → SameButTrace after_pool m'
          → Delivers end ready after_pool m'
          → Processed latest from end logs m m'
      Processed_lem m' same d = record {
        ready = ready;
        delivers = d;
        valid = rw same.0 (laws.pop-IsValid latest m.task.confirm_block_num added.1 added_valid);
        stays = λ j l. rw same.0 (stays_lem j l);
        goes = goes_lem;
        same_sems = (same.1, same.2);
        same_task = (same.3, same.4);
      }

    pub process_ok :
        from < u64_mod
        → IsValid m.pool
        → (process sum256 pools env latest from end logs m).0 ≡ none
        → Processed latest from end logs m (process sum256 pools env latest from end logs m).1
    process_ok fits v h = elim (Option-cases added.0) [
      | inr (e, ea) ↦ absurd (unfold process in ground arith)
      | inl ea ↦ elim (Result-cases taken.0) [
        | inr (e, et) ↦ absurd (unfold process in ground arith)
        | inl (ready, et) ↦
            let same = process_lem ready ea et in
            rw same (
              Processed_lem ready fits v ea et _ (deliver_frame env end ready after_pool)
                (deliver_ok env end ready after_pool (rw same at h)))
      ]
    ]
