-- ===== src/LogFilter/Redis/Encoding.antt =====
-- An encoding of lists of logs for the tests: each text behind its length.
use eip_toolkit.Prelude.{
  ℕ, zero, suc, ◌≡◌, refl, sym, ap, ◌∙◌, ok_eq, List, [], ◌∷◌, ◌++◌, arith, length, take, drop,
  Bytes, codes, text, Result, ok, err,
}
use eip_toolkit.LogFilter.Log.{LogResult}
use eip_toolkit.LogFilter.Redis.{Json}
use eip_toolkit.LogFilter.Redis.Held.{ReadsBack}

abbrev block : Bytes → Bytes
block b = length b ∷ b

abbrev first_block : Bytes → Bytes × Bytes
first_block [] = ([], [])
first_block (n ∷ rest) = (take n rest, drop n rest)

take_all : (b rest : Bytes) → take (length b) (b ++ rest) ≡ b
take_all [] rest = refl
take_all (x ∷ b) rest = ap (λ z. x ∷ z) (take_all b rest)

drop_all : (b rest : Bytes) → drop (length b) (b ++ rest) ≡ rest
drop_all [] rest = refl
drop_all (x ∷ b) rest = drop_all b rest

first_block-block : (b rest : Bytes) → first_block (block b ++ rest) ≡ (b, rest)
first_block-block b rest = rw (take_all b rest, drop_all b rest) refl

unfoldable pub write_blocks : List Bytes → Bytes → Bytes
write_blocks [] rest = rest
write_blocks (b ∷ bs) rest = block b ++ write_blocks bs rest

unfoldable pub read_blocks : ℕ → Bytes → List Bytes × Bytes
read_blocks zero s = ([], s)
read_blocks (suc n) s =
    let (b, s') = first_block s in let (bs, s'') = read_blocks n s' in (b ∷ bs, s'')

read_blocks-write_blocks :
    (bs : List Bytes) (rest : Bytes) → read_blocks (length bs) (write_blocks bs rest) ≡ (bs, rest)
unfolding read_blocks write_blocks
read_blocks-write_blocks [] rest = refl
read_blocks-write_blocks (b ∷ bs) rest =
    ground (arith, first_block-block b (write_blocks bs rest), read_blocks-write_blocks bs rest)

-- The five texts of a log in front of its topics.
unfoldable pub write_log : LogResult → Bytes → Bytes
write_log l rest =
    l.block_num_uint
    ∷ length l.topics
    ∷ write_blocks (l.block_number ∷ l.transaction_hash ∷ l.address ∷ l.payload ∷ [])
        (write_blocks l.topics rest)

unfoldable pub log_from : ℕ → List Bytes → List Bytes → LogResult
log_from n (b ∷ t ∷ a ∷ p ∷ more) topics = record {
  block_number = b;
  block_num_uint = n;
  transaction_hash = t;
  address = a;
  topics = topics;
  payload = p;
}
log_from n texts topics = record {
  block_number = [];
  block_num_uint = n;
  transaction_hash = [];
  address = [];
  topics = topics;
  payload = [];
}

unfoldable pub read_log : Bytes → LogResult × Bytes
read_log (n ∷ k ∷ s) =
    let (texts, s') = read_blocks 4 s in
    let (topics, s'') = read_blocks k s' in (log_from n texts topics, s'')
read_log s = (log_from 0 [] [], [])

read_log-write_log : (l : LogResult) (rest : Bytes) → read_log (write_log l rest) ≡ (l, rest)
unfolding read_log write_log log_from
read_log-write_log l rest =
    let texts = l.block_number ∷ l.transaction_hash ∷ l.address ∷ l.payload ∷ [] in
    rw (read_blocks-write_blocks texts (write_blocks l.topics rest))
      (rw (read_blocks-write_blocks l.topics rest) refl)

unfoldable pub write_logs : List LogResult → Bytes
write_logs [] = []
write_logs (l ∷ logs) = write_log l (write_logs logs)

unfoldable pub read_logs : ℕ → Bytes → List LogResult
read_logs zero s = []
read_logs (suc n) s = let (l, s') = read_log s in l ∷ read_logs n s'

read_logs-write_logs : (logs : List LogResult) → read_logs (length logs) (write_logs logs) ≡ logs
unfolding read_logs write_logs
read_logs-write_logs [] = refl
read_logs-write_logs (l ∷ logs) =
    ground (arith, read_log-write_log l (write_logs logs), read_logs-write_logs logs)

abbrev read_all : Bytes → Result (List LogResult)
read_all [] = err (text (codes "unexpected end"))
read_all (n ∷ s) = ok (read_logs n s)

abbrev pub block_json : Json
block_json = record { marshal = λ logs. ok (length logs ∷ write_logs logs); unmarshal = read_all }

pub block_json-ReadsBack : ReadsBack block_json
block_json-ReadsBack logs payload e =
    ap read_all (sym (ok_eq e)) ∙ ap ok (read_logs-write_logs logs)
