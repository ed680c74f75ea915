-- ===== src/LogFilter/Handlers/Kafka.antt =====
-- What the messages of `KafkaBatchHandler` say (go/logfilter/logfilter.go).
use mathlib.Core.List.{append_cancel_left}
use eip_toolkit.Prelude.{◌≡◌, refl, sym, ◌∙◌, ◌∷◌, ◌++◌, append_assoc, All, Bytes, codes}
use eip_toolkit.LogFilter.Log.{LogResult}
use eip_toolkit.LogFilter.Handlers.{message_of, escape}
use eip_toolkit.LogFilter.Handlers.Quote.{IsAscii, escape_inj}

-- The texts that go into a message are ASCII.
abbrev pub IsPlain : LogResult → Type 0
IsPlain l = All IsAscii l.block_number × All IsAscii l.transaction_hash × All IsAscii l.address

-- The fields of the value, each in front of what follows.
abbrev fields : Bytes → Bytes → Bytes → Bytes
fields b t a =
    codes "{\"block\":\""
    ++ (escape b
        ++ 34
          ∷ (codes ",\"tx\":\""
              ++ (escape t ++ 34 ∷ (codes ",\"addr\":\"" ++ (escape a ++ 34 ∷ codes "}")))))

value_lem :
    (l : LogResult) → (message_of l).value ≡ fields l.block_number l.transaction_hash l.address
value_lem l = simp append_assoc refl

-- Two logs with the same message have the same block, transaction and address.
pub message_of_binds :
    (k l : LogResult)
    → IsPlain k
    → IsPlain l
    → (message_of k).value ≡ (message_of l).value
    → (k.block_number ≡ l.block_number)
      × (k.transaction_hash ≡ l.transaction_hash)
      × (k.address ≡ l.address)
message_of_binds k l (kb, kt, ka) (lb, lt, la) e =
    let same = sym (value_lem k) ∙ e ∙ value_lem l in
    let (block, rest) =
      escape_inj k.block_number l.block_number _ _ kb lb
        (append_cancel_left (codes "{\"block\":\"") _ _ same) in
    let (tx, rest') =
      escape_inj k.transaction_hash l.transaction_hash _ _ kt lt
        (append_cancel_left (codes ",\"tx\":\"") _ _ rest) in
    let (addr, rest'') =
      escape_inj k.address l.address _ _ ka la
        (append_cancel_left (codes ",\"addr\":\"") _ _ rest') in
    (block, tx, addr)
