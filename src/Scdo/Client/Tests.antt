-- ===== src/Scdo/Client/Tests.antt =====
-- Runs of the client over a node that answers with fixed texts, and witnesses of its properties.
use eip_toolkit.Prelude.{
  ℕ, ◌≡◌, refl, ◌↔◌, true, false, Option, none, some, List, [], ◌∷◌, ◌++◌, ◌==◌, if◌then◌else◌,
  length, Bytes, codes, GoError, canceled, text, Result, ok, err,
}
use eip_toolkit.Prelude.Int.{ℤ, pos, negsuc}
use eip_toolkit.Decimal.{format_uint}
use eip_toolkit.Strings.{contains, has_prefix}
use eip_toolkit.Scdo.BigInt.{set_string_0, read_magnitude, read_digits, hex_from, format_hex}
use eip_toolkit.Scdo.Tx.{Tx, RpcCall, add_tx, tx_obj, send_tx, fetch_nonce}
use eip_toolkit.Scdo.Client.{
  Param, tx_param, RpcResponse, Http, Decoders, Receipt, no_receipt, Client, dial, decode_with,
  call_context, state_params, block_height, nonce, balance, is_empty_receipt, get_receipt,
  client_node,
}
use eip_toolkit.Scdo.Tx.Sent.{NonceFrom}
use eip_toolkit.Scdo.Client.Call.{Answered, Leaves, call_context_ok}
use eip_toolkit.Scdo.Client.Receipts.{
  get_receipt_method, receipt_params, not_found, get_receipt_by_answer, balance_reads,
  sent_tx_was_accepted,
}

-- A wire on which a request is its method, and a response is the result alone, or an error behind
-- `!`.
abbrev read_wire : Bytes → Result RpcResponse
read_wire [] = err (text (codes "unexpected end of JSON input"))
read_wire (c ∷ s) =
    if c == b'!'
    then ok (record { result = []; error = some (negsuc 31_999, s) })
    else ok (record { result = c ∷ s; error = none })

abbrev wire : (Bytes → Result Bytes) → Http
wire answer = record {
  marshal = λ request. ok request.method;
  new_request = λ url buf. none;
  send = λ url buf. ok (answer buf);
  unmarshal = read_wire;
}

abbrev client_of : Bytes → Client
client_of answer = dial (wire (λ method. ok answer)) (codes "http://node")

-- Texts are read as they are, and a receipt has its text as its hash.
abbrev decoders : Decoders Receipt
decoders = record {
  decode_uint64 = λ raw n. (none, length raw);
  decode_string = λ raw s. (none, raw);
  decode_bool = λ raw b. (none, true);
  decode_receipt = λ raw r. (none, record r { tx_hash = raw });
}

abbrev response : Bytes → RpcResponse
response result = record { result = result; error = none }

abbrev refused : Bytes → RpcResponse
refused m = record { result = []; error = some (negsuc 31_999, m) }

abbrev not_mined_text : Bytes
not_mined_text = codes "leveldb: not found"

abbrev unmined : Client
unmined = client_of (b'!' ∷ not_mined_text)

abbrev mined : Client
mined = client_of (codes "0xabc")

refused_text :
    call_context
      (client_of (codes "!busy")).http
      (decode_with decoders.decode_string)
      []
      (codes "m")
      []
    ≡ (some (text (codes "RPC error -32000: busy")), [])
unfolding call_context format_uint
refused_text = refl

-- A null result leaves the height at 0, and the call succeeds.
null_height : block_height decoders (client_of (codes "null")) ≡ ok 0
unfolding block_height call_context
null_height = refl

failed_read :
    nonce decoders
      (dial (wire (λ method. err canceled)) (codes "http://node"))
      (codes "0x01")
      (pos 3)
    ≡ err canceled
unfolding nonce call_context
failed_read = refl

octal_balance : balance decoders (client_of (codes "010")) (codes "0x01") (negsuc 0) ≡ ok (pos 8)
unfolding balance call_context set_string_0 read_magnitude read_digits
octal_balance = refl

mined_receipt :
    get_receipt decoders mined (codes "0xabc")
    ≡ ok (some (record no_receipt { tx_hash = codes "0xabc" }))
unfolding get_receipt call_context
mined_receipt = refl

abbrev answered :
    (c : Bytes) (method : Bytes) (params : List Param) (resp : RpcResponse)
    → read_wire c ≡ ok resp
    → Answered (client_of c).http method params resp
answered c method params resp h = record {
  buf = method;
  body = c;
  marshalled = refl;
  requested = refl;
  sent = refl;
  read = h;
}

call_context_ok_example :
    (call_context mined.http (decode_with decoders.decode_string) [] (codes "m") []
      ≡ (none, codes "0xabc"))
    ↔ ((resp : RpcResponse) × Answered mined.http (codes "m") [] resp
        × Leaves decoders.decode_string [] resp (codes "0xabc"))
call_context_ok_example =
    call_context_ok mined.http decoders.decode_string [] (codes "0xabc") (codes "m") []

get_receipt_by_answer_example :
    ((resp : RpcResponse) (code : ℤ) (m : Bytes)
      → Answered unmined.http get_receipt_method (receipt_params (codes "0xabc")) resp
      → resp.error ≡ some (code, m)
      → contains m not_found ≡ true
      → get_receipt decoders unmined (codes "0xabc") ≡ ok none)
    × ((r : Receipt)
        → get_receipt decoders unmined (codes "0xabc") ≡ ok (some r)
        → (resp : RpcResponse) × Answered unmined.http get_receipt_method
            (receipt_params (codes "0xabc"))
            resp
          × (resp.error ≡ none)
          × (decoders.decode_receipt resp.result no_receipt ≡ (none, r))
          × (is_empty_receipt r ≡ false))
get_receipt_by_answer_example = get_receipt_by_answer decoders unmined (codes "0xabc")

unmined_receipt : get_receipt decoders unmined (codes "0xabc") ≡ ok none
unfolding contains has_prefix
unmined_receipt =
    get_receipt_by_answer_example.0 (refused not_mined_text) (negsuc 31_999) not_mined_text
      (answered (b'!' ∷ not_mined_text) get_receipt_method (receipt_params (codes "0xabc"))
        (refused not_mined_text) refl)
      refl refl

hex_6648 : ◌≡◌ {A = Option GoError × Bytes} (none, codes "0x6648") (none, format_hex (pos 26_184))
unfolding format_hex hex_from
hex_6648 = refl

balance_reads_example :
    balance decoders (client_of (codes "0x6648")) (codes "0x01") (negsuc 0) ≡ ok (pos 26_184)
balance_reads_example =
    balance_reads decoders (client_of (codes "0x6648")) (codes "0x01") (negsuc 0)
      (response (codes "0x6648")) 26_184
      (answered (codes "0x6648") (codes "scdo_getBalance") (state_params (codes "0x01") (negsuc 0))
        (response (codes "0x6648")) refl)
      refl refl hex_6648

abbrev transfer : Tx
transfer = record {
  to = codes "0x02";
  amount = some (pos 5);
  gas_price = some (pos 1);
  gas_limit = 21_000;
  payload = [];
  nonce = 0;
}

transfer_sent : (send_tx (client_node decoders mined) (codes "0x01") transfer).0 ≡ ok []
unfolding send_tx fetch_nonce client_node block_height nonce call_context
transfer_sent = refl

sent_tx_was_accepted_example :
    ([] ≡ codes "")
    × (n : ℕ) × (calls : List RpcCall) × (resp : RpcResponse) × NonceFrom
        (client_node decoders mined)
        (codes "0x01")
        0
        n
        calls
    × ((send_tx (client_node decoders mined) (codes "0x01") transfer).1
        ≡ calls ++ add_tx (tx_obj (codes "0x01") n transfer) ∷ [])
    × Answered mined.http
        (codes "scdo_addTx")
        (tx_param (tx_obj (codes "0x01") n transfer) ∷ [])
        resp
    × (resp.error ≡ none)
    × (decoders.decode_bool resp.result false ≡ (none, true))
sent_tx_was_accepted_example =
    sent_tx_was_accepted decoders mined (codes "0x01") transfer [] transfer_sent
