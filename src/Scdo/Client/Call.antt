-- ===== src/Scdo/Client/Call.antt =====
-- What a call of the node returns, by its response (go/scdo/jsonrpc.go).
use eip_toolkit.Prelude.{
  ◌≡◌, sym, ap, ◌∙◌, subst, ◌↔◌, ◌⊎◌, inl, inr, true, false, Option, none, some, List, arith,
  if◌then◌else◌, Bool-cases, Option-cases, Bytes, GoError, ok, err, Result-cases,
}
use eip_toolkit.Scdo.Client.{
  Param, RpcResponse, JsonRpc, Target, decode_with, request_of, read_result, read_response,
  call_context, after_unmarshal, is_absent, rpc_error,
}

-- The call was sent as one request, and its body was read as the response.
pub record Answered (r : JsonRpc) (method : Bytes) (params : List Param) (resp : RpcResponse)
    : Type 0 where
  pub buf : Bytes
  pub body : Bytes
  pub marshalled : r.client.marshal (request_of method params) ≡ ok buf
  pub requested : r.client.new_request r.url buf ≡ none
  pub sent : r.client.send r.url buf ≡ ok (ok body)
  pub read : r.client.unmarshal body ≡ ok resp

module _ {A : Type 0} where
  -- The result that a response without an error leaves in a target that was `a`: `a` itself where
  -- there is no result, or what the decoder makes of it.
  abbrev pub Leaves : (Bytes → A → Option GoError × A) → A → RpcResponse → A → Type 0
  Leaves decode a resp a' =
      (resp.error ≡ none)
      × (((is_absent resp.result ≡ true) × (a' ≡ a))
          ⊎ ((is_absent resp.result ≡ false) × (decode resp.result a ≡ (none, a'))))

  pub call_context-Answered :
      (r : JsonRpc) (target : Target A) (a : A) (method : Bytes) (params : List Param)
      (resp : RpcResponse) (h : Answered r method params resp)
      → call_context r target a method params ≡ read_response target a h.body (ok resp)
  unfolding call_context
  call_context-Answered r target a method params resp h =
      let m = h.marshalled in
      let q = h.requested in let s = h.sent in let d = h.read in ground arith

  after_unmarshal_lem :
      (raw : Bytes) (p : Option GoError × A) (a : A)
      → after_unmarshal raw p ≡ (none, a)
      → p ≡ (none, a)
  after_unmarshal_lem raw (none, b) a h = h
  after_unmarshal_lem raw (some e, b) a h = absurd (some_is_none (ap (λ p. p.0) h))
    where
      some_is_none : {B : Type 0} {b : B} → some b ≡ none → ⊥
      some_is_none e = cc

  read_result-Leaves :
      (decode : Bytes → A → Option GoError × A) (a a' : A) (resp : RpcResponse)
      → resp.error ≡ none
      → read_result (decode_with decode) a resp.result ≡ (none, a')
      → Leaves decode a resp a'
  read_result-Leaves decode a a' resp fine h = elim (Bool-cases (is_absent resp.result)) [
    | inl absent ↦
        let kept : (none, a) ≡ (none, a') =
          subst
            (λ b.
              (if b then (none, a) else after_unmarshal resp.result (decode resp.result a))
              ≡ (none, a'))
            absent h in
        (fine, inl (absent, ap (λ p. p.1) (sym kept)))
    | inr there ↦ (
      fine,
      inr (
        there,
        after_unmarshal_lem resp.result _ a' (
            subst
              (λ b.
                (if b then (none, a) else after_unmarshal resp.result (decode resp.result a))
                ≡ (none, a'))
              there h),
      ),
    )
  ]

  not_failed : (e : GoError) (a a' : A) → ◌≡◌ {A = Option GoError × A} (some e, a) (none, a') → ⊥
  not_failed e a a' h = cc

  read_response-Leaves :
      (decode : Bytes → A → Option GoError × A) (a a' : A) (body : Bytes) (resp : RpcResponse)
      → read_response (decode_with decode) a body (ok resp) ≡ (none, a')
      → Leaves decode a resp a'
  read_response-Leaves decode a a' body resp h = elim (Option-cases resp.error) [
    | inl fine ↦ read_result-Leaves decode a a' resp fine (ground arith)
    | inr ((code, m), bad) ↦ absurd (not_failed (rpc_error code m) a a' (ground arith))
  ]

  -- A call succeeds exactly by a response without an error: one request was sent, its body was read
  -- as a response that has no error, and the result is what the decoder makes of the response's
  -- result, without an error of its own, or, where that is empty or null, what it was before the
  -- call.
  pub call_context_ok :
      (r : JsonRpc) (decode : Bytes → A → Option GoError × A) (a a' : A) (method : Bytes)
      (params : List Param)
      → (call_context r (decode_with decode) a method params ≡ (none, a'))
        ↔ ((resp : RpcResponse) × Answered r method params resp × Leaves decode a resp a')
  unfolding call_context
  call_context_ok r decode a a' method params = (forward, backward)
    where
      body_read :
          (buf body : Bytes)
          → r.client.marshal (request_of method params) ≡ ok buf
          → r.client.new_request r.url buf ≡ none
          → r.client.send r.url buf ≡ ok (ok body)
          → read_response (decode_with decode) a body (r.client.unmarshal body) ≡ (none, a')
          → (resp : RpcResponse) × Answered r method params resp × Leaves decode a resp a'
      body_read buf body m q s h = elim (Result-cases (r.client.unmarshal body)) [
        | inl (resp, d) ↦ (
          resp,
          record { buf = buf; body = body; marshalled = m; requested = q; sent = s; read = d },
          read_response-Leaves decode a a' body resp (ground arith),
        )
        | inr (e, d) ↦ absurd (
            not_failed _ a a'
              (subst (λ z. read_response (decode_with decode) a body z ≡ (none, a')) d h))
      ]

      forward :
          call_context r (decode_with decode) a method params ≡ (none, a')
          → (resp : RpcResponse) × Answered r method params resp × Leaves decode a resp a'
      forward h = elim (Result-cases (r.client.marshal (request_of method params))) [
        | inr (e, m) ↦ absurd (not_failed e a a' (ground arith))
        | inl (buf, m) ↦ elim (Option-cases (r.client.new_request r.url buf)) [
          | inr (e, q) ↦ absurd (not_failed e a a' (ground arith))
          | inl q ↦ elim (Result-cases (r.client.send r.url buf)) [
            | inr (e, s) ↦ absurd (not_failed e a a' (ground arith))
            | inl (ok body, s) ↦ body_read buf body m q s (ground arith)
            | inl (err e, s) ↦ absurd (not_failed e a a' (ground arith))
          ]
        ]
      ]

      backward :
          ((resp : RpcResponse) × Answered r method params resp × Leaves decode a resp a')
          → call_context r (decode_with decode) a method params ≡ (none, a')
      backward (resp, answered, (fine, inl (absent, kept))) =
          call_context-Answered r (decode_with decode) a method params resp answered ∙ ground arith
      backward (resp, answered, (fine, inr (there, decoded))) =
          call_context-Answered r (decode_with decode) a method params resp answered ∙ ground arith
