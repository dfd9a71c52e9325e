-- ===== src/Runner/Calls/Request/Panics.antt =====
-- runner/worker.go, `makeRequest`: when it panics.
use ghz.Prelude.{
  ℕ, zero, suc, refl, ltb, [], ◌∷◌, ◌≡◌, Bool, true, false, not, ◌&&◌, ◌||◌, List, Option, arith,
  ◌==◌, length,
}
use ghz.Runner.Config.{RunConfig, Result, ok}
use ghz.Runner.Messages.{DynamicProvider, new_static, get_static}
use ghz.Runner.Calls.Request.{
  Request, Method, MessageSource, source_panics, choose_source, is_none, dispatch, nil_metadata,
  make_request,
}

abbrev pub request_panics : {H M : Type 0} → Request H M → Bool
request_panics (Request.failed e) = false
request_panics Request.no_input = false
request_panics Request.panic = true
request_panics Request.no_stream = false
request_panics (Request.unary m) = false
request_panics (Request.client_stream s) = false
request_panics (Request.server_stream m) = false
request_panics (Request.bidi s) = false

-- There is a message provider although the method's client side does not stream.
abbrev pub has_source : {H F : Type 0} → RunConfig H F → Method → Option H → Bool
has_source c mtd f = not (is_none c.data_stream_func) || (mtd.server_streaming && not (is_none f))

-- The stream's messages come from the static provider.
abbrev pub is_static : {H F : Type 0} → RunConfig H F → Option H → Bool
is_static c f = is_none c.data_stream_func && (is_none f && not c.stream_dynamic_messages)

module _ (H : Type 0) {M : Type 0} where
  -- A new static provider panics at its first message if it has none and there is a `StreamCallCount`.
  source_panics-new_static :
      (n : ℕ) (ms : List M)
      → source_panics {H = H} (MessageSource.static (new_static n ms))
        ≡ (ltb 0 n && (length ms == 0))
  unfolding source_panics get_static new_static
  source_panics-new_static zero [] = refl
  source_panics-new_static (suc n) [] = ground arith
  source_panics-new_static zero (m ∷ ms) = ground arith
  source_panics-new_static (suc n) (m ∷ ms) = ground arith

module _ {H F M : Type 0} (reaches : Bool) (c : RunConfig H F) (mtd : Method) (f : Option H) where
  -- Once metadata and data have been provided, up to and with the first message of a stream `makeRequest`
  -- panics in exactly three cases: compression is on and the metadata is nil; or the method's client side does
  -- not stream, there are no messages, and there is a provider of messages nevertheless (`dataStreamFunc`, or
  -- an interceptor where the server streams); or the client side streams from the static provider, which has
  -- no message but a `StreamCallCount`, and the stream comes to its first message. The caller's own functions
  -- do not panic.
  pub make_request-panics :
      (md : Option H) (ms : List M) (mp : Result H DynamicProvider)
      → request_panics (make_request reaches c mtd f (ok md) (ok ms) mp) ≡ (
          nil_metadata c md
          || ((not mtd.client_streaming && ((length ms == 0) && has_source c mtd f))
              || ((mtd.client_streaming && reaches)
                  && ((length ms == 0) && (is_static c f && ltb 0 c.stream_call_count)))))
  unfolding make_request choose_source dispatch
  make_request-panics md ms mp = ground (arith, source_panics-new_static H c.stream_call_count ms)
