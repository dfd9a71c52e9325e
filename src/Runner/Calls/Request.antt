-- ===== src/Runner/Calls/Request.antt =====
-- runner/worker.go, `makeRequest`: which call of gRPC a request makes, and `runWorker`.
-- `H` stands for the callers' own functions, `md` for what the metadata provider returns (`none` is nil),
-- `inputs` for the messages of the data provider. Contexts and time limits are not modelled.
pub mod Panics
use ghz.Prelude.{
  ℕ, Bool, true, false, not, ◌&&◌, ◌||◌, List, [], ◌∷◌, ◌++◌, Option, none, some, ltb, ◌==◌,
  if◌then◌else◌, length,
}
use ghz.Prelude.Int.{ℤ, pos}
use ghz.Prelude.Text.{Str, codes}
use ghz.Runner.Config.{RunConfig, Error, Result, ok, err}
use ghz.Runner.Messages.{Sent, get_static, StaticProvider, new_static, DynamicProvider}

-- The provider of a stream's messages: `dataStreamFunc`, the interceptor's `Send`, or one of the two here.
pub data MessageSource (H M : Type 0) : Type 0 where
  custom : H → MessageSource H M
  interceptor : H → MessageSource H M
  dynamic : DynamicProvider → MessageSource H M
  static : StaticProvider M → MessageSource H M

-- What `makeRequest` does: it returns an error, panics before or at its first message, or makes one of the
-- four calls; `no_stream` is a stream that sends and that does not come to its first message.
pub data Request (H M : Type 0) : Type 0 where
  failed : Error H → Request H M
  no_input : Request H M
  panic : Request H M
  no_stream : Request H M
  unary : M → Request H M
  client_stream : MessageSource H M → Request H M
  server_stream : M → Request H M
  bidi : MessageSource H M → Request H M

-- Which sides of the method stream.
pub record Method : Type 0 where
  pub client_streaming : Bool
  pub server_streaming : Bool

-- The interceptor of a streaming method.
abbrev pub stream_interceptor : {H : Type 0} → Method → Option H → Option H
stream_interceptor mtd f = if mtd.client_streaming || mtd.server_streaming then f else none

abbrev pub is_none : {A : Type 0} → Option A → Bool
is_none none = true
is_none (some a) = false

-- Whether the first call of the provider panics; the caller's own are taken not to. A new dynamic provider
-- has its template or the first element of its array.
abbrev pub first_panics : {M : Type 0} → Sent M → Bool
first_panics (Sent.message m last) = false
first_panics Sent.end_stream = false
first_panics Sent.failed = false
first_panics Sent.panic = true

module _ {H M : Type 0} where
  -- `inputs[0]`.
  abbrev pub with_first : List M → (M → Request H M) → Request H M
  with_first [] k = panic
  with_first (m ∷ ms) k = k m

  unfoldable pub source_panics : MessageSource H M → Bool
  unfolding get_static
  source_panics (MessageSource.custom f) = false
  source_panics (MessageSource.interceptor i) = false
  source_panics (MessageSource.dynamic p) = false
  source_panics (MessageSource.static p) = first_panics (get_static p).0

  -- The call of a stream that sends; `reaches` says that the stream opens and that its loop comes to the first
  -- message, which it takes from the provider.
  abbrev pub with_source :
      Bool → Option (MessageSource H M) → (MessageSource H M → Request H M) → Request H M
  with_source reaches none k = if reaches then panic else no_stream
  with_source reaches (some s) k =
      if reaches then (if source_panics s then panic else k s) else no_stream

  -- The call that the method wants.
  unfoldable pub dispatch : Bool → Method → List M → Option (MessageSource H M) → Request H M
  unfolding source_panics
  dispatch reaches mtd inputs source =
      if (length inputs == 0) && is_none source
      then no_input
      else if mtd.client_streaming && mtd.server_streaming
      then with_source reaches source bidi
      else if mtd.client_streaming
      then with_source reaches source client_stream
      else if mtd.server_streaming
      then with_first inputs server_stream
      else with_first inputs unary

  abbrev pub dispatched :
      Bool → Method → List M → Result H (Option (MessageSource H M)) → Request H M
  dispatched reaches mtd inputs (err e) = failed e
  dispatched reaches mtd inputs (ok source) = dispatch reaches mtd inputs source

-- `reqMD.Set` where there is no metadata.
abbrev pub nil_metadata : {H F : Type 0} → RunConfig H F → Option H → Bool
nil_metadata c md = c.enable_compression && is_none md

module _ {H F M : Type 0} where
  -- `dynamic_provider` is what `newDynamicMessageProvider` returns.
  unfoldable pub choose_source :
      RunConfig H F
      → Method
      → Option H
      → Result H DynamicProvider
      → List M
      → Result H (Option (MessageSource H M))
  choose_source c mtd intercept dynamic_provider inputs = elim c.data_stream_func [
    | some f ↦ ok (some (MessageSource.custom f))
    | none ↦ elim intercept [
      | some i ↦ ok (some (MessageSource.interceptor i))
      | none ↦
          if mtd.client_streaming
          then (if c.stream_dynamic_messages
              then elim dynamic_provider [
                | err e ↦ err e
                | ok mp ↦ ok (some (MessageSource.dynamic mp))
              ]
              else ok (some (MessageSource.static (new_static c.stream_call_count inputs))))
          else ok none
    ]
  ]

  unfoldable pub make_request :
      Bool
      → RunConfig H F
      → Method
      → Option H
      → Result H (Option H)
      → Result H (List M)
      → Result H DynamicProvider
      → Request H M
  unfolding choose_source dispatch
  make_request reaches c mtd f md inputs dynamic_provider = elim md [
    | err e ↦ failed e
    | ok reqmd ↦ if nil_metadata c reqmd then panic else elim inputs [
      | err e ↦ failed e
      | ok ms ↦
          dispatched reaches mtd ms
            (choose_source c mtd (stream_interceptor mtd f) dynamic_provider ms)
    ]
  ]

-- One turn of `runWorker`: the stop signal, or a tick with what its request returns.
pub data Turn (H : Type 0) : Type 0 where
  stop : Turn H
  on_tick : ℕ → Result H (Unit {0}) → Turn H

-- The numbers of the requests made, and the errors returned. An asynchronous worker waits for all its
-- requests at the end and returns the first error; `errors` are in the order in which they come.
pub record Worked (H : Type 0) : Type 0 where
  pub requests : List ℕ
  pub errors : List (Error H)
  pub stopped : Bool

abbrev pub error_of : {H : Type 0} → Result H (Unit {0}) → List (Error H)
error_of (ok u) = []
error_of (err e) = e ∷ []

abbrev pub first : {H : Type 0} → List (Error H) → List (Error H)
first [] = []
first (e ∷ es) = e ∷ []

unfoldable pub work : {H : Type 0} → List (Turn H) → Worked H
work [] = record { requests = []; errors = []; stopped = false }
work (stop ∷ turns) = record { requests = []; errors = []; stopped = true }
work (on_tick n result ∷ turns) =
    let rest = work turns in
    record rest { requests = n ∷ rest.requests; errors = error_of result ++ rest.errors }

unfoldable pub run_worker : {H : Type 0} → Bool → List (Turn H) → Worked H
unfolding work
run_worker async turns =
    let done = work turns in if async then record done { errors = first done.errors } else done
