-- ===== src/Runner/Calls/Unary.antt =====
-- runner/worker.go, `makeUnaryRequest` and `marshalPayload`: the call, and the sample of its payloads. `R` is
-- a reply; what the connection, the clocks and the marshalling answer is a parameter.
use ghz.Prelude.{Bool, ◌&&◌, [], Option, none, some, if◌then◌else◌}
use ghz.Prelude.Int.{ℤ}
use ghz.Prelude.Float.{Float64}
use ghz.Prelude.Text.{Str, codes}
use ghz.Runner.Config.{RunConfig}
use ghz.Runner.Reporter.{SampledResult}

-- What a unary call sees: the number drawn, the reply, the error with its text and its status (none where
-- it is no status), how long it took and when it began.
pub record UnaryReply (F R : Type 0) : Type 0 where
  pub drawn : F
  pub reply : Option R
  pub error : Option Str
  pub status : Option Str
  pub took : ℤ
  pub began : ℤ

-- A message as JSON, empty where there is none or it does not marshal.
abbrev pub json_of : {R : Type 0} → (R → Option Str) → Option R → Str
json_of marshal none = []
json_of marshal (some m) = elim (marshal m) [ none ↦ [] | some text ↦ text ]

-- `marshalPayload`; `none` is nil.
unfoldable pub marshal_payload : {R : Type 0} → (R → Option Str) → Option R → Option Str
marshal_payload marshal none = none
marshal_payload marshal (some m) = marshal m

abbrev pub status_code : Option Str → Option Str → Str
status_code none status = codes "OK"
status_code (some e) none = codes "OK"
status_code (some e) (some code) = code

unfoldable pub should_capture : {H F R : Type 0} → Float64 F → RunConfig H F → UnaryReply F R → Bool
should_capture f c r =
    f.lt (f.of_uint64 0) c.data_sampling_rate && f.lt r.drawn c.data_sampling_rate

abbrev pub sample_of :
    {F M R : Type 0} → (M → Option Str) → (R → Option Str) → M → UnaryReply F R → SampledResult
sample_of marshal_request marshal_reply input r = record {
  error = r.error;
  status = status_code r.error r.status;
  duration = r.took;
  timestamp = r.began;
  request_payload = json_of marshal_request (some input);
  response_payload = json_of marshal_reply r.reply;
}

module _ {H F M R : Type 0} (f : Float64 F) (marshal_request : M → Option Str)
    (marshal_reply : R → Option Str) where
  -- The error returned, and the sampled result sent to the reporter.
  unfoldable pub make_unary_request :
      RunConfig H F → M → UnaryReply F R → Option Str × Option SampledResult
  unfolding should_capture
  make_unary_request c input r = (
    r.error,
    if should_capture f c r then some (sample_of marshal_request marshal_reply input r) else none,
  )
