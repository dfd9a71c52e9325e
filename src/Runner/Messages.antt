-- ===== src/Runner/Messages.antt =====
-- runner/data.go, `staticMessageProvider` and `dynamicMessageProvider`: the messages of a client stream.
-- `M` is the type of messages. A call returns the provider after it. Counters do not wrap: they are
-- bounded by the number of calls.
pub mod Static
pub mod Dynamic
use ghz.Prelude.{
  ℕ, ◌+◌, ◌-◌, Bool, true, false, List, [], ◌∷◌, Option, none, some, ltb, leb, ◌==◌, if◌then◌else◌,
  length, get_elem?,
}
use ghz.Prelude.Text.{Str}

-- What `GetStreamMessage` returns: a message, which is the last one if the error is `ErrLastMessage`;
-- `ErrEndStream`; another error; or the panic of an index out of range.
pub data Sent (M : Type 0) : Type 0 where
  message : M → Bool → Sent M
  end_stream : Sent M
  failed : Sent M
  panic : Sent M

pub record StaticProvider (M : Type 0) : Type 0 where
  pub inputs : List M
  pub stream_call_count : ℕ
  pub counter : ℕ
  pub index_counter : ℕ

module _ {M : Type 0} where
  unfoldable pub new_static : ℕ → List M → StaticProvider M
  new_static count inputs = record {
    inputs = inputs;
    stream_call_count = count;
    counter = 0;
    index_counter = 0;
  }

  -- The index that the next message has.
  abbrev pub static_index : StaticProvider M → ℕ
  static_index m =
      if ltb 0 m.stream_call_count
      then if m.index_counter == length m.inputs then 0 else m.index_counter
      else m.index_counter

  abbrev pub static_ended : StaticProvider M → Bool
  static_ended m =
      if ltb 0 m.stream_call_count
      then leb m.stream_call_count m.counter
      else leb (length m.inputs) m.counter

  abbrev pub static_last : StaticProvider M → Bool
  static_last m =
      if ltb 0 m.stream_call_count
      then m.counter == (m.stream_call_count - 1)
      else m.counter == (length m.inputs - 1)

  unfoldable pub get_static : StaticProvider M → Sent M × StaticProvider M
  get_static m =
      if static_ended m then (end_stream, m) else elim (get_elem? m.inputs (static_index m)) [
        | none ↦ (panic, record m { index_counter = static_index m })
        | some payload ↦ (
          message payload (static_last m),
          record m { counter = m.counter + 1; index_counter = static_index m + 1 },
        )
      ]

-- `array` is `arrayJSONData`, and its length `arrayLen`.
pub record DynamicProvider : Type 0 where
  pub template : Str
  pub array : List Str
  pub stream_call_count : ℕ
  pub counter : ℕ
  pub index_counter : ℕ

-- The template that the next message is made from; `none` is an index out of range.
abbrev pub dynamic_index : DynamicProvider → ℕ
dynamic_index m = if leb (length m.array) m.counter then 0 else m.index_counter

abbrev pub dynamic_template : DynamicProvider → Option Str
dynamic_template m =
    if ltb 0 (length m.array) then get_elem? m.array (dynamic_index m) else some m.template

abbrev pub dynamic_ended : DynamicProvider → Bool
dynamic_ended m =
    if ltb 0 m.stream_call_count
    then leb m.stream_call_count m.counter
    else leb (length m.array) m.counter

abbrev pub dynamic_last : DynamicProvider → Bool
dynamic_last m =
    if ltb 0 m.stream_call_count
    then m.counter == (m.stream_call_count - 1)
    else m.counter == (length m.array - 1)

-- `make` executes a template with new call data and parses the message; `none` is an error of either.
unfoldable pub get_dynamic :
    {M : Type 0} → (Str → Option M) → DynamicProvider → Sent M × DynamicProvider
get_dynamic make m =
    let m' = record m { index_counter = dynamic_index m } in
    if dynamic_ended m then (end_stream, m) else elim (dynamic_template m) [
      | none ↦ (panic, m')
      | some text ↦ elim (make text) [
        | none ↦ (failed, m')
        | some msg ↦ (
          message msg (dynamic_last m),
          record m { counter = m.counter + 1; index_counter = dynamic_index m + 1 },
        )
      ]
    ]
