-- ===== src/Runner/Provider.antt =====
-- runner/data.go: the data provider with its cache of messages, the metadata provider, and
-- newDynamicMessageProvider. A cached `nil` message is `none`, and no cache is the empty list: the code
-- tells these apart nowhere. The mutex is left out: a call is one step.
pub mod Cache
use ghz.Prelude.{
  ℕ, ◌+◌, ◌%◌, Bool, true, false, not, List, [], ◌∷◌, ◌++◌, Option, none, some, ltb, ◌==◌, ◌&&◌,
  if◌then◌else◌, length, get_elem?, set, map, replicate,
}
use ghz.Prelude.Text.{Str, is_empty}
use ghz.Runner.Config.{Error, Result, ok, err, ◌>>=◌}
use ghz.Runner.Messages.{DynamicProvider}
use ghz.Runner.Payloads.{
  Codec, traverse, is_array, create_payloads_from_json, create_payloads_from_bin, Node, has_action,
  execute_data,
}

-- The data provider of a method; `data_func` is the caller's function of the call.
pub record DataProvider (M : Type 0) : Type 0 where
  pub binary : Bool
  pub payload : Str
  pub client_streaming : Bool
  pub data_func : Option (ℕ → Str)
  pub array : List Str
  pub has_actions : Bool
  pub cached : List (Option M)

-- What a call of the provider gives: messages and the provider after it, an error, or the panic of an
-- index out of range. `out_of_fuel` is left by no input that `Payloads.Delimited` is about.
pub data Fetched (H M : Type 0) : Type 0 where
  fetched : List (Option M) → DataProvider M → Fetched H M
  failed : Error H → Fetched H M
  panic : Fetched H M
  out_of_fuel : Fetched H M

-- `i` is -1 for the whole data, and an index of the array else.
abbrev pub hit : {M : Type 0} → Option ℕ → List (Option M) → Bool
hit i [] = false
hit none (none ∷ cache) = false
hit none (some m ∷ cache) = true
hit (some i) (m ∷ cache) = elim (get_elem? (m ∷ cache) i) [
  | none ↦ false
  | some entry ↦ elim entry [ none ↦ false | some _ ↦ true ]
]

-- The elements of data that is an array, as texts.
abbrev pub array_of : {H O M : Type 0} → Codec H O M → Str → Result H (List Str)
array_of codec text =
    if is_array text then codec.parse_array text >>= traverse codec.marshal_object else ok []

module _ {H O M : Type 0} (codec : Codec H O M) (template : Option (ℕ → Str → Result H Str)) where
  -- A message is kept at its index, or behind the cache; `inputs[0]` may be out of range.
  unfoldable pub remember : Option ℕ → List M → DataProvider M → Fetched H M
  remember none inputs dp = fetched (map some inputs) (record dp { cached = map some inputs })
  remember (some i) inputs dp =
      if ltb i (length dp.cached)
      then elim inputs [
        | [] ↦ panic
        | m ∷ ms ↦ fetched (map some (m ∷ ms)) (record dp { cached = set dp.cached i (some m) })
      ]
      else fetched (map some inputs) (record dp { cached = dp.cached ++ map some inputs })

  -- The template of the call data, at the call's request number.
  abbrev pub at_call : ℕ → Option (Str → Result H Str)
  at_call number = elim template [ none ↦ none | some run ↦ some (run number) ]

  abbrev pub fetched_json : Option ℕ → DataProvider M → Result H (List M) → Fetched H M
  fetched_json i dp (err e) = failed e
  fetched_json i dp (ok inputs) =
      if dp.has_actions then fetched (map some inputs) dp else remember i inputs dp

  unfoldable pub get_json : ℕ → Option ℕ → Str → DataProvider M → Fetched H M
  unfolding remember
  get_json number i text dp = fetched_json i dp (
      (if dp.has_actions then execute_data (at_call number) text else ok text)
      >>= create_payloads_from_json codec)

  abbrev pub fetched_binary : DataProvider M → Option (Result H (List M)) → Fetched H M
  fetched_binary dp none = out_of_fuel
  fetched_binary dp (some (err e)) = failed e
  fetched_binary dp (some (ok inputs)) = elim dp.data_func [
    | some f ↦ fetched (map some inputs) dp
    | none ↦ fetched (map some inputs) (record dp { cached = map some inputs })
  ]

  unfoldable pub get_binary : ℕ → Str → DataProvider M → Fetched H M
  get_binary number bytes dp = elim dp.data_func [
    | some f ↦ fetched_binary dp (create_payloads_from_bin codec (f number))
    | none ↦ fetched_binary dp (create_payloads_from_bin codec bytes)
  ]

  unfoldable pub get_messages : ℕ → Option ℕ → Str → DataProvider M → Fetched H M
  unfolding get_json get_binary
  get_messages number i text dp =
      if hit i dp.cached
      then fetched dp.cached dp
      else if dp.binary
      then get_binary number text dp
      else get_json number i text dp

  -- For a method that takes one message, the one whose turn it is.
  unfoldable pub pick : ℕ → Fetched H M → Fetched H M
  pick number (fetched inputs dp) =
      if not dp.client_streaming && ltb 0 (length inputs)
      then elim (get_elem? inputs (number % length inputs)) [
        | none ↦ panic
        | some m ↦ fetched (m ∷ []) dp
      ]
      else fetched inputs dp
  pick number (failed e) = failed e
  pick number panic = panic
  pick number out_of_fuel = out_of_fuel

  -- `getDataForCall`; `number` is the request's number, below 2 ^ 63.
  unfoldable pub get_data_for_call : ℕ → DataProvider M → Fetched H M
  unfolding get_messages pick
  get_data_for_call number dp =
      let indx = number % length dp.array in
      pick number (
        if not dp.binary && (not dp.client_streaming && ltb 0 (length dp.array))
        then elim (get_elem? dp.array indx) [
          | none ↦ panic
          | some text ↦ get_messages number (some indx) text dp
        ]
        else get_messages number none dp.payload dp)

  -- `newDataProvider`: where the data has no actions it is fetched once, for request 0. The answer is that
  -- of this call, or else no messages, with the provider. `parse` is none where templates are disabled.
  unfoldable pub new_data_provider :
      Option (Str → Result H Node) → Bool → Bool → Option (ℕ → Str) → Str → Fetched H M
  unfolding get_data_for_call
  new_data_provider parse streaming binary data_func text =
      let start : List Str → Bool → DataProvider M = λ array actions. record {
        binary = binary;
        payload = text;
        client_streaming = streaming;
        data_func = data_func;
        array = array;
        has_actions = actions;
        cached = if actions then [] else replicate (length array) none;
      } in
      let setup : Result H (DataProvider M) =
        (if binary then ok [] else array_of codec text) >>= λ array.
        (if binary then ok false else has_action parse text) >>= λ actions.
        ok (start array actions) in
      elim setup [
        | err e ↦ failed e
        | ok dp ↦ if dp.has_actions then fetched [] dp else get_data_for_call 0 dp
      ]

-- `newDynamicMessageProvider`; `none` in place of an error of the code's own.
abbrev pub dynamic_provider : ℕ → Str → Bool → List Str → Option DynamicProvider
dynamic_provider count text actions array =
    if actions
    then some (record {
      template = text;
      array = array;
      stream_call_count = count;
      counter = 0;
      index_counter = 0;
    })
    else none

unfoldable pub new_dynamic :
    {H O M : Type 0}
    → Codec H O M
    → Option (Str → Result H Node)
    → ℕ
    → Str
    → Result H (Option DynamicProvider)
new_dynamic codec parse count text = array_of codec text >>= λ array.
    has_action parse text >>= λ actions. ok (dynamic_provider count text actions array)

-- The metadata provider; a map is an association list.
pub record MdProvider : Type 0 where
  pub metadata : Str
  pub preseed : Option (List (Str × Str))

-- `json.Unmarshal` into a map, and the decoding of a value whose key ends in "-bin" (any other is kept).
pub record MdCodec (H : Type 0) : Type 0 where
  pub parse_map : Str → Result H (List (Str × Str))
  pub decode_entry : Str × Str → Result H (Str × Str)

module _ {H : Type 0} (codec : MdCodec H) where
  abbrev pub or_text : Str → Result H Str → Str
  or_text text (ok done) = done
  or_text text (err e) = text

  -- `executeMetadata`; a template that fails is taken as it stands.
  unfoldable pub execute_metadata : Option (Str → Result H Str) → Str → Result H (List (Str × Str))
  execute_metadata template text =
      let input : Str = elim template [ none ↦ text | some run ↦ or_text text (run text) ] in
      if is_empty text then ok [] else codec.parse_map input >>= traverse codec.decode_entry

  abbrev pub seed : List (Str × Str) → Option (List (Str × Str))
  seed [] = none
  seed (e ∷ es) = some (e ∷ es)

  unfoldable pub new_metadata_provider :
      Option (Str → Result H Node) → Option (Str → Result H Str) → Str → Result H MdProvider
  unfolding execute_metadata
  new_metadata_provider parse template text = has_action parse text >>= λ actions.
      if actions
      then ok (record { metadata = text; preseed = none })
      else execute_metadata template text >>= λ md.
          ok (record { metadata = text; preseed = seed md })

  unfoldable pub get_metadata_for_call :
      Option (Str → Result H Str) → MdProvider → Result H (List (Str × Str))
  unfolding execute_metadata
  get_metadata_for_call template dp = elim dp.preseed [
    | some md ↦ ok md
    | none ↦ execute_metadata template dp.metadata
  ]
