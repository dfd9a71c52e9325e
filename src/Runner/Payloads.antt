-- ===== src/Runner/Payloads.antt =====
-- runner/data.go: how messages are made from JSON and from binary data; runner/calldata.go: whether a
-- template has actions, and its execution. JSON, protocol buffers and templates are libraries' work.
pub mod Delimited
use ghz.Prelude.{
  ℕ, zero, suc, ◌+◌, Bool, true, false, List, [], ◌∷◌, Option, none, some, ◌==◌, ◌||◌,
  if◌then◌else◌, length,
}
use ghz.Prelude.Text.{Str, is_empty}
use ghz.Runner.Config.{Error, Result, ok, err, ◌>>=◌}

-- What a decoder of one message with its length in front of it returns: `io.ErrUnexpectedEOF` at the end.
pub data Decoded (H M : Type 0) : Type 0 where
  decoded : M → Str → Decoded H M
  at_end : Decoded H M
  undecodable : Error H → Decoded H M

-- `json.Unmarshal` into a list of objects and `json.Marshal` of one, `jsonpb.UnmarshalString` and
-- `proto.Unmarshal` into a message of the method's input type, and `Buffer.DecodeMessage`.
pub record Codec (H O M : Type 0) : Type 0 where
  pub parse_array : Str → Result H (List O)
  pub marshal_object : O → Result H Str
  pub parse_message : Str → Result H M
  pub unmarshal : Str → Result H M
  pub decode_message : Str → Decoded H M

-- `for i, d := range xs`, with the first error.
unfoldable pub traverse : {H A B : Type 0} → (A → Result H B) → List A → Result H (List B)
traverse f [] = ok []
traverse f (x ∷ xs) = f x >>= λ y. traverse f xs >>= λ ys. ok (y ∷ ys)

-- strings.IndexRune(data, '[') == 0
abbrev pub is_array : Str → Bool
is_array [] = false
is_array (c ∷ s) = c == 91

module _ {H O M : Type 0} (codec : Codec H O M) where
  open codec use {parse_array, marshal_object, parse_message, unmarshal, decode_message}

  abbrev pub message_from_map : O → Result H M
  message_from_map object = marshal_object object >>= parse_message

  unfoldable pub create_payloads_from_json : Str → Result H (List M)
  create_payloads_from_json text =
      if is_empty text
      then ok []
      else if is_array text
      then parse_array text >>= traverse message_from_map
      else parse_message text >>= λ m. ok (m ∷ [])

  unfoldable pub create_payloads_from_bin_single_message : Str → Result H (List M)
  create_payloads_from_bin_single_message bytes =
      if is_empty bytes then ok [] else unmarshal bytes >>= λ m. ok (m ∷ [])

  -- The loop over the buffer. `none`: the fuel ran out.
  unfoldable pub decode_all : ℕ → Str → Option (Result H (List M))
  decode_all zero bytes = none
  decode_all (suc fuel) bytes = elim (decode_message bytes) [
    | at_end ↦ some (ok [])
    | undecodable e ↦ some (err e)
    | decoded m rest ↦ elim (decode_all fuel rest) [
      | none ↦ none
      | some result ↦ some (result >>= λ ms. ok (m ∷ ms))
    ]
  ]

  unfoldable pub create_payloads_from_bin_count_delimited : Str → Option (Result H (List M))
  create_payloads_from_bin_count_delimited bytes =
      if is_empty bytes then some (ok []) else decode_all (suc (length bytes)) bytes

  unfoldable pub create_payloads_from_bin : Str → Option (Result H (List M))
  create_payloads_from_bin bytes = elim (create_payloads_from_bin_count_delimited bytes) [
    | none ↦ none
    | some result ↦ elim result [
      | err e ↦ some (create_payloads_from_bin_single_message bytes)
      | ok ms ↦ elim ms [
        | [] ↦ some (create_payloads_from_bin_single_message bytes)
        | m ∷ rest ↦ some (ok (m ∷ rest))
      ]
    ]
  ]

-- A node of a parsed template: an action, a list of nodes, or one of another type (`if`, `range`, text, …).
mutual
  pub data Node : Type 0 where
    action : Node
    list : Nodes → Node
    other : Node

  pub data Nodes : Type 0 where
    nil : Nodes
    cons : Node → Nodes → Nodes

unfoldable mutual
  pub node_has_action : Node → Bool
  node_has_action action = true
  node_has_action (list ns) = nodes_have_action ns
  node_has_action other = false

  pub nodes_have_action : Nodes → Bool
  nodes_have_action nil = false
  nodes_have_action (cons n ns) = node_has_action n || nodes_have_action ns

-- `CallData.hasAction`; `parse` is none where the call data has no template.
unfoldable pub has_action : {H : Type 0} → Option (Str → Result H Node) → Str → Result H Bool
unfolding node_has_action
has_action none text = ok false
has_action (some parse) text = parse text >>= λ root. ok (node_has_action root)

-- `CallData.ExecuteData`; `run` parses and executes a template with the call's data.
unfoldable pub execute_data : {H : Type 0} → Option (Str → Result H Str) → Str → Result H Str
execute_data none text = ok text
execute_data (some run) text = if is_empty text then ok [] else run text
