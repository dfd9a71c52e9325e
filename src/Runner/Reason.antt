-- ===== src/Runner/Reason.antt =====
-- runner/reason.go, `StopReason`: its text and its JSON.
use ghz.Prelude.{ℕ, ◌≡◌, refl, inl, inr, ◌==◌, [], ◌∷◌, ◌++◌, Bool-cases, if◌then◌else◌}
use mathlib.Core.List.{reverse}
use ghz.Prelude.Text.{Str, codes, str_eq, to_lower}

abbrev pub reason_normal_end : Str
reason_normal_end = codes "normal"

abbrev pub reason_cancel : Str
reason_cancel = codes "cancel"

abbrev pub reason_timeout : Str
reason_timeout = codes "timeout"

-- A reason is a text, and any text can be one.
unfoldable pub reason_string : Str → Str
reason_string s =
    if str_eq s reason_cancel
    then codes "cancel"
    else if str_eq s reason_timeout
    then codes "timeout"
    else codes "normal"

unfoldable pub reason_from_string : Str → Str
reason_from_string str =
    let lowered = to_lower str in
    if str_eq lowered (codes "timeout")
    then reason_timeout
    else if str_eq lowered (codes "cancel")
    then reason_cancel
    else reason_normal_end

abbrev pub quote : ℕ
quote = 34

-- `strings.TrimLeft` and `strings.TrimRight` of quotes.
unfoldable pub trim_left_quotes : Str → Str
trim_left_quotes [] = []
trim_left_quotes (c ∷ s) = if c == quote then trim_left_quotes s else c ∷ s

unfoldable pub trim_right_quotes : Str → Str
unfolding trim_left_quotes
trim_right_quotes s = reverse (trim_left_quotes (reverse s))

unfoldable pub unmarshal_json : Str → Str
unmarshal_json b = reason_from_string (trim_right_quotes (trim_left_quotes b))

unfoldable pub marshal_json : Str → Str
marshal_json s = quote ∷ reason_string s ++ quote ∷ []

-- A reason read back from its JSON is the reason that its text names, whatever the reason is: the three
-- reasons come back as they are, and any other is a normal end.
unmarshal_json-marshal_json : (s : Str) → unmarshal_json (marshal_json s) ≡ reason_string s
unfolding unmarshal_json marshal_json reason_string reason_from_string trim_right_quotes
    trim_left_quotes str_eq to_lower
unmarshal_json-marshal_json s = elim (Bool-cases (str_eq s reason_cancel)) [
  | inl e ↦ rw e refl
  | inr o ↦ elim (Bool-cases (str_eq s reason_timeout)) [
    | inl e ↦ rw (o, e) refl
    | inr p ↦ rw (o, p) refl
  ]
]
