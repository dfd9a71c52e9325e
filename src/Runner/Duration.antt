-- ===== src/Runner/Duration.antt =====
-- runner/config.go, `Duration`: its text and its JSON. `time.ParseDuration` and `time.Duration.String` are
-- parameters.
use ghz.Prelude.{
  ℕ, suc, ◌≡◌, refl, ap, ◌∙◌, ◌&&◌, [], ◌∷◌, ◌++◌, Option, none, some, ◌==◌, if◌then◌else◌, length,
  length-append, take, arith,
}
use ghz.Prelude.Int.{ℤ}
use ghz.Prelude.Text.{Str}

-- A duration, an error of the parser, or the panic of an index or a slice out of range.
pub data Unmarshalled : Type 0 where
  duration : ℤ → Unmarshalled
  bad_duration : Unmarshalled
  out_of_range : Unmarshalled

abbrev pub double_quote : ℕ
double_quote = 34

abbrev pub last_or : ℕ → Str → ℕ
last_or c [] = c
last_or c (d ∷ s) = last_or d s

module _ (parse : Str → Option ℤ) (text_of : ℤ → Str) where
  -- `UnmarshalText`.
  abbrev pub unmarshal_text : Str → Unmarshalled
  unmarshal_text s = elim (parse s) [ none ↦ bad_duration | some d ↦ duration d ]

  -- `text[1 : len(text)-1]` of a text that begins and ends with a quote.
  abbrev pub unquoted : Str → Unmarshalled
  unquoted [] = out_of_range
  unquoted (c ∷ []) = out_of_range
  unquoted (c ∷ d ∷ s) = unmarshal_text (take (length s) (d ∷ s))

  -- `UnmarshalJSON`.
  unfoldable pub unmarshal_duration : Str → Unmarshalled
  unmarshal_duration [] = out_of_range
  unmarshal_duration (c ∷ s) =
      if (c == double_quote) && (last_or c s == double_quote)
      then unquoted (c ∷ s)
      else unmarshal_text (c ∷ s)

  -- `MarshalJSON`.
  unfoldable pub marshal_duration : ℤ → Str
  marshal_duration d = double_quote ∷ text_of d ++ double_quote ∷ []

  last_or-append : (c d : ℕ) (s : Str) → last_or c (s ++ d ∷ []) ≡ d
  last_or-append c d [] = refl
  last_or-append c d (e ∷ s) = last_or-append e d s

  take-append : (s : Str) (d : ℕ) → take (length s) (s ++ d ∷ []) ≡ s
  take-append [] d = refl
  take-append (c ∷ s) d = ap (λ t. c ∷ t) (take-append s d)

  quoted_lem : (s : Str) → unquoted (double_quote ∷ s ++ double_quote ∷ []) ≡ unmarshal_text s
  quoted_lem [] = refl
  quoted_lem (c ∷ s) =
      let size : length (s ++ double_quote ∷ []) ≡ suc (length s) =
        length-append s (double_quote ∷ []) ∙ omega arith in
      rw size (ap (λ t. unmarshal_text (c ∷ t)) (take-append s double_quote))

  -- A duration that is written as JSON is read back, given a parser that reads the text of a duration.
  unmarshal_duration-marshal_duration :
      (d : ℤ) → parse (text_of d) ≡ some d → unmarshal_duration (marshal_duration d) ≡ duration d
  unfolding unmarshal_duration marshal_duration
  unmarshal_duration-marshal_duration d h = rw (
    last_or-append double_quote double_quote (text_of d),
    quoted_lem (text_of d),
    unmarshal_text,
    h,
  )
