-- ===== src/Printer/Influx/Escape.antt =====
-- printer/influx.go, `cleanInfluxString`: one pass does the same, and what is cleaned can be read back.
use ghz.Prelude.{
  ℕ, ◌≡◌, refl, inl, inr, Bool-cases, ap, ◌∙◌, Bool, ◌&&◌, ◌||◌, [], ◌∷◌, ◌++◌, ◌==◌, if◌then◌else◌,
  arith,
}
use ghz.Prelude.Text.{Str}
use ghz.Printer.Influx.{replace, backslash, escaped, clean_influx_string}

-- The characters that InfluxDB wants behind a backslash.
abbrev pub is_special : ℕ → Bool
is_special c = (c == 32) || ((c == 44) || (c == 61))

-- One pass.
unfoldable pub escape : Str → Str
escape [] = []
escape (c ∷ s) = (if is_special c then escaped c else c ∷ []) ++ escape s

pub clean_influx_string-eq-escape : (s : Str) → clean_influx_string s ≡ escape s
unfolding clean_influx_string replace escape
clean_influx_string-eq-escape [] = refl
clean_influx_string-eq-escape (c ∷ s) = ground (arith, clean_influx_string-eq-escape s)

-- A reader of the line protocol: a backslash before one of the characters is dropped.
unfoldable pub unescape : Str → Str
unescape [] = []
unescape (c ∷ []) = c ∷ []
unescape (c ∷ d ∷ s) =
    let rest = unescape (d ∷ s) in if (c == backslash) && is_special d then rest else c ∷ rest

-- No escaped text begins with one of the characters.
unescape-cons : (c : ℕ) (s : Str) → unescape (c ∷ escape s) ≡ c ∷ unescape (escape s)
unfolding unescape escape
unescape-cons c [] = refl
unescape-cons c (d ∷ s) = elim (Bool-cases (is_special d)) [
  | inl e ↦ rw e (ground arith)
  | inr e ↦ rw e (ground (arith, e))
]

unescape-escape : (s : Str) → unescape (escape s) ≡ s
unfolding unescape escape
unescape-escape [] = refl
unescape-escape (c ∷ s) = elim (Bool-cases (is_special c)) [
  | inl e ↦ rw (e, unescape, e) (unescape-cons c s ∙ ap (λ t. c ∷ t) (unescape-escape s))
  | inr e ↦ rw e (unescape-cons c s ∙ ap (λ t. c ∷ t) (unescape-escape s))
]

-- What `cleanInfluxString` writes is read back by a reader that drops a backslash before a space, a comma
-- and an equals sign and takes everything else as it stands, also where the text has backslashes itself.
pub unescape-clean_influx_string : (s : Str) → unescape (clean_influx_string s) ≡ s
unescape-clean_influx_string s = ap unescape (clean_influx_string-eq-escape s) ∙ unescape-escape s
