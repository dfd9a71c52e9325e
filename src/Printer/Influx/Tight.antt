-- ===== src/Printer/Influx/Tight.antt =====
-- printer/influx.go: texts with no space that would end a part of a line.
use ghz.Prelude.{
  ℕ, suc, ◌+◌, ◌≡◌, refl, ◌∙◌, Bool, true, false, ◌&&◌, not, List, [], ◌∷◌, ◌++◌, ◌==◌,
  if◌then◌else◌, arith,
}
use ghz.Prelude.Text.{Str}
use ghz.Printer.Influx.{backslash, clean_influx_string, join, quoted}
use ghz.Printer.Influx.Escape.{escape, clean_influx_string-eq-escape}

-- The spaces with no backslash before them; `e` says that a backslash is.
unfoldable pub separators : Bool → Str → ℕ
separators e [] = 0
separators e (c ∷ s) =
    let rest = separators (c == backslash) s in if (c == 32) && not e then suc rest else rest

-- Whether a text ends in a backslash.
unfoldable pub ends_open : Bool → Str → Bool
ends_open e [] = e
ends_open e (c ∷ s) = ends_open (c == backslash) s

-- A text with no such space, that leaves what follows alone.
abbrev pub IsTight : Str → Type 0
IsTight s = (separators false s ≡ 0) × (ends_open false s ≡ false)

pub separators-append :
    (e : Bool) (s t : Str) → separators e (s ++ t) ≡ separators e s + separators (ends_open e s) t
unfolding separators ends_open
separators-append e [] t = omega arith
separators-append e (c ∷ s) t = ground (arith, separators-append (c == backslash) s t)

pub ends_open-append : (e : Bool) (s t : Str) → ends_open e (s ++ t) ≡ ends_open (ends_open e s) t
unfolding ends_open
ends_open-append e [] t = refl
ends_open-append e (c ∷ s) t = ends_open-append (c == backslash) s t

pub IsTight-append : (s t : Str) → IsTight s → IsTight t → IsTight (s ++ t)
IsTight-append s t (a, b) (c, d) =
    (separators-append false s t ∙ rw b (omega (arith, a, c)), ends_open-append false s t ∙ rw b d)

pub separators-escape : (e : Bool) (s : Str) → separators e (escape s) ≡ 0
unfolding separators escape
separators-escape e [] = refl
separators-escape e (c ∷ s) = ground (arith, separators-escape false s, separators-escape true s)

pub ends_open-escape : (e : Bool) (s : Str) → ends_open e (escape s) ≡ ends_open e s
unfolding ends_open escape
ends_open-escape e [] = refl
ends_open-escape e (c ∷ s) = ground (arith, ends_open-escape false s, ends_open-escape true s)

-- A text that is cleaned is tight if it does not end in a backslash, and in quotes in any case.
pub clean-IsTight : (s : Str) → ends_open false s ≡ false → IsTight (clean_influx_string s)
clean-IsTight s h =
    rw (clean_influx_string-eq-escape s) (separators-escape false s, ends_open-escape false s ∙ h)

pub quoted-separators : (s : Str) → separators false s ≡ 0 → IsTight (quoted s)
unfolding separators ends_open
quoted-separators s h =
    (separators-append false s (34 ∷ []) ∙ omega (arith, h), ends_open-append false s (34 ∷ []))

pub quoted_clean-IsTight : (s : Str) → IsTight (quoted (clean_influx_string s))
quoted_clean-IsTight s =
    quoted-separators (clean_influx_string s)
      (rw (clean_influx_string-eq-escape s) (separators-escape false s))

abbrev pub AllTight : List Str → Type 0
AllTight [] = Unit {0}
AllTight (s ∷ ss) = IsTight s × AllTight ss

pub AllTight-append : (xs ys : List Str) → AllTight xs → AllTight ys → AllTight (xs ++ ys)
AllTight-append [] ys h k = k
AllTight-append (x ∷ xs) ys h k = (h.0, AllTight-append xs ys h.1 k)

pub comma-IsTight : (s : Str) → IsTight s → IsTight (44 ∷ s)
unfolding separators ends_open
comma-IsTight s h = h

pub join-IsTight : (xs : List Str) → AllTight xs → IsTight (join xs)
unfolding join separators ends_open
join-IsTight [] h = (refl, refl)
join-IsTight (x ∷ []) h = h.0
join-IsTight (x ∷ y ∷ ys) h =
    IsTight-append x (44 ∷ join (y ∷ ys)) h.0
      (comma-IsTight (join (y ∷ ys)) (join-IsTight (y ∷ ys) h.1))

-- `tag` for a name and a value.
pub tag-IsTight : (name value : Str) → IsTight name → IsTight value → IsTight (name ++ 61 ∷ value)
unfolding separators ends_open
tag-IsTight name value h k = IsTight-append name (61 ∷ value) h k

-- Three tight parts with two spaces between them.
pub line_lem :
    (s t u : Str)
    → IsTight s
    → IsTight t
    → IsTight u
    → separators false (s ++ 32 ∷ (t ++ 32 ∷ u)) ≡ 2
unfolding separators ends_open
line_lem s t u h k l =
    separators-append false s (32 ∷ (t ++ 32 ∷ u))
    ∙ rw (h.0, h.1, separators-append false t (32 ∷ u), k.0, k.1, l.0)
