-- ===== src/Prelude/Text.antt =====
-- Text as lists of code points, and the functions of `strings` and `path/filepath` that the program
-- calls on it.
use Prim.Native.Nat.{ℕ, ◌+◌}
use Prim.Native.Char.{code}
use Prim.Native.String.{String}
use mathlib.Core.Bool.{Bool, true, false, ◌&&◌, ◌||◌}
use mathlib.Core.List.{List, [], ◌∷◌, map, reverse}
use mathlib.Core.Path.{◌≡◌, refl, ap}
use native.Mathlib.Omega.{arith}
use ghz.Prelude.Tests.{leb, ◌==◌, if◌then◌else◌}

abbrev pub Str : Type 0
Str = List ℕ

abbrev pub codes : String → Str
codes String.[] = []
codes (String.◌∷◌ c s) = code c ∷ codes s

unfoldable pub str_eq : Str → Str → Bool
str_eq [] [] = true
str_eq [] (d ∷ t) = false
str_eq (c ∷ s) [] = false
str_eq (c ∷ s) (d ∷ t) = (c == d) && str_eq s t

pub str_eq-eq : (s t : Str) → str_eq s t ≡ true → s ≡ t
unfolding str_eq
str_eq-eq [] [] h = refl
str_eq-eq [] (d ∷ t) h = cc
str_eq-eq (c ∷ s) [] h = cc
str_eq-eq (c ∷ s) (d ∷ t) h = ground (arith, str_eq-eq s t)

pub str_eq_refl : (s : Str) → str_eq s s ≡ true
unfolding str_eq
str_eq_refl [] = refl
str_eq_refl (c ∷ s) = ground (arith, str_eq_refl s)

-- Equal texts compare alike with a third.
pub str_eq-same : (s t u : Str) → str_eq s t ≡ true → str_eq s u ≡ str_eq t u
str_eq-same s t u h = ap (λ x. str_eq x u) (str_eq-eq s t h)

abbrev pub is_empty : Str → Bool
is_empty [] = true
is_empty (c ∷ s) = false

-- `unicode.IsSpace`.
unfoldable pub is_space : ℕ → Bool
is_space c =
    (leb 9 c && leb c 13)
    || ((c == 32)
        || ((c == 0x85)
            || ((c == 0xa0)
                || ((c == 0x1680)
                    || ((leb 0x2000 c && leb c 0x200a)
                        || ((c == 0x2028)
                            || ((c == 0x2029)
                                || ((c == 0x202f) || ((c == 0x205f) || (c == 0x3000))))))))))

unfoldable pub trim_left : Str → Str
trim_left [] = []
trim_left (c ∷ s) = if is_space c then trim_left s else c ∷ s

-- `strings.TrimSpace`.
unfoldable pub trim_space : Str → Str
unfolding trim_left is_space
trim_space s = reverse (trim_left (reverse (trim_left s)))

-- `unicode.ToLower` as far as its result is in ASCII: the letters A to Z, the dotted capital I and the
-- Kelvin sign. Every other character keeps its code.
unfoldable pub lower : ℕ → ℕ
lower c =
    if leb 65 c && leb c 90
    then c + 32
    else if c == 0x130
    then 105
    else if c == 0x212a
    then 107
    else c

-- `strings.ToLower`.
unfoldable pub to_lower : Str → Str
unfolding lower
to_lower s = map lower s

-- The suffix from the last dot of the last element, read from the end.
ext_from : Str → Str → Str
ext_from found [] = []
ext_from found (c ∷ s) =
    let rest = ext_from (c ∷ found) s in if c == 47 then [] else if c == 46 then c ∷ found else rest

-- `filepath.Ext`.
unfoldable pub extension : Str → Str
unfolding ext_from
extension path = ext_from [] (reverse path)

extension_test : extension (codes "a.b/c.proto") ≡ codes ".proto"
unfolding extension
extension_test = refl

trim_test : trim_space (codes "  a b ") ≡ codes "a b"
unfolding trim_space
trim_test = refl
