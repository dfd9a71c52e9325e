-- ===== src/Protodesc.antt =====
-- protodesc/protodesc.go, `parseServiceMethod`: the service and the method in the name of a call.
-- A text is a list of code points; the separators are ASCII, so byte positions and positions of code
-- points split it alike.
pub mod Lookup
pub mod Forms
pub mod Sound
use ghz.Prelude.{
  ℕ, zero, suc, ◌+◌, Bool, true, false, List, [], ◌∷◌, Option, none, some, ◌==◌, if◌then◌else◌,
  take, drop,
}
use ghz.Prelude.Text.{Str, is_empty}

pub data ParseError : Type 0 where
  no_method_name : ParseError
  invalid_method_name : Str → ParseError

pub data Parsed : Type 0 where
  failed : ParseError → Parsed
  method : Str → Str → Parsed
  panic : Parsed

abbrev pub dot : ℕ
dot = 46

abbrev pub slash : ℕ
slash = 47

-- `strings.Count`, `strings.LastIndex` and `strings.Split` for a separator of one character.
unfoldable pub count : ℕ → Str → ℕ
count c [] = 0
count c (x ∷ xs) = (if x == c then 1 else 0) + count c xs

unfoldable pub last_index : ℕ → Str → Option ℕ
last_index c [] = none
last_index c (x ∷ xs) = elim (last_index c xs) [
  | some i ↦ some (i + 1)
  | none ↦ if x == c then some 0 else none
]

abbrev pub cons_first : ℕ → List Str → List Str
cons_first x [] = (x ∷ []) ∷ []
cons_first x (s ∷ ss) = (x ∷ s) ∷ ss

unfoldable pub split : ℕ → Str → List Str
split c [] = [] ∷ []
split c (x ∷ xs) = let rest = split c xs in if x == c then [] ∷ rest else cons_first x rest

abbrev pub undotted : Str → Str
undotted [] = []
undotted (x ∷ xs) = if x == dot then xs else x ∷ xs

abbrev pub by_dot : Str → Parsed
by_dot s = elim (last_index dot s) [
  | none ↦ failed (invalid_method_name s)
  | some i ↦ method (take i s) (drop (i + 1) s)
]

abbrev pub by_slash : Str → Parsed
by_slash s = elim (split slash s) [
  | [] ↦ panic
  | a ∷ rest ↦ elim rest [ [] ↦ panic | b ∷ _ ↦ method a b ]
]

abbrev pub parse_name : Str → Parsed
parse_name s = elim (count slash s) [
  | zero ↦ by_dot s
  | suc n ↦ elim n [ zero ↦ by_slash s | suc _ ↦ failed (invalid_method_name s) ]
]

unfoldable pub parse_service_method : Str → Parsed
parse_service_method s =
    if is_empty s
    then failed no_method_name
    else if is_empty (undotted s)
    then failed no_method_name
    else parse_name (undotted s)
