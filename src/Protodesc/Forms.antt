-- ===== src/Protodesc/Forms.antt =====
-- protodesc/protodesc.go, `parseServiceMethod`: the forms of a call's name that it reads.
use ghz.Prelude.{
  ℕ, suc, ◌+◌, ◌≡◌, refl, ap, ◌∙◌, false, [], ◌∷◌, ◌++◌, none, some, arith, ◌==◌, if◌then◌else◌,
  length, take, drop,
}
use ghz.Prelude.Text.{Str, is_empty}
use ghz.Protodesc.{
  method, dot, slash, count, last_index, split, undotted, by_dot, by_slash, parse_name,
  parse_service_method,
}

count-append : (c : ℕ) (xs ys : Str) → count c (xs ++ ys) ≡ count c xs + count c ys
unfolding count
count-append c [] ys = omega arith
count-append c (x ∷ xs) ys = omega (arith, count-append c xs ys)

last_index-none : (c : ℕ) (xs : Str) → count c xs ≡ 0 → last_index c xs ≡ none
unfolding count last_index
last_index-none c [] h = refl
last_index-none c (x ∷ xs) h = ground (arith, last_index-none c xs)

last_index-append :
    (c : ℕ) (xs ys : Str) → count c ys ≡ 0 → last_index c (xs ++ c ∷ ys) ≡ some (length xs)
unfolding last_index
last_index-append c [] ys h = ground (arith, last_index-none c ys h)
last_index-append c (x ∷ xs) ys h =
    rw (last_index, last_index-append c xs ys h) (ap some (omega arith))

take-append : (xs ys : Str) → take (length xs) (xs ++ ys) ≡ xs
take-append [] ys = refl
take-append (x ∷ xs) ys = ap (λ zs. x ∷ zs) (take-append xs ys)

drop-append : (c : ℕ) (xs ys : Str) → drop (length xs + 1) (xs ++ c ∷ ys) ≡ ys
drop-append c [] ys = refl
drop-append c (x ∷ xs) ys =
    let next : suc (length xs) + 1 ≡ suc (length xs + 1) = omega arith in
    rw next (drop-append c xs ys)

pub split-none : (c : ℕ) (xs : Str) → count c xs ≡ 0 → split c xs ≡ xs ∷ []
unfolding count split
split-none c [] h = refl
split-none c (x ∷ xs) h = ground (arith, split-none c xs)

split-append :
    (c : ℕ) (xs ys : Str) → count c xs ≡ 0 → count c ys ≡ 0 → split c (xs ++ c ∷ ys) ≡ xs ∷ ys ∷ []
unfolding count split
split-append c [] ys h k = ground (arith, split-none c ys k)
split-append c (x ∷ xs) ys h k = ground (arith, split-append c xs ys)

undotted-append :
    (xs ys : Str) → is_empty xs ≡ false → undotted xs ≡ xs → undotted (xs ++ ys) ≡ xs ++ ys
undotted-append [] ys h k = cc
undotted-append (x ∷ xs) ys h k = ground (arith, ap length k)

-- The name that is parsed, behind the dot.
parse_undotted :
    (s : Str) → is_empty s ≡ false → undotted s ≡ s → parse_service_method s ≡ parse_name s
unfolding parse_service_method
parse_undotted s h k = ground (arith, k)

parse_dotted : (s : Str) → is_empty s ≡ false → parse_service_method (dot ∷ s) ≡ parse_name s
unfolding parse_service_method
parse_dotted s h = ground arith

is_empty-append : (xs : Str) (c : ℕ) (ys : Str) → is_empty (xs ++ c ∷ ys) ≡ false
is_empty-append [] c ys = refl
is_empty-append (x ∷ xs) c ys = refl

count-between :
    (c k : ℕ) (xs ys : Str)
    → count c (xs ++ k ∷ ys) ≡ count c xs + (if k == c then 1 else 0) + count c ys
unfolding count
count-between c k xs ys = count-append c xs (k ∷ ys) ∙ omega arith

parse_name-slash :
    (service name : Str)
    → count slash service ≡ 0
    → count slash name ≡ 0
    → parse_name (service ++ slash ∷ name) ≡ method service name
parse_name-slash service name s n =
    let one : count slash (service ++ slash ∷ name) ≡ 1 =
      count-between slash slash service name ∙ omega (arith, s, n) in
    rw (parse_name, one, by_slash, split-append slash service name s n)

parse_name-dot :
    (service name : Str)
    → count slash service ≡ 0
    → count slash name ≡ 0
    → count dot name ≡ 0
    → parse_name (service ++ dot ∷ name) ≡ method service name
parse_name-dot service name s n d =
    let free : count slash (service ++ dot ∷ name) ≡ 0 =
      count-between slash dot service name ∙ omega (arith, s, n) in
    rw (
      parse_name,
      free,
      by_dot,
      last_index-append dot service name d,
      take-append service (dot ∷ name),
      drop-append dot service name,
    )

-- A call `service/method`, with no other slash and no dot in front, is read as this service and this
-- method, and so is the same call behind a dot.
parse-slash :
    (service name : Str)
    → is_empty service ≡ false
    → undotted service ≡ service
    → count slash service ≡ 0
    → count slash name ≡ 0
    → (parse_service_method (service ++ slash ∷ name) ≡ method service name)
      × (parse_service_method (dot ∷ service ++ slash ∷ name) ≡ method service name)
parse-slash service name h u s n = (
  parse_undotted (service ++ slash ∷ name) (is_empty-append service slash name)
        (undotted-append service (slash ∷ name) h u)
      ∙ parse_name-slash service name s n,
  parse_dotted (service ++ slash ∷ name) (is_empty-append service slash name)
      ∙ parse_name-slash service name s n,
)

-- A call `service.method`, with no slash, no dot in the method and no dot in front, is read as this
-- service and this method, and so is the same call behind a dot.
pub parse-dot :
    (service name : Str)
    → is_empty service ≡ false
    → undotted service ≡ service
    → count slash service ≡ 0
    → count slash name ≡ 0
    → count dot name ≡ 0
    → (parse_service_method (service ++ dot ∷ name) ≡ method service name)
      × (parse_service_method (dot ∷ service ++ dot ∷ name) ≡ method service name)
parse-dot service name h u s n d = (
  parse_undotted (service ++ dot ∷ name) (is_empty-append service dot name)
        (undotted-append service (dot ∷ name) h u)
      ∙ parse_name-dot service name s n d,
  parse_dotted (service ++ dot ∷ name) (is_empty-append service dot name)
      ∙ parse_name-dot service name s n d,
)
