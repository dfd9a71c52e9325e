-- ===== src/Protodesc/Sound.antt =====
-- protodesc/protodesc.go, `parseServiceMethod`: what its answer says of the call's name.
use ghz.Prelude.{
  ℕ, zero, suc, ◌+◌, ◌≡◌, ◌≢◌, ◌≤◌, refl, sym, ap, ◌⊎◌, inl, inr, true, [], ◌∷◌, ◌++◌, none, some,
  arith, Bool-cases, ◌==◌, if◌then◌else◌, take, drop,
}
use mathlib.Core.List.{cons-ne-nil}
use ghz.Prelude.Text.{Str, is_empty}
use ghz.Protodesc.{
  no_method_name, invalid_method_name, Parsed, failed, method, panic, dot, slash, count, last_index,
  split, undotted, by_dot, by_slash, parse_name, parse_service_method,
}
use ghz.Protodesc.Forms.{split-none}

==-eq : (x c : ℕ) → (x == c) ≡ true → x ≡ c
==-eq x c h = ground arith

-- The last separator: what is before it and behind it, where there is none more.
last_index-cases :
    (c : ℕ) (s : Str)
    → ((last_index c s ≡ none) × (count c s ≡ 0))
      ⊎ ((i : ℕ) × (last_index c s ≡ some i)
          × (take i s ++ c ∷ drop (i + 1) s ≡ s)
          × (count c (drop (i + 1) s) ≡ 0))
unfolding last_index count
last_index-cases c [] = inl (refl, refl)
last_index-cases c (x ∷ xs) = elim (last_index-cases c xs) [
  | inl (e, z) ↦ elim (Bool-cases (x == c)) [
    | inl q ↦ inr (0, rw (last_index, e, q), ap (λ y. y ∷ xs) (sym (==-eq x c q)), z)
    | inr q ↦ inl (rw (last_index, e, q), ground (arith, q, z))
  ]
  | inr (i, e, j, z) ↦
      let next : suc i + 1 ≡ suc (i + 1) = omega arith in
      inr (
        suc i,
        rw (last_index, e) (ap some (omega arith)),
        rw next (ap (λ ys. x ∷ ys) j),
        rw next z,
      )
]

split-one :
    (c : ℕ) (s : Str)
    → count c s ≡ 1
    → (a : Str) × (b : Str) × (split c s ≡ a ∷ b ∷ [])
      × (a ++ c ∷ b ≡ s)
      × (count c a ≡ 0)
      × (count c b ≡ 0)
unfolding count split
split-one c [] h = absurd (omega arith)
split-one c (x ∷ xs) h = elim (Bool-cases (x == c)) [
  | inl q ↦ (
    [],
    xs,
    ground (arith, split-none c xs),
    ap (λ y. y ∷ xs) (sym (==-eq x c q)),
    refl,
    ground (arith, q, h),
  )
  | inr q ↦
      let (a, b, e, j, y, z) = split-one c xs (ground arith) in
      (x ∷ a, b, ground (arith, e), ap (λ ys. x ∷ ys) j, ground (arith, q, y), z)
]

-- What the name `s` behind its dot says: a service and a method around the only slash, or around the last
-- dot where there is no slash. No method is named where the name is empty; the name is invalid where it has
-- two slashes or more, or neither a slash nor a dot.
abbrev pub IsRead : Str → Parsed → Type 0
IsRead s (failed no_method_name) = s ≡ []
IsRead s (failed (invalid_method_name t)) =
    (t ≡ s) × ((2 ≤ count slash s) ⊎ ((s ≢ []) × (count slash s ≡ 0) × (count dot s ≡ 0)))
IsRead s (method a b) =
    ((a ++ slash ∷ b ≡ s) × (count slash a ≡ 0) × (count slash b ≡ 0))
    ⊎ ((a ++ dot ∷ b ≡ s) × (count slash s ≡ 0) × (count dot b ≡ 0))
IsRead s panic = ⊥

by_dot-IsRead : (s : Str) → s ≢ [] → count slash s ≡ 0 → IsRead s (by_dot s)
by_dot-IsRead s f h = elim (last_index-cases dot s) [
  | inl (e, z) ↦ rw (IsRead, by_dot, e) (refl, inr (f, h, z))
  | inr (i, e, j, z) ↦ rw (IsRead, by_dot, e) (inr (j, h, z))
]

by_slash-IsRead : (s : Str) → count slash s ≡ 1 → IsRead s (by_slash s)
by_slash-IsRead s h =
    let (a, b, e, j, y, z) = split-one slash s h in rw (IsRead, by_slash, e) (inl (j, y, z))

Nat-cases : (n : ℕ) → (n ≡ 0) ⊎ ((n ≡ 1) ⊎ ((m : ℕ) × (n ≡ suc (suc m))))
Nat-cases zero = inl refl
Nat-cases (suc zero) = inr (inl refl)
Nat-cases (suc (suc m)) = inr (inr (m, refl))

parse_name-IsRead : (s : Str) → s ≢ [] → IsRead s (parse_name s)
parse_name-IsRead s f = elim (Nat-cases (count slash s)) [
  | inl e ↦ rw (parse_name, e) (by_dot-IsRead s f e)
  | inr t ↦ elim t [
    | inl e ↦ rw (parse_name, e) (by_slash-IsRead s e)
    | inr (m, e) ↦ rw (parse_name, e) (refl, inl (omega (arith, e)))
  ]
]

-- The name behind the dot, if there is one.
named-IsRead : (t : Str) → IsRead t (if is_empty t then failed no_method_name else parse_name t)
named-IsRead [] = refl
named-IsRead (c ∷ s) = parse_name-IsRead (c ∷ s) (cons-ne-nil c s)

-- For every call, without the dot in front of it, `parseServiceMethod` does not panic and answers: the
-- service and the method around the only slash, or around the last dot where there is no slash; that no
-- method is named, if nothing is there; and that the name is invalid, if it has two slashes or more, or
-- neither a slash nor a dot. It fails in no other case.
pub parse_service_method-IsRead : (s : Str) → IsRead (undotted s) (parse_service_method s)
unfolding parse_service_method
parse_service_method-IsRead [] = refl
parse_service_method-IsRead (c ∷ s) = named-IsRead (undotted (c ∷ s))
