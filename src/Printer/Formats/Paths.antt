-- ===== src/Printer/Formats/Paths.antt =====
-- printer/printer.go, the path of a parquet file.
use ghz.Prelude.{
  ◌≡◌, refl, sym, ap, ap₂, ◌∙◌, [], ◌∷◌, ◌++◌, inl, inr, Option-cases, none, some, arith,
}
use mathlib.Core.List.{reverse, reverse-append, reverse-reverse}
use mathlib.Core.Option.{none-ne-some, some-injective}
use ghz.Prelude.Text.{Str}
use ghz.Printer.Formats.{after_prefix, before_suffix, html_suffix, parquet_suffix, parquet_path}

after_prefix-append : (t s : Str) → after_prefix t (t ++ s) ≡ some s
unfolding after_prefix
after_prefix-append [] s = refl
after_prefix-append (c ∷ t) s = ground (arith, after_prefix-append t s)

after_prefix-some : (t s u : Str) → after_prefix t s ≡ some u → s ≡ t ++ u
unfolding after_prefix
after_prefix-some [] s u h = cc
after_prefix-some (c ∷ t) [] u h = cc
after_prefix-some (c ∷ t) (d ∷ s) u h = ground (arith, after_prefix-some t s u)

-- A suffix that is there is found, and what is found is there.
before_suffix-append : (s t : Str) → before_suffix (s ++ t) t ≡ some s
unfolding before_suffix
before_suffix-append s t =
    rw
      (
        before_suffix,
        reverse-append s t,
        after_prefix-append (reverse t) (reverse s),
        reverse-reverse s,
      )
      refl

before_suffix-some : (s t u : Str) → before_suffix s t ≡ some u → s ≡ u ++ t
unfolding before_suffix
before_suffix-some s t u h = elim (Option-cases (after_prefix (reverse t) (reverse s))) [
  | inl e ↦
      let nothing : before_suffix s t ≡ none = rw (before_suffix, e) refl in
      elim (none-ne-some u (sym nothing ∙ h)) [ ]
  | inr (v, e) ↦
      let found : before_suffix s t ≡ some (reverse v) = rw (before_suffix, e) refl in
      let same : reverse v ≡ u = some-injective (reverse v) u (sym found ∙ h) in
      sym (reverse-reverse s)
      ∙ ap reverse (after_prefix-some (reverse t) (reverse s) v e)
      ∙ reverse-append (reverse t) v
      ∙ ap₂ ◌++◌ same (reverse-reverse t)
]

not_html : (s : Str) → before_suffix (s ++ parquet_suffix) html_suffix ≡ none
unfolding before_suffix after_prefix
not_html s = rw (before_suffix, reverse-append s parquet_suffix) refl

path-html : (s : Str) → parquet_path (s ++ html_suffix) ≡ s ++ parquet_suffix
unfolding parquet_path
path-html s = rw (parquet_path, before_suffix-append s html_suffix) refl

path-parquet : (s : Str) → parquet_path (s ++ parquet_suffix) ≡ s ++ parquet_suffix
unfolding parquet_path
path-parquet s = rw (parquet_path, not_html s, before_suffix-append s parquet_suffix) refl

path_stem : (p : Str) → (stem : Str) × (parquet_path p ≡ stem ++ parquet_suffix)
unfolding parquet_path
path_stem p = elim (Option-cases (before_suffix p html_suffix)) [
  | inr (stem, e) ↦ (stem, rw (parquet_path, e) refl)
  | inl e ↦ elim (Option-cases (before_suffix p parquet_suffix)) [
    | inr (stem, k) ↦ (stem, rw (parquet_path, e, k) (before_suffix-some p parquet_suffix stem k))
    | inl k ↦ (p, rw (parquet_path, e, k) refl)
  ]
]

-- Whatever the output's path is, the parquet file's ends in `.parquet`, and is its own one. An HTML file's
-- is the same with the other ending, so that a report in both formats has two files of one name.
parquet_path-parquet_path :
    (p : Str)
    → ((stem : Str) × (parquet_path p ≡ stem ++ parquet_suffix))
      × (parquet_path (parquet_path p) ≡ parquet_path p)
      × (parquet_path (p ++ html_suffix) ≡ p ++ parquet_suffix)
parquet_path-parquet_path p = let e = path_stem p in (e, rw e.1 (path-parquet e.0), path-html p)
