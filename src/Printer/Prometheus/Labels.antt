-- ===== src/Printer/Prometheus/Labels.antt =====
-- printer/prometheus.go, `getCommonPrometheusLabels`: when it fails.
use ghz.Prelude.{
  ◌≡◌, refl, ap, ◌∙◌, inl, inr, Bool, true, false, ◌||◌, not, List, [], ◌∷◌, ◌++◌, Option, none,
  some, Bool-cases, Option-cases,
}
use ghz.Prelude.Int.{ℤ}
use ghz.Prelude.Float.{Float64}
use ghz.Prelude.Text.{Str, codes}
use ghz.Runner.Reporter.Finalize.{Options, Report}
use ghz.Printer.Prometheus.{
  Member, text, bool, number, put_label, unmarshal_labels, text_member, own_members, number_members,
  alias_members, other_members, members, get_common_prometheus_labels, print_prometheus,
}

abbrev pub is_error : {A : Type 0} → Option A → Bool
is_error none = true
is_error (some a) = false

all_text : List (Str × Member) → Bool
all_text [] = true
all_text ((k, text v) ∷ ms) = all_text ms
all_text ((k, bool b) ∷ ms) = false
all_text ((k, number) ∷ ms) = false

unmarshal_labels-all_text :
    (ms : List (Str × Member)) (m : List (Str × Str))
    → is_error (unmarshal_labels ms m) ≡ not (all_text ms)
unfolding unmarshal_labels all_text
unmarshal_labels-all_text [] m = refl
unmarshal_labels-all_text ((k, text v) ∷ ms) m = unmarshal_labels-all_text ms (put_label k v m)
unmarshal_labels-all_text ((k, bool b) ∷ ms) m = refl
unmarshal_labels-all_text ((k, number) ∷ ms) m = refl

all_text-append :
    (xs ys : List (Str × Member)) → all_text xs ≡ true → all_text (xs ++ ys) ≡ all_text ys
unfolding all_text
all_text-append [] ys h = refl
all_text-append ((k, text v) ∷ xs) ys h = all_text-append xs ys h
all_text-append ((k, bool b) ∷ xs) ys h = absurd (cc)
all_text-append ((k, number) ∷ xs) ys h = absurd (cc)

all_text-text_member : (k v : Str) → all_text (text_member k v) ≡ true
unfolding all_text
all_text-text_member k [] = refl
all_text-text_member k (c ∷ v) = refl

text_then : (k v : Str) (ms : List (Str × Member)) → all_text (text_member k v ++ ms) ≡ all_text ms
text_then k v ms = all_text-append (text_member k v) ms (all_text-text_member k v)

module _ {H F : Type 0} (f : Float64 F) (itoa : ℤ → Str) where
  alias-all_text : (o : Options H F) → all_text (alias_members f itoa o) ≡ true
  unfolding all_text
  alias-all_text o = simp (text_then, all_text-text_member)

  other-all_text :
      (o : Options H F)
      → not (all_text (other_members f itoa o))
        ≡ (o.enable_compression || not (f.eq o.data_sampling_rate (f.of_uint64 0)))
  unfolding all_text
  other-all_text o = elim (Bool-cases o.enable_compression) [
    | inl e ↦ rw e refl
    | inr e ↦ elim (Bool-cases (f.eq o.data_sampling_rate (f.of_uint64 0))) [
      | inl z ↦ rw (e, z) refl
      | inr z ↦ rw (e, z) refl
    ]
  ]

  members-all_text :
      (o : Options H F) → all_text (members f itoa o) ≡ all_text (other_members f itoa o)
  unfolding all_text
  members-all_text o =
      all_text-append (own_members f itoa o)
        (number_members f itoa o ++ (alias_members f itoa o ++ other_members f itoa o)) refl
      ∙ all_text-append (number_members f itoa o) (alias_members f itoa o ++ other_members f itoa o)
          refl
      ∙ all_text-append (alias_members f itoa o) (other_members f itoa o) (alias-all_text o)

  print-is_error :
      (rep : Report H F)
      → is_error (print_prometheus f itoa rep)
        ≡ is_error (
            unmarshal_labels
              (members f itoa rep.options)
              ((codes "name", rep.name) ∷ (codes "end_reason", rep.end_reason) ∷ []))
  unfolding print_prometheus get_common_prometheus_labels
  print-is_error rep =
      elim (Option-cases (
        unmarshal_labels (members f itoa rep.options)
          ((codes "name", rep.name) ∷ (codes "end_reason", rep.end_reason) ∷ []))) [
            | inl e ↦ rw (print_prometheus, get_common_prometheus_labels, e) refl
            | inr (ls, e) ↦ rw (print_prometheus, get_common_prometheus_labels, e) refl
          ]

  -- The report is printed for Prometheus unless the run used compression or has a sampling rate other than
  -- 0: then the labels cannot be made, and nothing is printed but an error is returned.
  pub print_prometheus-is_error :
      (rep : Report H F)
      → is_error (print_prometheus f itoa rep) ≡ (
          rep.options.enable_compression
          || not (f.eq rep.options.data_sampling_rate (f.of_uint64 0)))
  print_prometheus-is_error rep =
      print-is_error rep
      ∙ unmarshal_labels-all_text (members f itoa rep.options) _
      ∙ ap not (members-all_text rep.options)
      ∙ other-all_text rep.options
