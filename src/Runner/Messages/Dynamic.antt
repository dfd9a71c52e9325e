-- ===== src/Runner/Messages/Dynamic.antt =====
-- runner/data.go, `dynamicMessageProvider`: which template each message of a stream is made from.
use ghz.Prelude.{
  ℕ, zero, suc, ◌+◌, ◌-◌, ◌≤◌, ◌<◌, ◌≡◌, refl, ap, List, [], ◌∷◌, Option, some, arith, ltb, ◌==◌,
  if◌then◌else◌, length, get_elem?,
}
use ghz.Prelude.Text.{Str}
use ghz.Runner.Messages.{Sent, message, end_stream, DynamicProvider, dynamic_index, get_dynamic}

-- A provider that has not been used.
abbrev pub fresh_dynamic : Str → List Str → ℕ → DynamicProvider
fresh_dynamic text array count = record {
  template = text;
  array = array;
  stream_call_count = count;
  counter = 0;
  index_counter = 0;
}

-- How many messages a stream has.
abbrev pub dynamic_total : ℕ → List Str → ℕ
dynamic_total count array = if ltb 0 count then count else length array

module _ {M : Type 0} (make : Str → M) where
  abbrev pub always : Str → Option M
  always text = some (make text)

  abbrev pub dynamic_after : ℕ → DynamicProvider → DynamicProvider
  dynamic_after zero m = m
  dynamic_after (suc j) m = (get_dynamic always (dynamic_after j m)).1

module _ (count : ℕ) (array : List Str) where
  record Stands (j : ℕ) (m : DynamicProvider) : Type 0 where
    same_array : m.array ≡ array
    same_count : m.stream_call_count ≡ count
    at : m.counter ≡ j
    index : j ≤ length array → m.index_counter ≡ j

  -- The index that call `j` uses.
  abbrev pub first_pass : ℕ → ℕ
  first_pass j = if ltb j (length array) then j else 0

get_elem?-some {ℓ} :
    {A : Type ℓ} (xs : List A) (i : ℕ) → i < length xs → (x : A) × (get_elem? xs i ≡ some x)
get_elem?-some [] i h = elim h [ ]
get_elem?-some (x ∷ xs) zero h = (x, refl)
get_elem?-some (x ∷ xs) (suc i) h = get_elem?-some xs i (omega arith)

module _ {M : Type 0} (make : Str → M) (count : ℕ) (text : Str) (array : List Str)
    (pos : 0 < length array) where
  first_pass-lt : (j : ℕ) → first_pass count array j < length array
  first_pass-lt j = ground arith

  index_lem :
      {j : ℕ} {m : DynamicProvider}
      → Stands count array j m
      → dynamic_index m ≡ first_pass count array j
  index_lem s = ground arith

  sends :
      {j : ℕ} {m : DynamicProvider}
      → Stands count array j m
      → j < dynamic_total count array
      → (t : Str) × (get_elem? array (first_pass count array j) ≡ some t)
        × (get_dynamic (always make) m ≡ (
          message (make t) (j == (dynamic_total count array - 1)),
          record m { counter = m.counter + 1; index_counter = dynamic_index m + 1 },
        ))
  unfolding get_dynamic
  sends {j} {m} s lt =
      let (t, e) = get_elem?-some array (first_pass count array j) (first_pass-lt j) in
      (t, e, ground (arith, e, index_lem s))

  get-Stands :
      {j : ℕ} {m : DynamicProvider}
      → Stands count array j m
      → j < dynamic_total count array
      → Stands count array (suc j) (get_dynamic (always make) m).1
  get-Stands {j} {m} s lt =
      let (t, e, made) = sends s lt in
      rw made (record {
        same_array = s.same_array;
        same_count = s.same_count;
        at = omega (arith, s.at);
        index = λ more. ground (arith, index_lem s);
      })

  after-Stands :
      (j : ℕ)
      → j ≤ dynamic_total count array
      → Stands count array j (dynamic_after make j (fresh_dynamic text array count))
  after-Stands zero h = record {
    same_array = refl;
    same_count = refl;
    at = refl;
    index = λ more. refl;
  }
  after-Stands (suc j) h = get-Stands (after-Stands j (omega arith)) h

  finishes :
      {m : DynamicProvider}
      → Stands count array (dynamic_total count array) m
      → (get_dynamic (always make) m).0 ≡ end_stream
  unfolding get_dynamic
  finishes s = ground arith

  -- Over an array of templates that is not empty, where no template fails: call `j` uses template `j`
  -- on the first pass and template 0 on every call after it, and marks the last message exactly.
  pub get_dynamic-first_pass :
      (j : ℕ)
      → j < dynamic_total count array
      → (t : Str) × (get_elem? array (if ltb j (length array) then j else 0) ≡ some t)
        × ((get_dynamic (always make) (dynamic_after make j (fresh_dynamic text array count))).0
            ≡ message (make t) (j == (dynamic_total count array - 1)))
  get_dynamic-first_pass j lt =
      let (t, e, made) = sends (after-Stands j (omega arith)) lt in
      (t, e, ap (λ (r : Sent M × DynamicProvider). r.0) made)

  -- The call after the last message made from an array that is not empty ends the stream.
  pub get_dynamic-ends :
      (get_dynamic
        (always make)
        (dynamic_after make (dynamic_total count array) (fresh_dynamic text array count))).0
      ≡ end_stream
  get_dynamic-ends = finishes (after-Stands (dynamic_total count array) (omega arith))
