-- ===== src/Runner/Messages/Static.antt =====
-- runner/data.go, `staticMessageProvider`: the messages of a stream, call by call.
use ghz.Prelude.{
  ℕ, zero, suc, ◌+◌, ◌-◌, ◌%◌, ◌≤◌, ◌<◌, ◌≡◌, refl, ap, List, [], ◌∷◌, some, arith, ltb, ◌==◌,
  if◌then◌else◌, length, get_elem?,
}
use native.Mathlib.Nat.{mod-eq_of_lt, mod-lt}
use ghz.Prelude.Turn.{next-turn}
use ghz.Runner.Messages.{
  Sent, message, end_stream, panic, StaticProvider, new_static, static_index, get_static,
}

one : (j : ℕ) → j + 1 ≡ suc j
one j = omega arith

module _ {M : Type 0} where
  -- The provider after `j` calls.
  abbrev pub static_after : ℕ → StaticProvider M → StaticProvider M
  static_after zero m = m
  static_after (suc j) m = (get_static (static_after j m)).1

  -- How many messages a stream has.
  abbrev pub static_total : ℕ → List M → ℕ
  static_total count inputs = if ltb 0 count then count else length inputs

  record Stands (count : ℕ) (inputs : List M) (j : ℕ) (m : StaticProvider M) : Type 0 where
    same_inputs : m.inputs ≡ inputs
    same_count : m.stream_call_count ≡ count
    at : m.counter ≡ j
    turn : j < static_total count inputs → static_index m ≡ j % length inputs

  get_elem?-some : (xs : List M) (i : ℕ) → i < length xs → (x : M) × (get_elem? xs i ≡ some x)
  get_elem?-some [] i h = elim h [ ]
  get_elem?-some (x ∷ xs) zero h = (x, refl)
  get_elem?-some (x ∷ xs) (suc i) h = get_elem?-some xs i (omega arith)

  sends :
      {count j : ℕ} {inputs : List M} {m : StaticProvider M}
      → 0 < length inputs
      → Stands count inputs j m
      → j < static_total count inputs
      → (x : M) × (get_elem? inputs (j % length inputs) ≡ some x)
        × (get_static m ≡ (
          message x (j == (static_total count inputs - 1)),
          record m { counter = m.counter + 1; index_counter = static_index m + 1 },
        ))
  unfolding get_static
  sends {count} {j} {inputs} {m} pos s lt =
      let (x, e) = get_elem?-some inputs (j % length inputs) (omega (arith, mod-lt j pos)) in
      (x, e, ground (arith, e, s.turn lt))

  get-Stands :
      {count j : ℕ} {inputs : List M} {m : StaticProvider M}
      → 0 < length inputs
      → Stands count inputs j m
      → j < static_total count inputs
      → Stands count inputs (suc j) (get_static m).1
  get-Stands {count} {j} {inputs} {m} pos s lt =
      let (x, e, made) = sends pos s lt in
      rw made (record {
        same_inputs = s.same_inputs;
        same_count = s.same_count;
        at = omega (arith, s.at);
        turn = λ more. ground (
          arith,
          s.turn lt,
          next-turn (length inputs) j pos,
          mod-eq_of_lt {n = j} {m = length inputs},
          mod-eq_of_lt {n = j + 1} {m = length inputs},
          one j,
        );
      })

  new-Stands :
      (count : ℕ) (inputs : List M)
      → 0 < length inputs
      → Stands count inputs 0 (new_static count inputs)
  unfolding new_static
  new-Stands count inputs pos = record {
    same_inputs = refl;
    same_count = refl;
    at = refl;
    turn = λ more. ground (arith, mod-eq_of_lt {n = 0} {m = length inputs});
  }

  after-Stands :
      (count : ℕ) (inputs : List M) (j : ℕ)
      → 0 < length inputs
      → j ≤ static_total count inputs
      → Stands count inputs j (static_after j (new_static count inputs))
  after-Stands count inputs zero pos h = new-Stands count inputs pos
  after-Stands count inputs (suc j) pos h =
      get-Stands pos (after-Stands count inputs j pos (omega arith)) h

  finishes :
      {count : ℕ} {inputs : List M} {m : StaticProvider M}
      → Stands count inputs (static_total count inputs) m
      → (get_static m).0 ≡ end_stream
  unfolding get_static
  finishes {count} {inputs} {m} s = ground arith

  -- Call `j` of a stream over a list of messages that is not empty sends message `j` modulo their number,
  -- for as many calls as `StreamCallCount` says (one for each message where it is 0), and marks it as the
  -- last one exactly at the end.
  pub get_static-cycles :
      (count : ℕ) (inputs : List M) (j : ℕ)
      → 0 < length inputs
      → j < static_total count inputs
      → (x : M) × (get_elem? inputs (j % length inputs) ≡ some x)
        × ((get_static (static_after j (new_static count inputs))).0
            ≡ message x (j == (static_total count inputs - 1)))
  get_static-cycles count inputs j pos lt =
      let (x, e, made) = sends pos (after-Stands count inputs j pos (omega arith)) lt in
      (x, e, ap (λ (r : Sent M × StaticProvider M). r.0) made)

  -- The call after the last message of a stream over a list that is not empty ends the stream.
  pub get_static-ends :
      (count : ℕ) (inputs : List M)
      → 0 < length inputs
      → (get_static (static_after (static_total count inputs) (new_static count inputs))).0
        ≡ end_stream
  get_static-ends count inputs pos =
      finishes (after-Stands count inputs (static_total count inputs) pos (omega arith))

  -- With no message at all and a `StreamCallCount` the first call panics.
  pub get_static-empty :
      (count : ℕ) → 0 < count → (get_static (new_static {M = M} count [])).0 ≡ panic
  unfolding get_static new_static
  get_static-empty count h = ground arith
