-- ===== src/Runner/Provider/Cache.antt =====
-- runner/data.go, `getDataForCall`: the cache of messages does not show.
use ghz.Prelude.{
  ℕ, zero, suc, ◌%◌, ◌<◌, ◌≡◌, refl, sym, ap, ◌∙◌, subst, ◌⊎◌, inl, inr, true, false, List, [], ◌∷◌,
  Option, none, some, arith, lt→ltb, length, get_elem?, set,
}
use native.Mathlib.Nat.{mod-lt}
use ghz.Prelude.Text.{Str}
use ghz.Runner.Config.{Result, ok}
use ghz.Runner.Payloads.{Codec, create_payloads_from_json}
use ghz.Runner.Provider.{
  DataProvider, fetched, hit, remember, get_json, get_messages, pick, get_data_for_call,
}

-- Every element of the array makes one message, and an entry of the cache is nil or that message.
abbrev pub Agrees : {H O M : Type 0} → Codec H O M → List Str → List (Option M) → List M → Type 0
Agrees codec [] [] [] = Unit {0}
Agrees codec (text ∷ array) (entry ∷ cache) (m ∷ ms) =
    (create_payloads_from_json codec text ≡ ok (m ∷ []))
    × ((entry ≡ none) ⊎ (entry ≡ some m))
    × Agrees codec array cache ms
Agrees codec _ _ _ = ⊥

-- A provider of JSON data that is an array with no actions, for a method that takes one message.
pub record IsArray {H O M : Type 0} (codec : Codec H O M) (ms : List M) (dp : DataProvider M)
    : Type 0 where
  pub json : dp.binary ≡ false
  pub unary : dp.client_streaming ≡ false
  pub static : dp.has_actions ≡ false
  pub agrees : Agrees codec dp.array dp.cached ms

module _ {H O M : Type 0} (codec : Codec H O M) where
  Agrees-length :
      (array : List Str) (cache : List (Option M)) (ms : List M)
      → Agrees codec array cache ms
      → (length cache ≡ length array) × (length ms ≡ length array)
  Agrees-length [] [] [] h = (refl, refl)
  Agrees-length (t ∷ a) (e ∷ c) (m ∷ ms) h =
      let (p, q) = Agrees-length a c ms h.2 in (ap suc p, ap suc q)
  Agrees-length [] [] (m ∷ ms) h = absurd h
  Agrees-length [] (e ∷ c) ms h = absurd h
  Agrees-length (t ∷ a) [] ms h = absurd h
  Agrees-length (t ∷ a) (e ∷ c) [] h = absurd h

  -- Element `i`: its text, its message, and what the cache says.
  Agrees-at :
      (array : List Str) (cache : List (Option M)) (ms : List M) (i : ℕ)
      → Agrees codec array cache ms
      → i < length array
      → (text : Str) × (m : M) × (get_elem? array i ≡ some text)
        × (get_elem? ms i ≡ some m)
        × (create_payloads_from_json codec text ≡ ok (m ∷ []))
        × ((get_elem? cache i ≡ some none) ⊎ (get_elem? cache i ≡ some (some m)))
        × Agrees codec array (set cache i (some m)) ms
  Agrees-at (t ∷ a) (e ∷ c) (m ∷ ms) zero (p, q, r) l = (
    t,
    m,
    refl,
    refl,
    p,
    elim q [ inl x ↦ inl (ap some x) | inr x ↦ inr (ap some x) ],
    (p, inr refl, r),
  )
  Agrees-at (t ∷ a) (e ∷ c) (m ∷ ms) (suc i) (p, q, r) l =
      let (text, x, ga, gm, made, gc, after) = Agrees-at a c ms i r (omega arith) in
      (text, x, ga, gm, made, gc, (p, q, after))
  Agrees-at [] [] [] i h l = absurd (omega arith)
  Agrees-at [] [] (m ∷ ms) i h l = absurd h
  Agrees-at [] (e ∷ c) ms i h l = absurd h
  Agrees-at (t ∷ a) [] ms i h l = absurd h
  Agrees-at (t ∷ a) (e ∷ c) [] i h l = absurd h

hit-some :
    {M : Type 0} (i : ℕ) (cache : List (Option M)) (m : M)
    → get_elem? cache i ≡ some (some m)
    → hit (some i) cache ≡ true
hit-some i [] m h = cc
hit-some i (e ∷ cache) m h = rw (hit, h)

hit-none :
    {M : Type 0} (i : ℕ) (cache : List (Option M))
    → get_elem? cache i ≡ some none
    → hit (some i) cache ≡ false
hit-none i [] h = refl
hit-none i (e ∷ cache) h = rw (hit, h)

module _ {H O M : Type 0} (codec : Codec H O M) (template : Option (ℕ → Str → Result H Str))
    (number : ℕ) where
  pick-one :
      (m : M) (dp : DataProvider M)
      → dp.client_streaming ≡ false
      → pick codec template number (fetched (some m ∷ []) dp) ≡ fetched (some m ∷ []) dp
  unfolding pick
  pick-one m dp u = let first : number % 1 ≡ 0 = omega arith in ground (arith, u)

  pick-cached :
      (cache : List (Option M)) (m : M) (dp : DataProvider M)
      → dp.client_streaming ≡ false
      → 0 < length cache
      → get_elem? cache (number % length cache) ≡ some (some m)
      → pick codec template number (fetched cache dp) ≡ fetched (some m ∷ []) dp
  unfolding pick
  pick-cached cache m dp u l g = ground (arith, u, g)

  messages-cached :
      (i : ℕ) (text : Str) (m : M) (dp : DataProvider M)
      → get_elem? dp.cached i ≡ some (some m)
      → get_messages codec template number (some i) text dp ≡ fetched dp.cached dp
  unfolding get_messages
  messages-cached i text m dp g = rw (get_messages, hit-some i dp.cached m g)

  messages-new :
      (i : ℕ) (text : Str) (m : M) (dp : DataProvider M)
      → dp.binary ≡ false
      → dp.has_actions ≡ false
      → create_payloads_from_json codec text ≡ ok (m ∷ [])
      → i < length dp.cached
      → get_elem? dp.cached i ≡ some none
      → get_messages codec template number (some i) text dp
        ≡ fetched (some m ∷ []) (record dp { cached = set dp.cached i (some m) })
  unfolding get_messages get_json remember
  messages-new i text m dp j a p l g = rw (
    get_messages,
    hit-none i dp.cached g,
    j,
    get_json,
    a,
    p,
    remember,
    lt→ltb i (length dp.cached) l,
  )

  indexed :
      (dp : DataProvider M) (text : Str)
      → dp.binary ≡ false
      → dp.client_streaming ≡ false
      → 0 < length dp.array
      → get_elem? dp.array (number % length dp.array) ≡ some text
      → get_data_for_call codec template number dp
        ≡ pick codec template number
            (get_messages codec template number (some (number % length dp.array)) text dp)
  unfolding get_data_for_call
  indexed dp text j u l g = ground (arith, g)

  -- For JSON data that is an array with no actions, whatever the earlier calls were: the call of request
  -- `number` gets the message of element `number` modulo their number, no matter whether it is cached, and
  -- the provider stays as it must be for the next call.
  pub get_data_for_call-IsArray :
      (dp : DataProvider M) (ms : List M)
      → IsArray codec ms dp
      → 0 < length dp.array
      → (m : M) × (dp' : DataProvider M) × (get_elem? ms (number % length ms) ≡ some m)
        × (get_data_for_call codec template number dp ≡ fetched (some m ∷ []) dp')
        × IsArray codec ms dp'
  get_data_for_call-IsArray dp ms v l =
      let i : ℕ = number % length dp.array in
      let below : i < length dp.array = mod-lt number l in
      let (cache_size, size) = Agrees-length codec dp.array dp.cached ms v.agrees in
      let (text, m, found, mine, made, entry, after) =
        Agrees-at codec dp.array dp.cached ms i v.agrees below in
      let first = indexed dp text v.json v.unary l found in
      let turn : get_elem? ms (number % length ms) ≡ some m =
        subst (λ n. get_elem? ms (number % n) ≡ some m) (sym size) mine in
      elim entry [
        | inl new ↦ (
          m,
          record dp { cached = set dp.cached i (some m) },
          turn,
          first
              ∙ ap (pick codec template number)
                  (messages-new i text m dp v.json v.static made (omega (arith, cache_size)) new)
              ∙ pick-one m (record dp { cached = set dp.cached i (some m) }) v.unary,
          record { json = v.json; unary = v.unary; static = v.static; agrees = after },
        )
        | inr old ↦ (
          m,
          dp,
          turn,
          first
              ∙ ap (pick codec template number) (messages-cached i text m dp old)
              ∙ pick-cached dp.cached m dp v.unary (omega (arith, cache_size)) (
                  subst (λ n. get_elem? dp.cached (number % n) ≡ some (some m)) (sym cache_size)
                    old),
          v,
        )
      ]
