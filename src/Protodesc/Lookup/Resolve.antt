-- ===== src/Protodesc/Lookup/Resolve.antt =====
-- protodesc/protodesc.go, `resolveFileDescriptor`: when the recursion over dependencies ends.
use ghz.Prelude.{
  ℕ, zero, suc, ◌<◌, ◌≡◌, refl, sym, ◌∙◌, subst, true, false, inl, inr, List, [], ◌∷◌, Option, none,
  some, arith, Bool-cases, Option-cases, map,
}
use mathlib.Core.Option.{none-ne-some, some-injective}
use ghz.Prelude.Text.{Str, str_eq, str_eq-eq}
use ghz.Protodesc.{Parsed, parse_service_method}
use ghz.Protodesc.Lookup.{
  or_no_method, in_service, Lookup, found, failed, crashed, overflow, ◌>>=◌, get, FileLibrary,
  resolve_all, resolve_file_descriptor, unresolved_of, resolve_files, find_service_symbol,
  method_in, get_method_desc, get_method_desc_from_proto_set_binary,
}

-- The stack does not run out.
abbrev pub Ends : {E A : Type 0} → Lookup E A → Type 0
Ends (found a) = Unit {0}
Ends (failed e) = Unit {0}
Ends crashed = Unit {0}
Ends overflow = ⊥

bind-Ends :
    {E A B : Type 0} (m : Lookup E A) (k : A → Lookup E B)
    → Ends m
    → ((a : A) → Ends (k a))
    → Ends (m >>= k)
bind-Ends (found a) k h e = e a
bind-Ends (failed x) k h e = tt
bind-Ends crashed k h e = tt
bind-Ends overflow k h e = absurd h

-- Every name has a rank below `n`.
abbrev pub AllBelow : (Str → ℕ) → ℕ → List Str → Type 0
AllBelow rank n [] = Unit {0}
AllBelow rank n (s ∷ ss) = (rank s < n) × AllBelow rank n ss

first_lem :
    {P : Type 0} (j n : Str) (u : P) (m : List (Str × P))
    → str_eq j n ≡ true
    → get n ((j, u) ∷ m) ≡ some u
first_lem j n u m h = rw h refl

rest_lem :
    {P : Type 0} (j n : Str) (u : P) (m : List (Str × P))
    → str_eq j n ≡ false
    → get n ((j, u) ∷ m) ≡ get n m
rest_lem j n u m h = rw h refl

module _ {E P F S M : Type 0} (lib : FileLibrary E P F S M) where
  -- A file ranks above its dependencies.
  abbrev pub IsRanked : (Str → ℕ) → List (Str × P) → Type 0
  IsRanked rank unresolved =
      (n : Str) (fd : P) → get n unresolved ≡ some fd → AllBelow rank (rank n) (lib.dependencies fd)

  -- The same, of each file of the list.
  abbrev pub AllRanked : (Str → ℕ) → List (Str × P) → Type 0
  AllRanked rank [] = Unit {0}
  AllRanked rank ((j, fd) ∷ m) = AllBelow rank (rank j) (lib.dependencies fd) × AllRanked rank m

  pub AllRanked-IsRanked :
      (rank : Str → ℕ) (m : List (Str × P)) → AllRanked rank m → IsRanked rank m
  AllRanked-IsRanked rank [] h n fd e = absurd (none-ne-some fd e)
  AllRanked-IsRanked rank ((j, u) ∷ m) h n fd e = elim (Bool-cases (str_eq j n)) [
    | inl same ↦
        let this : u ≡ fd = some-injective u fd (sym (first_lem j n u m same) ∙ e) in
        subst (λ v. AllBelow rank (rank n) (lib.dependencies v)) this
          (subst (λ k. AllBelow rank (rank k) (lib.dependencies u)) (str_eq-eq j n same) h.0)
    | inr other ↦ AllRanked-IsRanked rank m h.1 n fd (sym (rest_lem j n u m other) ∙ e)
  ]

  module _ (creates : (fd : P) (ds : List F) → Ends (lib.create fd ds)) (rank : Str → ℕ)
      (unresolved : List (Str × P)) (ranked : IsRanked rank unresolved) where
    resolve_all-Ends :
        (resolve : List (Str × F) → Str → Lookup E (F × List (Str × F))) (n : ℕ) (deps : List Str)
        (resolved : List (Str × F))
        → ((r : List (Str × F)) (s : Str) → rank s < n → Ends (resolve r s))
        → AllBelow rank n deps
        → Ends (resolve_all lib resolve deps resolved)
    unfolding resolve_all
    resolve_all-Ends resolve n [] resolved h b = tt
    resolve_all-Ends resolve n (dep ∷ deps) resolved h b =
        bind-Ends (resolve resolved dep) _ (h resolved dep b.0) λ first.
          bind-Ends (resolve_all lib resolve deps first.1) _
            (resolve_all-Ends resolve n deps first.1 h b.1) λ rest. tt

    resolve-Ends :
        (fuel : ℕ) (resolved : List (Str × F)) (name : Str)
        → rank name < fuel
        → Ends (resolve_file_descriptor lib fuel unresolved resolved name)
    unfolding resolve_file_descriptor
    resolve-Ends zero resolved name h = absurd (omega arith)
    resolve-Ends (suc fuel) resolved name h = elim (Option-cases (get name resolved)) [
      | inr (r, e) ↦ rw (resolve_file_descriptor, e) tt
      | inl new ↦ elim (Option-cases (get name unresolved)) [
        | inl e ↦ rw (resolve_file_descriptor, new, e) tt
        | inr (fd, e) ↦
            rw (resolve_file_descriptor, new, e)
              (bind-Ends
                (resolve_all lib (resolve_file_descriptor lib fuel unresolved) (lib.dependencies fd)
                  resolved)
                _
                (resolve_all-Ends (resolve_file_descriptor lib fuel unresolved) (rank name)
                  (lib.dependencies fd) resolved
                  (λ r s l. resolve-Ends fuel r s (omega (arith, l, h))) (ranked name fd e))
                λ deps. bind-Ends (lib.create fd deps.0) _ (creates fd deps.0) λ result. tt)
      ]
    ]

    resolve_files-Ends :
        (fuel : ℕ) (fds : List P) (resolved : List (Str × F))
        → AllBelow rank fuel (map lib.name_of fds)
        → Ends (resolve_files lib fuel unresolved fds resolved)
    unfolding resolve_files
    resolve_files-Ends fuel [] resolved h = tt
    resolve_files-Ends fuel (fd ∷ fds) resolved h =
        bind-Ends (resolve_file_descriptor lib fuel unresolved resolved (lib.name_of fd)) _
          (resolve-Ends fuel resolved (lib.name_of fd) h.0) λ r. resolve_files-Ends fuel fds r.1 h.1

  find_service_symbol-Ends :
      (files : List (Str × F)) (name : Str) → Ends (find_service_symbol lib files name)
  unfolding find_service_symbol
  find_service_symbol-Ends [] name = tt
  find_service_symbol-Ends ((k, fd) ∷ files) name = elim (Option-cases (lib.find_symbol fd name)) [
    | inl e ↦ rw (find_service_symbol, e) (find_service_symbol-Ends files name)
    | inr (d, e) ↦ rw (find_service_symbol, e) tt
  ]

  or_no_method-Ends : (svc mth : Str) (m : Option M) → Ends (or_no_method lib svc mth m)
  or_no_method-Ends svc mth none = tt
  or_no_method-Ends svc mth (some mtd) = tt

  in_service-Ends : (svc mth : Str) (dsc : Option S) → Ends (in_service lib svc mth dsc)
  in_service-Ends svc mth none = tt
  in_service-Ends svc mth (some sd) = or_no_method-Ends svc mth (lib.find_method sd mth)

  method_in-Ends : (files : List (Str × F)) (p : Parsed) → Ends (method_in lib files p)
  unfolding method_in
  method_in-Ends files (Parsed.failed e) = tt
  method_in-Ends files Parsed.panic = tt
  method_in-Ends files (Parsed.method svc mth) =
      bind-Ends (find_service_symbol lib files svc) _ (find_service_symbol-Ends files svc)
        (in_service-Ends svc mth)

  -- A protoset in which every file ranks above its dependencies, so that no import is circular: the lookup
  -- of a method in it ends, whatever the call is, when the stack has room for more calls than the highest
  -- rank. `desc.CreateFileDescriptor` ends.
  pub get_method_desc_from_proto_set_binary-Ends :
      (rank : Str → ℕ) (fuel : ℕ) (call : Str) (fds : List P)
      → ((fd : P) (ds : List F) → Ends (lib.create fd ds))
      → IsRanked rank (unresolved_of lib fds [])
      → AllBelow rank fuel (map lib.name_of fds)
      → Ends (get_method_desc_from_proto_set_binary lib fuel call (found fds))
  unfolding get_method_desc_from_proto_set_binary get_method_desc
  get_method_desc_from_proto_set_binary-Ends rank fuel call fds creates ranked below =
      bind-Ends (resolve_files lib fuel (unresolved_of lib fds []) fds []) _
        (resolve_files-Ends creates rank (unresolved_of lib fds []) ranked fuel fds [] below)
        λ files. method_in-Ends files (parse_service_method call)

  -- A set of unresolved files, each of which first imports a file of the set.
  pub record IsCircular (unresolved : List (Str × P)) (resolved : List (Str × F)) (Q : Str → Type 0)
      : Type 0 where
    pub imports :
        (n : Str)
        → Q n
        → (fd : P) × (dep : Str) × (deps : List Str) × (get n unresolved ≡ some fd)
          × (lib.dependencies fd ≡ dep ∷ deps)
          × Q dep
    pub unknown : (n : Str) → Q n → get n resolved ≡ none

  -- Files that import each other in a circle, as their first imports: the recursion never ends, however
  -- much stack there is.
  pub resolve_file_descriptor-IsCircular :
      (fuel : ℕ) (unresolved : List (Str × P)) (resolved : List (Str × F)) (Q : Str → Type 0)
      (name : Str)
      → IsCircular unresolved resolved Q
      → Q name
      → resolve_file_descriptor lib fuel unresolved resolved name ≡ overflow
  unfolding resolve_file_descriptor resolve_all
  resolve_file_descriptor-IsCircular zero unresolved resolved Q name c q = refl
  resolve_file_descriptor-IsCircular (suc fuel) unresolved resolved Q name c q =
      let (fd, dep, deps, here, first, next) = c.imports name q in
      rw (
        resolve_file_descriptor,
        c.unknown name q,
        here,
        first,
        resolve_all,
        resolve_file_descriptor-IsCircular fuel unresolved resolved Q dep c next,
      )
