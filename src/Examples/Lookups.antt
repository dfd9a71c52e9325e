-- ===== src/Examples/Lookups.antt =====
-- protodesc/protodesc.go: a file with two others that it imports, and two that import each other.
use ghz.Prelude.{ℕ, ◌≡◌, refl, ap, inl, inr, ◌⊎◌, List, [], ◌∷◌, some, if◌then◌else◌, arith}
use ghz.Prelude.Text.{Str, codes, str_eq}
use ghz.Protodesc.{count, split, parse_service_method}
use ghz.Protodesc.Lookup.{
  FileLibrary, found, overflow, get, get_method_desc, get_method_desc_from_proto_set_binary,
  resolve_file_descriptor, unresolved_of,
}
use ghz.Protodesc.Lookup.Resolve.{
  Ends, AllRanked-IsRanked, IsCircular, get_method_desc_from_proto_set_binary-Ends,
  resolve_file_descriptor-IsCircular,
}

-- A file is its name and its imports, a resolved file its name; every file has every service, and a service
-- every method.
abbrev files : FileLibrary ℕ (Str × List Str) Str Str Str
files = record {
  name_of = λ fd. fd.0;
  dependencies = λ fd. fd.1;
  resolved_name = λ f. f;
  create = λ fd ds. found fd.0;
  find_symbol = λ f s. some (some s);
  find_method = λ s m. some m;
}

abbrev set : List (Str × List Str)
set = (codes "a", codes "b" ∷ codes "c" ∷ []) ∷ (codes "b", codes "c" ∷ []) ∷ (codes "c", []) ∷ []

abbrev file_rank : Str → ℕ
file_rank s = if str_eq s (codes "a") then 2 else if str_eq s (codes "b") then 1 else 0

-- Ranks 2, 1 and 0, above the imports', and room for three calls.
get_method_desc_from_proto_set_binary-Ends_example :
    Ends (get_method_desc_from_proto_set_binary files 3 (codes "p.S/M") (found set))
unfolding str_eq
get_method_desc_from_proto_set_binary-Ends_example =
    get_method_desc_from_proto_set_binary-Ends files file_rank 3 (codes "p.S/M") set (λ fd ds. tt)
      (AllRanked-IsRanked files file_rank (unresolved_of files set [])
        ((omega arith, (omega arith, tt)), ((omega arith, tt), (tt, tt))))
      (omega arith, (omega arith, (omega arith, tt)))

-- The method is found in the file that is read first.
lookup_test :
    get_method_desc_from_proto_set_binary files 3 (codes "p.S/M") (found set) ≡ found (codes "M")
unfolding get_method_desc_from_proto_set_binary get_method_desc parse_service_method str_eq
    resolve_file_descriptor count split
lookup_test = refl

abbrev circle : List (Str × (Str × List Str))
circle = (codes "a", (codes "a", codes "b" ∷ [])) ∷ (codes "b", (codes "b", codes "a" ∷ [])) ∷ []

abbrev InCircle : Str → Type 0
InCircle n = (n ≡ codes "a") ⊎ (n ≡ codes "b")

circle-IsCircular : IsCircular files circle [] InCircle
unfolding str_eq
circle-IsCircular = record {
  imports = λ n q. elim q [
    | inl e ↦ (_, codes "b", [], ap (λ k. get k circle) e, refl, inr refl)
    | inr e ↦ (_, codes "a", [], ap (λ k. get k circle) e, refl, inl refl)
  ];
  unknown = λ n q. refl;
}

resolve_file_descriptor-IsCircular_example :
    resolve_file_descriptor files 1000 circle [] (codes "a") ≡ overflow
resolve_file_descriptor-IsCircular_example =
    resolve_file_descriptor-IsCircular files 1000 circle [] InCircle (codes "a") circle-IsCircular
      (inl refl)
