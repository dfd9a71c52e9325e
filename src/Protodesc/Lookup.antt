-- ===== src/Protodesc/Lookup.antt =====
-- protodesc/protodesc.go: the descriptor of a method in a set of files. A file of a protoset is a `P`, a
-- resolved file an `F`; what the libraries read off them or make of them is a parameter. A map is an
-- association list, gone through in its order. The recursion over dependencies takes fuel.
pub mod Resolve
use ghz.Prelude.{ℕ, zero, suc, Bool, List, [], ◌∷◌, Option, none, some, map, if◌then◌else◌, ◌==◌}
use ghz.Prelude.Text.{Str, str_eq}
use ghz.Protodesc.{Parsed, ParseError, parse_service_method, slash, dot}

pub data LookupError (E : Type 0) : Type 0 where
  bad_call : ParseError → LookupError E
  cannot_find_service : Str → LookupError E
  no_such_method : Str → Str → LookupError E
  no_descriptor : Str → LookupError E
  no_reflection : LookupError E
  external : E → LookupError E

-- A lookup's outcome; `crashed` is an index out of range, `overflow` a recursion that has run out of stack.
pub data Lookup (E A : Type 0) : Type 0 where
  found : A → Lookup E A
  failed : LookupError E → Lookup E A
  crashed : Lookup E A
  overflow : Lookup E A

infixl 5 ◌>>=◌
abbrev pub ◌>>=◌ : {E A B : Type 0} → Lookup E A → (A → Lookup E B) → Lookup E B
found a >>= k = k a
failed e >>= k = failed e
crashed >>= k = crashed
overflow >>= k = overflow

-- A map from file names.
abbrev pub get : {A : Type 0} → Str → List (Str × A) → Option A
get k [] = none
get k ((j, a) ∷ m) = let rest = get k m in if str_eq j k then some a else rest

-- A write takes the place of what was there.
abbrev pub put : {A : Type 0} → Str → A → List (Str × A) → List (Str × A)
put k a [] = (k, a) ∷ []
put k a ((j, b) ∷ m) = let rest = put k a m in if str_eq j k then (j, a) ∷ m else (j, b) ∷ rest

-- What the code asks the libraries: the name and the dependencies of an unresolved file, the name of a
-- resolved one, `desc.CreateFileDescriptor`, `FindSymbol` (none is nil) with whether the symbol is a
-- service (`S`), and `FindMethodByName`.
pub record FileLibrary (E P F S M : Type 0) : Type 0 where
  pub name_of : P → Str
  pub dependencies : P → List Str
  pub resolved_name : F → Str
  pub create : P → List F → Lookup E F
  pub find_symbol : F → Str → Option (Option S)
  pub find_method : S → Str → Option M

module _ {E P F S M : Type 0} (lib : FileLibrary E P F S M) where
  open lib use {name_of, dependencies, resolved_name, create, find_symbol, find_method}

  -- The loop over the dependencies; `resolve` is the call for one of them.
  unfoldable pub resolve_all :
      (List (Str × F) → Str → Lookup E (F × List (Str × F)))
      → List Str
      → List (Str × F)
      → Lookup E (List F × List (Str × F))
  resolve_all resolve [] resolved = found ([], resolved)
  resolve_all resolve (dep ∷ deps) resolved = resolve resolved dep >>= λ first.
      resolve_all resolve deps first.1 >>= λ rest. found (first.0 ∷ rest.0, rest.1)

  unfoldable pub resolve_file_descriptor :
      ℕ → List (Str × P) → List (Str × F) → Str → Lookup E (F × List (Str × F))
  unfolding resolve_all
  resolve_file_descriptor zero unresolved resolved filename = overflow
  resolve_file_descriptor (suc fuel) unresolved resolved filename = elim (get filename resolved) [
    | some r ↦ found (r, resolved)
    | none ↦ elim (get filename unresolved) [
      | none ↦ failed (no_descriptor filename)
      | some fd ↦
          resolve_all (resolve_file_descriptor fuel unresolved) (dependencies fd) resolved
          >>= λ deps. create fd deps.0 >>= λ result. found (result, put filename result deps.1)
    ]
  ]

  abbrev pub unresolved_of : List P → List (Str × P) → List (Str × P)
  unresolved_of [] m = m
  unresolved_of (fd ∷ fds) m = unresolved_of fds (put (name_of fd) fd m)

  unfoldable pub resolve_files :
      ℕ → List (Str × P) → List P → List (Str × F) → Lookup E (List (Str × F))
  resolve_files fuel unresolved [] resolved = found resolved
  resolve_files fuel unresolved (fd ∷ fds) resolved =
      resolve_file_descriptor fuel unresolved resolved (name_of fd) >>= λ r.
      resolve_files fuel unresolved fds r.1

  unfoldable pub find_service_symbol : List (Str × F) → Str → Lookup E (Option S)
  find_service_symbol [] name = failed (cannot_find_service name)
  find_service_symbol ((k, fd) ∷ files) name = elim (find_symbol fd name) [
    | some dsc ↦ found dsc
    | none ↦ find_service_symbol files name
  ]

  -- `getMethodDesc` for a call that is parsed. A symbol that is no service is not found.
  abbrev pub or_no_method : Str → Str → Option M → Lookup E M
  or_no_method svc mth none = failed (no_such_method svc mth)
  or_no_method svc mth (some mtd) = found mtd

  abbrev pub in_service : Str → Str → Option S → Lookup E M
  in_service svc mth none = failed (cannot_find_service svc)
  in_service svc mth (some sd) = or_no_method svc mth (find_method sd mth)

  unfoldable pub method_in : List (Str × F) → Parsed → Lookup E M
  unfolding find_service_symbol
  method_in files (Parsed.failed e) = failed (bad_call e)
  method_in files Parsed.panic = crashed
  method_in files (Parsed.method svc mth) = find_service_symbol files svc >>= in_service svc mth

  unfoldable pub get_method_desc : Str → List (Str × F) → Lookup E M
  unfolding method_in
  get_method_desc call files = method_in files (parse_service_method call)

  -- The name that the parser is given.
  abbrev pub file_name : (Str → Bool) → (Str → Str) → Str → Str
  file_name is_abs base proto = if is_abs proto then base proto else proto

  -- `GetMethodDescFromProto`; `parse` is `Parser.ParseFiles` for one file.
  unfoldable pub get_method_desc_from_proto :
      (Str → Bool) → (Str → Str) → (Str → Lookup E (List F)) → Str → Str → Lookup E M
  unfolding get_method_desc
  get_method_desc_from_proto is_abs base parse call proto =
      parse (file_name is_abs base proto) >>= λ fds. elim fds [
        | [] ↦ crashed
        | fd ∷ _ ↦ get_method_desc call ((resolved_name fd, fd) ∷ [])
      ]

  -- `GetMethodDescFromProtoSetBinary`, with what `proto.Unmarshal` gives.
  unfoldable pub get_method_desc_from_proto_set_binary : ℕ → Str → Lookup E (List P) → Lookup E M
  unfolding resolve_files get_method_desc
  get_method_desc_from_proto_set_binary fuel call unmarshalled = unmarshalled >>= λ fds.
      resolve_files fuel (unresolved_of fds []) fds [] >>= λ resolved. get_method_desc call resolved

  -- `GetMethodDescFromProtoSet`. Only the texts of errors differ.
  unfoldable pub get_method_desc_from_proto_set :
      ℕ → Str → Lookup E Str → (Str → Lookup E (List P)) → Lookup E M
  unfolding get_method_desc_from_proto_set_binary
  get_method_desc_from_proto_set fuel call read unmarshal =
      read >>= λ b. get_method_desc_from_proto_set_binary fuel call (unmarshal b)

  -- `strings.Replace(call, "/", ".", -1)`.
  abbrev pub with_dots : Str → Str
  with_dots call = map (λ c. if c == slash then dot else c) call

  abbrev pub not_nil : Lookup E M → Lookup E (Option M)
  not_nil m = m >>= λ mtd. found (some mtd)

  abbrev pub reflection_support : (E → Bool) → LookupError E → LookupError E
  reflection_support unimplemented e = elim e [
    | external x ↦ if unimplemented x then no_reflection else external x
    | other ↦ other
  ]

  -- `GetMethodDescFromReflect`; the client answers a file, nil or an error, of which `unimplemented` says
  -- that the server has no reflection. A nil file with no error gives a nil method with no error.
  unfoldable pub get_method_desc_from_reflect :
      (E → Bool) → Str → (Str → Lookup E (Option F)) → Lookup E (Option M)
  unfolding get_method_desc
  get_method_desc_from_reflect unimplemented call file_containing_symbol =
      elim (file_containing_symbol (with_dots call)) [
        | found file ↦ elim file [
          | none ↦ found none
          | some fd ↦ not_nil (get_method_desc (with_dots call) ((resolved_name fd, fd) ∷ []))
        ]
        | failed e ↦ failed (reflection_support unimplemented e)
        | crashed ↦ crashed
        | overflow ↦ overflow
      ]
