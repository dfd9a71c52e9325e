-- ===== src/Examples/Streams.antt =====
-- runner/data.go: streams over two messages.
use ghz.Prelude.{ℕ, ◌≡◌, false, List, [], ◌∷◌, some, arith, get_elem?}
use ghz.Prelude.Text.{Str, codes}
use ghz.Runner.Messages.{message, get_dynamic}
use ghz.Runner.Messages.Dynamic.{always, dynamic_after, fresh_dynamic, get_dynamic-first_pass}

abbrev two : List ℕ
two = 7 ∷ 8 ∷ []

abbrev templates : List Str
templates = codes "a" ∷ codes "b" ∷ []

-- The text of the template, as the message.
abbrev parsed : Str → Str
parsed text = text

get_dynamic-first_pass_example :
    (t : Str) × (get_elem? templates 0 ≡ some t)
    × ((get_dynamic (always parsed) (dynamic_after parsed 3 (fresh_dynamic [] templates 5))).0
        ≡ message t false)
get_dynamic-first_pass_example =
    get_dynamic-first_pass parsed 5 [] templates (omega arith) 3 (omega arith)
