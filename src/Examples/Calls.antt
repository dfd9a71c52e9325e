-- ===== src/Examples/Calls.antt =====
-- protodesc/protodesc.go: names of calls.
use ghz.Prelude.Text.{codes}
use ghz.Protodesc.{parse_service_method}
use ghz.Protodesc.Sound.{IsRead, parse_service_method-IsRead}

parse_service_method-IsRead_example : IsRead (codes "a.B/c") (parse_service_method (codes ".a.B/c"))
parse_service_method-IsRead_example = parse_service_method-IsRead (codes ".a.B/c")
