-- ===== src/Printer/Influx/Lines.antt =====
-- printer/influx.go: a line has its measurement with the tags, its fields and its time, and no more parts.
use ghz.Prelude.{List}
