-- ===== src/Tailer/Lines.antt =====
-- The lines that the loop of Run in pkg/tailer/tailer.go reads.
use slo_exporter.Prelude.{◌+◌, ◌≡◌, refl, String, List, [], ◌∷◌, map, length, arith}
use slo_exporter.Runtime.{Float64, TextLibrary}
use slo_exporter.Prelude.Results.{oks, count_errors, oks_cons, errors_cons}
use slo_exporter.Tailer.{Tailer, Selected, line, lines_closed, tick, shutdown}
use slo_exporter.Tailer.Reading.{Running, on_tick, on_shutdown, on_line, run, processed}

-- The lines up to the end of the input.
abbrev pub lines_of : List Selected → List String
lines_of [] = []
lines_of (line text ∷ rest) = text ∷ lines_of rest
lines_of (lines_closed ∷ rest) = []
lines_of (tick told ∷ rest) = lines_of rest
lines_of (shutdown told ∷ rest) = lines_of rest

module _ (fl : Float64) (lib : TextLibrary)
    (find_string_submatch : lib.Regexp → String → List String)
    (subexp_names : lib.Regexp → List String) where
  open fl use {F}

  counts-on_tick :
      (r : Running) (told : _)
      → ((on_tick r told).lines_read_total ≡ r.lines_read_total)
        × ((on_tick r told).malformed_lines_total ≡ r.malformed_lines_total)
  unfolding on_tick
  counts-on_tick r told = ground arith

  counts-on_shutdown :
      (r : Running) (told : _)
      → ((on_shutdown r told).lines_read_total ≡ r.lines_read_total)
        × ((on_shutdown r told).malformed_lines_total ≡ r.malformed_lines_total)
  unfolding on_shutdown
  counts-on_shutdown r told = ground arith

  on_line_result :
      (t : Tailer fl lib) (r : Running) (text : String)
      → let now = on_line fl lib find_string_submatch subexp_names t r text in
        let result = processed fl lib find_string_submatch subexp_names t text in
        (now.1 ≡ oks (result ∷ []))
        × (now.0.lines_read_total ≡ r.lines_read_total + 1)
        × (now.0.malformed_lines_total ≡ r.malformed_lines_total + count_errors (result ∷ []))
  unfolding on_line
  on_line_result t r text = ground arith

  -- Whatever ticks and shutdowns come between the lines, the tailer sends the events of the lines
  -- that it can process, in their order and up to the end of the input; it counts every line, and
  -- every other line as malformed.
  pub run-lines :
      (t : Tailer fl lib) (r : Running) (selected : List Selected)
      → let texts = lines_of selected in
        let results = map (processed fl lib find_string_submatch subexp_names t) texts in
        let after = run fl lib find_string_submatch subexp_names t r selected in
        (after.1 ≡ oks results)
        × (after.0.lines_read_total ≡ r.lines_read_total + length texts)
        × (after.0.malformed_lines_total ≡ r.malformed_lines_total + count_errors results)
  unfolding run on_line
  run-lines t r [] = (refl, omega arith, omega arith)
  run-lines t r (lines_closed ∷ rest) = (refl, omega arith, omega arith)
  run-lines t r (tick told ∷ rest) =
      let later = run-lines t (on_tick r told) rest in
      let same = counts-on_tick r told in
      (later.0, omega (arith, later.1, same), omega (arith, later.2, same))
  run-lines t r (shutdown told ∷ rest) =
      let later = run-lines t (on_shutdown r told) rest in
      let same = counts-on_shutdown r told in
      (later.0, omega (arith, later.1, same), omega (arith, later.2, same))
  run-lines t r (line text ∷ rest) =
      let now = on_line_result t r text in
      let result = processed fl lib find_string_submatch subexp_names t text in
      let results = map (processed fl lib find_string_submatch subexp_names t) (lines_of rest) in
      let later = run-lines t (on_line fl lib find_string_submatch subexp_names t r text).0 rest in
      (
        rw (now.0, later.0) (oks_cons result results),
        omega (arith, later.1, now.1),
        omega (arith, later.2, now.2, errors_cons result results),
      )
