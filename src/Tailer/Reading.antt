-- ===== src/Tailer/Reading.antt =====
-- The loop of Run in pkg/tailer/tailer.go.
use slo_exporter.Prelude.{ℕ, ◌+◌, String, Bool, true, not, List, [], ◌∷◌, ◌++◌, if◌then◌else◌}
use slo_exporter.Event.{Raw}
use slo_exporter.Runtime.{Float64, TextLibrary}
use slo_exporter.Prelude.Results.{Result, ok, err}
use slo_exporter.Tailer.{
  Tailer, Marks, Telling, Selected, line, lines_closed, tick, shutdown, mark_offset_position,
  process_line, ParseError,
}

-- What the loop changes: the counters, the marks, its variable `quitting`, how often it has told the
-- tail library to stop, and `done`, which the deferred function sets.
pub record Running : Type 0 where
  pub lines_read_total : ℕ
  pub malformed_lines_total : ℕ
  pub marks : Marks
  pub quitting : Bool
  pub stops : ℕ
  pub done : Bool

-- The case of a tick.
unfoldable pub on_tick : Running → Telling → Running
on_tick r told =
    if not r.quitting then record r { marks = (mark_offset_position told r.marks).1 } else r

-- The case of a shutdown.
unfoldable pub on_shutdown : Running → Telling → Running
on_shutdown r told =
    if not r.quitting
    then record r {
      quitting = true;
      marks = (mark_offset_position told r.marks).1;
      stops = r.stops + 1;
    }
    else r

-- Stop: the loop receives what it sends.
unfoldable pub stop : Running → Telling → Running
stop r told = if not r.done then on_shutdown r told else r

module _ (fl : Float64) (lib : TextLibrary)
    (find_string_submatch : lib.Regexp → String → List String)
    (subexp_names : lib.Regexp → List String) where
  open fl use {F}

  abbrev pub processed : Tailer fl lib → String → Result ParseError (Raw F)
  processed t text = process_line fl lib find_string_submatch subexp_names t text

  -- The case of a line.
  unfoldable pub on_line : Tailer fl lib → Running → String → Running × List (Raw F)
  on_line t r text = elim (processed t text) [
    | err e ↦ (
      record r {
        lines_read_total = r.lines_read_total + 1;
        malformed_lines_total = r.malformed_lines_total + 1;
      },
      [],
    )
    | ok e ↦ (record r { lines_read_total = r.lines_read_total + 1 }, e ∷ [])
  ]

  -- The loop of Run on what its select receives, with the events that it sends.
  unfoldable pub run : Tailer fl lib → Running → List Selected → Running × List (Raw F)
  run t r [] = (r, [])
  run t r (line text ∷ rest) =
      let now = on_line t r text in let later = run t now.0 rest in (later.0, now.1 ++ later.1)
  run t r (lines_closed ∷ rest) = (record r { done = true }, [])
  run t r (tick told ∷ rest) = run t (on_tick r told) rest
  run t r (shutdown told ∷ rest) = run t (on_shutdown r told) rest
