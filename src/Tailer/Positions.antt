-- ===== src/Tailer/Positions.antt =====
-- The positions that pkg/tailer/tailer.go starts from and keeps.
use slo_exporter.Prelude.{
  ◌+◌, ◌≡◌, ap, ◌∙◌, refl, String, Bool, true, false, not, Option, none, some, map, List, [], ◌∷◌,
  ℤ, pos, gt_ℤ, is_some, ◌↔◌, ◌&&◌, if◌then◌else◌, arith, Option-cases, inl, inr,
}
use slo_exporter.Runtime.{Float64, TextLibrary}
use slo_exporter.Prelude.Results.{ok}
use slo_exporter.Tailer.{
  TailerConfig, Opening, Tailer, Marks, Telling, Selected, line, lines_closed, tick, shutdown,
  checked_offset, mark_offset_position, new, open_tail, position_file_of,
}
use slo_exporter.Tailer.Reading.{Running, on_tick, on_shutdown, on_line, run}

-- What is told at the ticks before the first shutdown, and at that shutdown.
abbrev pub told_in : List Selected → List Telling
told_in [] = []
told_in (line text ∷ rest) = told_in rest
told_in (lines_closed ∷ rest) = []
told_in (tick told ∷ rest) = told ∷ told_in rest
told_in (shutdown told ∷ rest) = told ∷ []

-- Whether a shutdown comes before the end of the input.
abbrev pub is_shut_down : List Selected → Bool
is_shut_down [] = false
is_shut_down (line text ∷ rest) = is_shut_down rest
is_shut_down (lines_closed ∷ rest) = false
is_shut_down (tick told ∷ rest) = is_shut_down rest
is_shut_down (shutdown told ∷ rest) = true

-- The newest of some values, or else an older one.
abbrev pub newest : {A : Type 0} → A → List (Option A) → A
newest a [] = a
newest a (none ∷ rest) = newest a rest
newest a (some b ∷ rest) = newest b rest

-- The offset that is told, as a position; and the size that is told, where an offset is told with it.
abbrev pub position_told : Telling → Option (Option ℤ)
position_told told = elim told.offset [ none ↦ none | some offset ↦ some (some offset) ]

abbrev pub size_told : Telling → Option ℤ
size_told told = elim told.offset [ none ↦ none | some offset ↦ told.size ]

abbrev mark_all : Marks → List Telling → Marks
mark_all marks [] = marks
mark_all marks (told ∷ rest) = mark_all (mark_offset_position told marks).1 rest

mark_all-newest :
    (marks : Marks) (tellings : List Telling)
    → ((mark_all marks tellings).position ≡ newest marks.position (map position_told tellings))
      × ((mark_all marks tellings).file_offset_bytes
          ≡ newest marks.file_offset_bytes (map (λ (t : Telling). t.offset) tellings))
      × ((mark_all marks tellings).file_size_bytes
          ≡ newest marks.file_size_bytes (map size_told tellings))
unfolding mark_offset_position
mark_all-newest marks [] = (refl, refl, refl)
mark_all-newest marks (told ∷ rest) =
    let later = mark_all-newest (mark_offset_position told marks).1 rest in
    elim (Option-cases told.offset) [
      | inl untold ↦ ground (arith, later)
      | inr (offset, known) ↦ elim (Option-cases told.size) [
        | inl unsized ↦ ground (arith, later)
        | inr (size, sized) ↦ ground (arith, later)
      ]
    ]

module _ (fl : Float64) (lib : TextLibrary)
    (find_string_submatch : lib.Regexp → String → List String)
    (subexp_names : lib.Regexp → List String) where
  open fl use {F}

  abbrev after : Tailer fl lib → Running → List Selected → Running
  after t r selected = (run fl lib find_string_submatch subexp_names t r selected).0

  on_line_same :
      (t : Tailer fl lib) (r : Running) (text : String)
      → let r' = (on_line fl lib find_string_submatch subexp_names t r text).0 in
        (r'.marks ≡ r.marks) × (r'.quitting ≡ r.quitting) × (r'.stops ≡ r.stops)
  unfolding on_line
  on_line_same t r text = ground arith

  on_tick_same : (r : Running) (told : Telling) → r.quitting ≡ true → on_tick r told ≡ r
  unfolding on_tick
  on_tick_same r told h = ground arith

  on_shutdown_same : (r : Running) (told : Telling) → r.quitting ≡ true → on_shutdown r told ≡ r
  unfolding on_shutdown
  on_shutdown_same r told h = ground arith

  -- Once the loop is quitting, nothing is marked and the tail library is not told to stop again.
  run-quitting :
      (t : Tailer fl lib) (r : Running) (selected : List Selected)
      → r.quitting ≡ true
      → ((after t r selected).marks ≡ r.marks) × ((after t r selected).stops ≡ r.stops)
  unfolding run
  run-quitting t r [] h = (refl, refl)
  run-quitting t r (lines_closed ∷ rest) h = (refl, refl)
  run-quitting t r (tick told ∷ rest) h =
      rw (on_tick_same r told h, after) (run-quitting t r rest h)
  run-quitting t r (shutdown told ∷ rest) h =
      rw (on_shutdown_same r told h, after) (run-quitting t r rest h)
  run-quitting t r (line text ∷ rest) h =
      let same = on_line_same t r text in
      let later =
        run-quitting t (on_line fl lib find_string_submatch subexp_names t r text).0 rest
          (same.1 ∙ h) in
      (later.0 ∙ same.0, later.1 ∙ same.2)

  on_tick_marks :
      (r : Running) (told : Telling)
      → r.quitting ≡ false
      → ((on_tick r told).marks ≡ (mark_offset_position told r.marks).1)
        × ((on_tick r told).quitting ≡ false)
        × ((on_tick r told).stops ≡ r.stops)
  unfolding on_tick
  on_tick_marks r told h = ground arith

  on_shutdown_marks :
      (r : Running) (told : Telling)
      → r.quitting ≡ false
      → ((on_shutdown r told).marks ≡ (mark_offset_position told r.marks).1)
        × ((on_shutdown r told).quitting ≡ true)
        × ((on_shutdown r told).stops ≡ r.stops + 1)
  unfolding on_shutdown
  on_shutdown_marks r told h = ground arith

  run-mark_all :
      (t : Tailer fl lib) (r : Running) (selected : List Selected)
      → r.quitting ≡ false
      → ((after t r selected).marks ≡ mark_all r.marks (told_in selected))
        × ((after t r selected).stops ≡ (if is_shut_down selected then r.stops + 1 else r.stops))
  unfolding run
  run-mark_all t r [] h = (refl, refl)
  run-mark_all t r (lines_closed ∷ rest) h = (refl, refl)
  run-mark_all t r (tick told ∷ rest) h =
      let now = on_tick_marks r told h in
      let later = run-mark_all t (on_tick r told) rest now.1 in
      (
        later.0 ∙ ap (λ m. mark_all m (told_in rest)) now.0,
        later.1 ∙ ap (λ n. if is_shut_down rest then n + 1 else n) now.2,
      )
  run-mark_all t r (shutdown told ∷ rest) h =
      let now = on_shutdown_marks r told h in
      let later = run-quitting t (on_shutdown r told) rest now.1 in
      (later.0 ∙ now.0, later.1 ∙ now.2)
  run-mark_all t r (line text ∷ rest) h =
      let same = on_line_same t r text in
      let later =
        run-mark_all t (on_line fl lib find_string_submatch subexp_names t r text).0 rest
          (same.1 ∙ h) in
      (
        later.0 ∙ ap (λ m. mark_all m (told_in rest)) same.0,
        later.1 ∙ ap (λ n. if is_shut_down rest then n + 1 else n) same.2,
      )

  -- For a loop that is not quitting yet, what is told at the ticks up to the first shutdown and at that
  -- shutdown decides: the stored position and the gauge of the offset are the newest offset that was
  -- told, the gauge of the size is the newest size that was told together with an offset, and each
  -- stays as it was where there is none. The tail library is told to stop once if there is a
  -- shutdown, and never otherwise.
  pub run-marks :
      (t : Tailer fl lib) (r : Running) (selected : List Selected)
      → r.quitting ≡ false
      → let r' = (run fl lib find_string_submatch subexp_names t r selected).0 in
        let tellings = told_in selected in
        (r'.marks.position ≡ newest r.marks.position (map position_told tellings))
        × (r'.marks.file_offset_bytes
            ≡ newest r.marks.file_offset_bytes (map (λ (t : Telling). t.offset) tellings))
        × (r'.marks.file_size_bytes ≡ newest r.marks.file_size_bytes (map size_told tellings))
        × (r'.stops ≡ (if is_shut_down selected then r.stops + 1 else r.stops))
  run-marks t r selected h =
      let followed = run-mark_all t r selected h in
      let newest_of = mark_all-newest r.marks (told_in selected) in
      (
        ap (λ (m : Marks). m.position) followed.0 ∙ newest_of.0,
        ap (λ (m : Marks). m.file_offset_bytes) followed.0 ∙ newest_of.1,
        ap (λ (m : Marks). m.file_size_bytes) followed.0 ∙ newest_of.2,
        followed.1,
      )

module _ (fl : Float64) (lib : TextLibrary) where
  -- What opening the tail from an offset needs.
  abbrev pub CanOpen : TailerConfig → Opening → ℤ → Type 0
  CanOpen config opening offset =
      (not config.follow && config.reopen ≡ false)
      × (opening.tail_file offset ≡ true)
      × (is_some (lib.compile config.logline_parse_regexp) ≡ true)
      × (is_some (lib.compile config.empty_group_re) ≡ true)

  open_tail-start_offset :
      (config : TailerConfig) (opening : Opening) (offset : ℤ) (t : Tailer fl lib)
      → open_tail fl lib config opening offset ≡ ok t
      → (t.start_offset ≡ offset) × CanOpen config opening offset
  unfolding open_tail
  open_tail-start_offset config opening offset t e = ground arith

  open_tail-CanOpen :
      (config : TailerConfig) (opening : Opening) (offset : ℤ)
      → CanOpen config opening offset
      → (t : Tailer fl lib) × (open_tail fl lib config opening offset ≡ ok t)
  unfolding open_tail
  open_tail-CanOpen config opening offset (followed, tailed, parses, empties) =
      elim (Option-cases (lib.compile config.logline_parse_regexp)) [
        | inl none_parsed ↦ absurd (ground arith)
        | inr (parse_re, parsed) ↦ elim (Option-cases (lib.compile config.empty_group_re)) [
          | inl none_empty ↦ absurd (ground arith)
          | inr (empty_re, emptied) ↦
              let opened : Tailer fl lib = record {
                filename = config.tailed_file;
                line_parse_regexp = parse_re;
                empty_group_regexp = empty_re;
                start_offset = offset;
              } in
              (opened, ground arith)
        ]
      ]

  -- New starts from an offset that is not behind the end of the file: the loaded one if that is not
  -- behind the end, and else the beginning, for which the loaded position is removed. When the
  -- position file, the size of the file and the loaded position can be read, New succeeds exactly
  -- when reopening is not asked for without following, the file can be tailed from that offset, and
  -- both expressions compile.
  pub new-offset :
      (config : TailerConfig) (opening : Opening) (size loaded : ℤ)
      → opening.positions_opened (position_file_of config) ≡ true
      → opening.file_size ≡ some size
      → opening.loaded_offset ≡ some loaded
      → let offset = if gt_ℤ loaded size then pos 0 else loaded in
        ((new fl lib config opening).1 ≡ gt_ℤ loaded size)
        × ((t : Tailer fl lib) → (new fl lib config opening).0 ≡ ok t → t.start_offset ≡ offset)
        × (((t : Tailer fl lib) × ((new fl lib config opening).0 ≡ ok t))
            ↔ CanOpen config opening offset)
  unfolding new checked_offset
  new-offset config opening size loaded opened sized positioned =
      let offset = if gt_ℤ loaded size then pos 0 else loaded in
      let outcome : new fl lib config opening
          ≡ (open_tail fl lib config opening offset, gt_ℤ loaded size) =
        ground arith in
      rw outcome (
        refl,
        λ t e. (open_tail-start_offset config opening offset t e).0,
        (
          λ (t, e). (open_tail-start_offset config opening offset t e).1,
          open_tail-CanOpen config opening offset,
        ),
      )
