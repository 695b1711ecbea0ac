-- ===== src/Tailer.antt =====
-- The log tailer of pkg/tailer/tailer.go. The file, the tail library, the position file and the
-- regular expressions are parameters: what they answer at each call is part of the inputs.
pub mod Reading
pub mod Laws
pub mod Lines
pub mod Positions
use slo_exporter.Prelude.{
  ℕ, zero, suc, String, Bool, true, false, not, ◌&&◌, ◌||◌, ◌==◌, Option, none, some, List, [], ◌∷◌,
  ℤ, pos, gt_ℤ, concat, length, nat_eq, or_else, if◌then◌else◌,
}
use slo_exporter.Prelude.Dict.{insert}
use slo_exporter.StringMap.{StringMap}
use slo_exporter.Event.{Raw}
use slo_exporter.Runtime.{Float64, TextLibrary}
use slo_exporter.Prelude.Results.{Result, ok, err}

pub record TailerConfig : Type 0 where
  pub tailed_file : String
  pub follow : Bool
  pub reopen : Bool
  pub position_file : String
  pub logline_parse_regexp : String
  pub empty_group_re : String

-- The answers of positions.New, os.Stat, Get and tail.TailFile; `none` is an error.
pub record Opening : Type 0 where
  pub positions_opened : String → Bool
  pub file_size : Option ℤ
  pub loaded_offset : Option ℤ
  -- by the offset to start from
  pub tail_file : ℤ → Bool

pub data TailerError : Type 0 where
  no_positions : TailerError
  no_stat : TailerError
  no_offset : TailerError
  reopen_without_follow : TailerError
  no_tail : TailerError
  invalid_line_parse_regexp : TailerError
  invalid_empty_group_regexp : TailerError

-- What markOffsetPosition keeps: the position that was put into the position file, and the gauges.
pub record Marks : Type 0 where
  pub position : Option ℤ
  pub file_offset_bytes : ℤ
  pub file_size_bytes : ℤ

-- The answers of tail's Tell and of os.Stat.
pub record Telling : Type 0 where
  pub offset : Option ℤ
  pub size : Option ℤ

pub data MarkError : Type 0 where
  no_file_offset : MarkError
  no_file_size : MarkError

-- What Run's select receives: a line, the end of the lines, a tick of the ticker, or a shutdown.
pub data Selected : Type 0 where
  line : String → Selected
  lines_closed : Selected
  tick : Telling → Selected
  shutdown : Telling → Selected

unfoldable pub get_default_positions_file_path : TailerConfig → String
get_default_positions_file_path config = concat config.tailed_file ".pos"

-- The position file of New's configuration once its default is set.
abbrev pub position_file_of : TailerConfig → String
position_file_of config =
    if config.position_file == ""
    then get_default_positions_file_path config
    else config.position_file

-- The offset that New starts from, and whether it removes the loaded one.
unfoldable pub checked_offset : ℤ → ℤ → ℤ × Bool
checked_offset size offset = if gt_ℤ offset size then (pos 0, true) else (offset, false)

unfoldable pub mark_offset_position : Telling → Marks → Option MarkError × Marks
mark_offset_position told marks = elim told.offset [
  | none ↦ (some no_file_offset, marks)
  | some offset ↦
      let put : Marks = record marks { position = some offset; file_offset_bytes = offset } in
      elim told.size [
        | none ↦ (some no_file_size, put)
        | some size ↦ (none, record put { file_size_bytes = size })
      ]
]

abbrev pub is_zero : ℕ → Bool
is_zero zero = true
is_zero (suc i) = false

pub data ParseError : Type 0 where
  unable_to_parse_line : ParseError
  -- the panic of match[i] behind the end
  index_out_of_range : ParseError

module _ (fl : Float64) (lib : TextLibrary) where
  open fl use {F}
  open lib use {Regexp}

  pub record Tailer : Type 0 where
    pub filename : String
    pub line_parse_regexp : Regexp
    pub empty_group_regexp : Regexp
    pub start_offset : ℤ

  -- The last part of New, behind the check of the offset.
  unfoldable pub open_tail : TailerConfig → Opening → ℤ → Result TailerError Tailer
  open_tail config opening offset =
      if not config.follow && config.reopen
      then err reopen_without_follow
      else if not (opening.tail_file offset)
      then err no_tail
      else elim (lib.compile config.logline_parse_regexp) [
        | none ↦ err invalid_line_parse_regexp
        | some parse_re ↦ elim (lib.compile config.empty_group_re) [
          | none ↦ err invalid_empty_group_regexp
          | some empty_re ↦ ok (record {
            filename = config.tailed_file;
            line_parse_regexp = parse_re;
            empty_group_regexp = empty_re;
            start_offset = offset;
          })
        ]
      ]

  -- New, and whether it has removed the loaded position.
  unfoldable pub new : TailerConfig → Opening → Result TailerError Tailer × Bool
  new config opening =
      if not (opening.positions_opened (position_file_of config))
      then (err no_positions, false)
      else elim opening.file_size [
        | none ↦ (err no_stat, false)
        | some size ↦ elim opening.loaded_offset [
          | none ↦ (err no_offset, false)
          | some loaded ↦
              let (offset, removed) = checked_offset size loaded in
              (open_tail config opening offset, removed)
        ]
      ]

  -- The loop of parseLine, from the group `i` on.
  unfoldable pub parse_groups :
      Regexp → ℕ → List String → List String → StringMap → Result ParseError StringMap
  parse_groups empty_re i [] match line_data = ok line_data
  parse_groups empty_re i (name ∷ names) [] line_data = err index_out_of_range
  parse_groups empty_re i (name ∷ names) (value ∷ match) line_data =
      parse_groups empty_re (suc i) names match (
        if is_zero i || (name == "") || lib.match_string empty_re value
        then line_data
        else insert name value line_data)

  -- FindStringSubmatch, with `[]` for nil, and SubexpNames.
  module _ (find_string_submatch : Regexp → String → List String)
      (subexp_names : Regexp → List String) where
    unfoldable pub parse_line : Regexp → Regexp → String → Result ParseError StringMap
    parse_line parse_re empty_re text =
        let match = find_string_submatch parse_re text in
        let names = subexp_names parse_re in
        if nat_eq (length match) (length names)
        then parse_groups empty_re 0 names match []
        else err unable_to_parse_line

    unfoldable pub process_line : Tailer → String → Result ParseError (Raw F)
    process_line t text = elim (parse_line t.line_parse_regexp t.empty_group_regexp text) [
      | err e ↦ err e
      | ok line_data ↦
          ok (record { metadata = line_data; slo_classification = none; quantity = fl.one })
    ]
