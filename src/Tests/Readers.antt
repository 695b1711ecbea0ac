-- ===== src/Tests/Readers.antt =====
-- The tailer, the Kafka ingester and the probes at concrete inputs.
use slo_exporter.Prelude.{
  ℕ, ◌+◌, ◌≡◌, ◌≢◌, ◌↔◌, refl, String, true, false, ◌==◌, Option, none, some, List, [], ◌∷◌, map,
  length, drop, pos, gt_ℤ, if◌then◌else◌,
}
use slo_exporter.Prelude.Dict.{lookup, IsMap}
use slo_exporter.Prelude.Results.{ok, err, oks, count_errors}
use slo_exporter.StringMap.{StringMap}
use slo_exporter.Event.{Raw}
use slo_exporter.Tailer.{
  TailerConfig, Opening, Tailer, Marks, Telling, Selected, line, lines_closed, tick, shutdown,
  unable_to_parse_line, parse_line, position_file_of,
}
use slo_exporter.Tailer as Tail
use slo_exporter.Tailer.Reading.{Running, processed}
use slo_exporter.Tailer.Reading as Reading
use slo_exporter.Tailer.Laws.{last_group, lookup-parse_line}
use slo_exporter.Tailer.Lines.{lines_of, run-lines}
use slo_exporter.Tailer.Positions.{
  told_in, is_shut_down, newest, position_told, size_told, run-marks, new-offset, CanOpen,
}
use slo_exporter.KafkaIngester.{Message, IngestedEventV1, process_message}
use slo_exporter.KafkaIngester.Laws.{IsV1, IsDecoded, process_message_iff}
use slo_exporter.Prelude.Relations.{Reach, here, next}
use slo_exporter.KafkaIngester.Shutdown.{
  Ingester, holding, waiting, is_open, started, read, Step, shutdown-panics,
}
use slo_exporter.Prober.{
  Prober, registered, Call, call_ok, call_not_ok, call_all, is_ok, handle_func, new_liveness,
  new_readiness,
}
use slo_exporter.Prober.Laws.{last_set, code_of, any_error, gauge_of, probes-gauge}
use slo_exporter.Tests.Samples.{numbers, texts}

abbrev submatches : String → String → List String
submatches re text = if text == "GET -" then text ∷ "GET" ∷ "-" ∷ [] else []

abbrev group_names : String → List String
group_names re = "" ∷ "method" ∷ "user" ∷ []

lookup-parse_line_example :
    let match = submatches "line" "GET -" in
    let names = group_names "line" in
    let parsed = parse_line numbers texts submatches group_names "line" "-" "GET -" in
    (length match ≡ length names
      → (line_data : StringMap) × (parsed ≡ ok line_data)
        × IsMap line_data
        × ((key : String)
            → lookup key line_data
              ≡ last_group numbers texts "-" key (drop 1 names) (drop 1 match)))
    × (length match ≢ length names → parsed ≡ err unable_to_parse_line)
lookup-parse_line_example =
    lookup-parse_line numbers texts submatches group_names "line" "-" "GET -"

abbrev the_tailer : Tailer numbers texts
the_tailer = record {
  filename = "access_log";
  line_parse_regexp = "line";
  empty_group_regexp = "-";
  start_offset = pos 0;
}

abbrev at_first : Running
at_first = record {
  lines_read_total = 0;
  malformed_lines_total = 0;
  marks = record { position = none; file_offset_bytes = pos 0; file_size_bytes = pos 0 };
  quitting = false;
  stops = 0;
  done = false;
}

abbrev told_at : ℕ → Telling
told_at n = record { offset = some (pos n); size = some (pos (n + 1)) }

abbrev selected : List Selected
selected =
    line "GET -"
    ∷ tick (told_at 5)
    ∷ line "?"
    ∷ shutdown (told_at 6)
    ∷ tick (told_at 0)
    ∷ line "GET -"
    ∷ lines_closed
    ∷ []

run-lines_example :
    let results =
      map (processed numbers texts submatches group_names the_tailer) (lines_of selected) in
    let after = Reading.run numbers texts submatches group_names the_tailer at_first selected in
    (after.1 ≡ oks results)
    × (after.0.lines_read_total ≡ at_first.lines_read_total + length (lines_of selected))
    × (after.0.malformed_lines_total ≡ at_first.malformed_lines_total + count_errors results)
run-lines_example = run-lines numbers texts submatches group_names the_tailer at_first selected

run-marks_example :
    let after = (Reading.run numbers texts submatches group_names the_tailer at_first selected).0 in
    let tellings = told_in selected in
    (after.marks.position ≡ newest at_first.marks.position (map position_told tellings))
    × (after.marks.file_offset_bytes
        ≡ newest at_first.marks.file_offset_bytes (map (λ (t : Telling). t.offset) tellings))
    × (after.marks.file_size_bytes ≡ newest at_first.marks.file_size_bytes (map size_told tellings))
    × (after.stops ≡ (if is_shut_down selected then at_first.stops + 1 else at_first.stops))
run-marks_example = run-marks numbers texts submatches group_names the_tailer at_first selected refl

abbrev tailing : TailerConfig
tailing = record {
  tailed_file = "access_log";
  follow = true;
  reopen = true;
  position_file = "";
  logline_parse_regexp = "line";
  empty_group_re = "-";
}

abbrev opening : Opening
opening = record {
  positions_opened = λ file. file == "access_log.pos";
  file_size = some (pos 10);
  loaded_offset = some (pos 20);
  tail_file = λ offset. true;
}

opened : opening.positions_opened (position_file_of tailing) ≡ true
unfolding Tail.get_default_positions_file_path
opened = refl

new-offset_example :
    let made = Tail.new numbers texts tailing opening in
    (made.1 ≡ gt_ℤ (pos 20) (pos 10))
    × ((t : Tailer numbers texts)
        → made.0 ≡ ok t
        → t.start_offset ≡ (if gt_ℤ (pos 20) (pos 10) then pos 0 else pos 20))
    × (((t : Tailer numbers texts) × (made.0 ≡ ok t))
        ↔ CanOpen numbers texts tailing opening (if gt_ℤ (pos 20) (pos 10) then pos 0 else pos 20))
new-offset_example = new-offset numbers texts tailing opening (pos 10) (pos 20) opened refl refl

-- The text of a message is its metadata.
abbrev decode : String → Option (IngestedEventV1 ℕ)
decode text =
    if text == "{"
    then none
    else some
        (record { metadata = ("text", text) ∷ []; slo_classification = none; quantity = none })

abbrev a_message : Message
a_message = record {
  headers = record { key = "slo-exporter-schema-version"; value = "v1" } ∷ [];
  value = "hello";
}

abbrev decoded_event : Raw ℕ
decoded_event = record {
  metadata = ("text", "hello") ∷ [];
  slo_classification = none;
  quantity = 1;
}

process_message_iff_example : (process_message 1 decode a_message ≡ ok decoded_event) ↔ (
    IsV1 1 decode a_message
    × ((ingested : IngestedEventV1 ℕ) × (decode "hello" ≡ some ingested)
        × IsDecoded 1 decode ingested decoded_event))
process_message_iff_example = process_message_iff 1 decode a_message decoded_event

abbrev live : Prober String
live = record { status = none; gauge = none }

abbrev ready : Prober String
ready = record { status = some "initializing"; gauge = some 0 }

made_live : new_liveness registered ≡ some live
unfolding new_liveness slo_exporter.Prober.new_prober slo_exporter.Prober.set_ok
    slo_exporter.Prober.set_status
made_live = refl

made_ready : new_readiness "initializing" registered ≡ some ready
unfolding new_readiness slo_exporter.Prober.new_prober slo_exporter.Prober.not_ok
    slo_exporter.Prober.set_status
made_ready = refl

abbrev calls : List (Call String)
calls = call_not_ok (some "starting") ∷ call_ok ∷ []

probes-gauge_example :
    (is_ok (call_all live calls) ≡ last_set none calls)
    × (is_ok (call_all ready calls) ≡ last_set (some "initializing") calls)
    × ((handle_func (call_all live calls)).code ≡ code_of (last_set none calls))
    × ((handle_func (call_all live calls)).failure ≡ last_set none calls)
    × ((handle_func (call_all ready calls)).code ≡ code_of (last_set (some "initializing") calls))
    × ((handle_func (call_all ready calls)).failure ≡ last_set (some "initializing") calls)
    × ((call_all ready calls).gauge ≡ gauge_of (last_set (some "initializing") calls))
    × ((call_all live calls).gauge
        ≡ (if any_error calls then gauge_of (last_set none calls) else none))
probes-gauge_example = probes-gauge "initializing" registered live ready calls made_live made_ready

abbrev holding_one : Ingester ℕ
holding_one = record { reader = holding 1; watcher = waiting; sent = []; panicked = false }

reached_one : Reach (Step ℕ) started holding_one
unfolding started
reached_one = next here (read 1)

shutdown-panics_example :
    (holding_one.panicked ≡ true → is_open holding_one.watcher ≡ false)
    × (holding_one.reader ≡ holding 1
        → holding_one.watcher ≡ waiting
        → holding_one.panicked ≡ false
        → (t : Ingester ℕ) × Reach (Step ℕ) holding_one t
          × (t.panicked ≡ true)
          × (t.sent ≡ holding_one.sent))
shutdown-panics_example = shutdown-panics holding_one 1 reached_one
