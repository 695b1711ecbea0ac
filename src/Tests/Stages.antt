-- ===== src/Tests/Stages.antt =====
-- The other modules of the pipeline at concrete events.
use slo_exporter.Prelude.{
  ℕ, String, ◌≡◌, refl, false, ◌==◌, none, some, List, [], ◌∷◌, map, pos, if◌then◌else◌,
}
use slo_exporter.Prelude.Results.{Result, ok, err}
use slo_exporter.Storage.{new_in_memory_capped_container, add_all, stream, len}
use slo_exporter.Storage.Laws.{stream-add_all}
use slo_exporter.Pipeline.{
  EventType, raw, slo, Module, PipelineItem, link_modules, set_input_channel, new_manager,
  pipeline_done,
}
use slo_exporter.Pipeline.Laws.{IsChain, new_manager-IsChain}

abbrev three_items : List ℕ
three_items = 1 ∷ 2 ∷ 3 ∷ []

stream-add_all_example :
    (stream (add_all (new_in_memory_capped_container (pos 2)) three_items) ≡ 3 ∷ 2 ∷ [])
    × (len (add_all (new_in_memory_capped_container (pos 2)) three_items) ≡ 2)
stream-add_all_example = stream-add_all (pos 2) three_items

abbrev tailer : Module
tailer = record {
  ingests = none;
  produces = some raw;
  input_channel = none;
  output_channel = 1;
  running = false;
  stopping = false;
  done = false;
}

abbrev producer : Module
producer = record {
  ingests = some raw;
  produces = some slo;
  input_channel = none;
  output_channel = 2;
  running = false;
  stopping = false;
  done = false;
}

abbrev create : String → Result String Module
create name =
    if name == "tailer" then ok tailer else if name == "producer" then ok producer else err name

abbrev linked : List PipelineItem
linked =
    record { name = "tailer"; module_of = tailer }
    ∷ record { name = "producer"; module_of = set_input_channel producer 1 }
    ∷ []

managed : new_manager create ("tailer" ∷ "producer" ∷ []) ≡ ok linked
unfolding new_manager slo_exporter.Pipeline.build slo_exporter.Pipeline.new_pipeline_item
    slo_exporter.Pipeline.add_module_to_pipeline_end
    slo_exporter.Pipeline.link_module_with_pipeline_end slo_exporter.Pipeline.last_pipeline_item
    slo_exporter.Pipeline.is_ingester link_modules slo_exporter.Pipeline.is_producer
managed = refl

new_manager-IsChain_example :
    IsChain linked × (map (λ (i : PipelineItem). i.name) linked ≡ "tailer" ∷ "producer" ∷ [])
new_manager-IsChain_example =
    new_manager-IsChain String create ("tailer" ∷ "producer" ∷ []) linked managed
