-- ===== src/PrometheusExporter/Exporter/Cardinality.antt =====
-- The limit on event keys of pkg/prometheus_exporter/prometheus_exporter.go.
use slo_exporter.Prelude.{
  ◌≤◌, String, ◌≡◌, refl, ◌↔◌, true, false, none, length, room, arith, inl, inr, Bool-cases,
  is_some, eq_iff,
}
use slo_exporter.Prelude.Dict.{lookup, insert, IsMap, insert-IsMap, length-insert, lookup-insert}
use slo_exporter.PrometheusExporter.Exporter.{
  Exporter, is_unlimited, incremented, is_cardinality_exceeded,
}

module _ {F T : Type 0} where
  -- The cache is a map within the limit, and the gauge shows its size.
  pub record IsWithinLimit (e : Exporter F T) : Type 0 where
    pub limited : is_unlimited e.event_key_limit ≡ false
    pub is_map : IsMap e.event_key_cache
    pub within : length e.event_key_cache ≤ room e.event_key_limit
    pub gauge : e.event_keys ≡ length e.event_key_cache

  -- With a limit, a key is refused exactly when it is new and there is no room for one more.
  pub exceeded_iff :
      (e : Exporter F T) (key : String)
      → is_unlimited e.event_key_limit ≡ false
      → ((is_cardinality_exceeded e key).0 ≡ true) ↔ (
          (lookup key e.event_key_cache ≡ none)
          × (room e.event_key_limit ≤ length e.event_key_cache))
  unfolding is_cardinality_exceeded
  exceeded_iff e key h = ground arith

  admit : Exporter F T → String → Exporter F T
  admit e key =
      let cache = insert key (incremented (lookup key e.event_key_cache)) e.event_key_cache in
      record e { event_key_cache = cache; event_keys = length cache }

  refused :
      (e : Exporter F T) (key : String)
      → is_unlimited e.event_key_limit ≡ false
      → (is_cardinality_exceeded e key).0 ≡ true
      → is_cardinality_exceeded e key ≡ (true, e)
  unfolding is_cardinality_exceeded
  refused e key l h = ground arith

  admitted :
      (e : Exporter F T) (key : String)
      → is_unlimited e.event_key_limit ≡ false
      → (is_cardinality_exceeded e key).0 ≡ false
      → is_cardinality_exceeded e key ≡ (false, admit e key)
  unfolding is_cardinality_exceeded admit
  admitted e key l h = ground arith

  admit-within :
      (e : Exporter F T) (key : String)
      → IsWithinLimit e
      → (is_cardinality_exceeded e key).0 ≡ false
      → length (insert key (incremented (lookup key e.event_key_cache)) e.event_key_cache)
        ≤ room e.event_key_limit
  unfolding is_cardinality_exceeded
  admit-within e key v h =
      ground
        (arith, length-insert key (incremented (lookup key e.event_key_cache)) e.event_key_cache)

  -- For an exporter with a limit, whose cache is a map within the limit and whose gauge shows its
  -- size: the check keeps all of that, and afterwards the key is in the cache exactly when it was
  -- not refused.
  pub is_cardinality_exceeded-IsWithinLimit :
      (e : Exporter F T) (key : String)
      → IsWithinLimit e
      → IsWithinLimit (is_cardinality_exceeded e key).1
        × (((is_cardinality_exceeded e key).0 ≡ false)
            ↔ (is_some (lookup key (is_cardinality_exceeded e key).1.event_key_cache) ≡ true))
  is_cardinality_exceeded-IsWithinLimit e key v =
      elim (Bool-cases (is_cardinality_exceeded e key).0) [
        | inl no_room ↦
            let new = ((exceeded_iff e key v.limited).0 no_room).0 in
            rw (refused e key v.limited no_room) (v, ((λ h. cc h), (λ h. cc (rw new at h))))
        | inr room_left ↦
            let n = incremented (lookup key e.event_key_cache) in
            let grown : IsWithinLimit (admit e key) =
              unfold admit in
              record {
                limited = v.limited;
                is_map = insert-IsMap key n e.event_key_cache v.is_map;
                within = admit-within e key v room_left;
                gauge = refl;
              } in
            let known : is_some (lookup key (admit e key).event_key_cache) ≡ true =
              unfold admit in
              ground (arith, lookup-insert key key n e.event_key_cache, eq_iff key key) in
            rw (admitted e key v.limited room_left) (grown, ((λ h. known), (λ h. refl)))
      ]
