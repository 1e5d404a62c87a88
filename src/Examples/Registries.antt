-- ===== src/Examples/Registries.antt =====
-- ChannelRegistry of crates/datum-stratum-sv2/src/lib.rs, at concrete inputs.
use datum_rs.Common.{[], ◌∷◌}
use datum_rs.Sv2.Registry.{ChannelRegistry, new_registry, fetch_id, insert_state}

-- Two tasks have read the counter, and the first of them has put its channel into the map.
abbrev both_fetched : ChannelRegistry
both_fetched = (fetch_id (fetch_id new_registry).1).1

abbrev one_inserted : ChannelRegistry
one_inserted = insert_state 0 (117 ∷ []) both_fetched
