-- ===== src/MapExchange/Settings.antt =====
-- The formats of the settings in a map exchange string (fact/mapExchange.go). They depend on the version
-- that the string names.
use chat_wire.Common.{Bool, true, false, not, String}
use chat_wire.MapExchange.Format.{
  Format, flag, byte, int16, int32, uint32, float, double, text, position, queue, optional, array,
  dict, object, Fields, done, field, skip, present, ◌▹◌,
}

-- A field that a version has.
abbrev pub when : Bool → String → Format → Fields → Fields
when true name f fs = field name f fs
when false name f fs = fs

abbrev pub skip_when : Bool → Format → Fields → Fields
skip_when true f fs = skip f fs
skip_when false f fs = fs

-- `readFrequencySizeRichness`.
abbrev pub frequency_size_richness : Format
frequency_size_richness =
    object (("frequency", float) ▹ ("size", float) ▹ ("richness", float) ▹ done)

-- `readAutoplaceSetting`.
abbrev pub autoplace_setting : Format
autoplace_setting =
    object (("treat_missing_as_default", flag) ▹ ("settings", dict frequency_size_richness) ▹ done)

-- `readBoundingBox`.
abbrev pub bounding_box : Format
bounding_box = object (
    ("left_top", position)
    ▹ ("right_bottom", position)
    ▹ ("orientation", object (("x", int16) ▹ ("y", int16) ▹ done))
    ▹ done)

-- `readCliffSettings`.
abbrev pub cliff_settings : Bool → Format
cliff_settings at_least_v2 = object (
    ("name", text)
    ▹ skip_when at_least_v2 byte (
        ("cliff_elevation_0", float)
        ▹ ("cliff_elevation_interval", float)
        ▹ ("richness", float)
        ▹ when at_least_v2 "cliff_smoothing" float done))

-- `readTerritorySettings`.
abbrev pub territory_settings : Format
territory_settings = object (
    ("units", array text)
    ▹ ("territory_index_expression", text)
    ▹ ("territory_variation_expression", text)
    ▹ ("minimum_territory_size", uint32)
    ▹ done)

abbrev pub present_when : Bool → String → Format → Fields → Fields
present_when true name f fs = present name f fs
present_when false name f fs = fs

-- `readMapGenSettings`. The two fields of the old versions are read first.
unfoldable pub map_gen_settings : Bool → Format
map_gen_settings at_least_v2 = object (
    when (not at_least_v2) "terrain_segmentation" float (
      when (not at_least_v2) "water" float (
        ("autoplace_controls", dict frequency_size_richness)
        ▹ ("autoplace_settings", dict autoplace_setting)
        ▹ ("default_enable_all_autoplace_controls", flag)
        ▹ ("seed", uint32)
        ▹ ("width", uint32)
        ▹ ("height", uint32)
        ▹ ("area_to_generate_at_start", bounding_box)
        ▹ ("starting_area", float)
        ▹ ("peaceful_mode", flag)
        ▹ when at_least_v2 "no_enemies_mode" flag (
            ("starting_points", array position)
            ▹ ("property_expression_names", dict text)
            ▹ ("cliff_settings", cliff_settings at_least_v2)
            ▹ present_when at_least_v2 "territory_settings" territory_settings done))))

-- `readPollution`.
abbrev pub pollution : Format
pollution = object (
    ("enabled", optional flag)
    ▹ ("diffusion_ratio", optional double)
    ▹ ("min_to_diffuse", optional double)
    ▹ ("ageing", optional double)
    ▹ ("expected_max_per_chunk", optional double)
    ▹ ("min_to_show_per_chunk", optional double)
    ▹ ("min_pollution_to_damage_trees", optional double)
    ▹ ("pollution_with_max_forest_damage", optional double)
    ▹ ("pollution_per_tree_damage", optional double)
    ▹ ("pollution_restored_per_tree_damage", optional double)
    ▹ ("max_pollution_to_restore_trees", optional double)
    ▹ ("enemy_attack_pollution_consumption_modifier", optional double)
    ▹ done)

-- `readRealSteering`.
abbrev pub real_steering : Format
real_steering = object (
    ("radius", optional double)
    ▹ ("separation_factor", optional double)
    ▹ ("separation_force", optional double)
    ▹ ("force_unit_fuzzy_goto_behavior", optional flag)
    ▹ done)

-- `readSteering`.
abbrev pub steering : Format
steering = object (("default", real_steering) ▹ ("moving", real_steering) ▹ done)

-- `readEnemyEvolution`.
abbrev pub enemy_evolution : Format
enemy_evolution = object (
    ("enabled", optional flag)
    ▹ ("time_factor", optional double)
    ▹ ("destroy_factor", optional double)
    ▹ ("pollution_factor", optional double)
    ▹ done)

-- `readEnemyExpansion`.
abbrev pub enemy_expansion : Bool → Format
enemy_expansion at_least_v21 = object (
    ("enabled", optional flag)
    ▹ ("max_expansion_distance", optional uint32)
    ▹ when at_least_v21 "min_expansion_distance" (optional uint32) (
        ("friendly_base_influence_radius", optional uint32)
        ▹ ("enemy_building_influence_radius", optional uint32)
        ▹ ("building_coefficient", optional double)
        ▹ ("other_base_coefficient", optional double)
        ▹ ("neighbouring_chunk_coefficient", optional double)
        ▹ ("neighbouring_base_chunk_coefficient", optional double)
        ▹ ("max_colliding_tiles_coefficient", optional double)
        ▹ ("settler_group_min_size", optional uint32)
        ▹ ("settler_group_max_size", optional uint32)
        ▹ when at_least_v21 "evolution_group_size_factor" (optional double) (
            ("min_expansion_cooldown", optional uint32)
            ▹ ("max_expansion_cooldown", optional uint32)
            ▹ done)))

-- `readUnitGroup`.
abbrev pub unit_group : Format
unit_group = object (
    ("min_group_gathering_time", optional uint32)
    ▹ ("max_group_gathering_time", optional uint32)
    ▹ ("max_wait_time_for_late_members", optional uint32)
    ▹ ("max_group_radius", optional double)
    ▹ ("min_group_radius", optional double)
    ▹ ("max_member_speedup_when_behind", optional double)
    ▹ ("max_member_slowdown_when_ahead", optional double)
    ▹ ("max_group_slowdown_factor", optional double)
    ▹ ("max_group_member_fallback_factor", optional double)
    ▹ ("member_disown_distance", optional double)
    ▹ ("tick_tolerance_when_member_arrives", optional uint32)
    ▹ ("max_gathering_unit_groups", optional uint32)
    ▹ ("max_unit_group_size", optional uint32)
    ▹ done)

-- `readPathFinder`.
abbrev pub path_finder : Format
path_finder = object (
    ("fwd2bwd_ratio", optional int32)
    ▹ ("goal_pressure_ratio", optional double)
    ▹ ("use_path_cache", optional flag)
    ▹ ("max_steps_worked_per_tick", optional double)
    ▹ ("max_work_done_per_tick", optional uint32)
    ▹ ("short_cache_size", optional uint32)
    ▹ ("long_cache_size", optional uint32)
    ▹ ("short_cache_min_cacheable_distance", optional double)
    ▹ ("short_cache_min_algo_steps_to_cache", optional uint32)
    ▹ ("long_cache_min_cacheable_distance", optional double)
    ▹ ("cache_max_connect_to_cache_steps_multiplier", optional uint32)
    ▹ ("cache_accept_path_start_distance_ratio", optional double)
    ▹ ("cache_accept_path_end_distance_ratio", optional double)
    ▹ ("negative_cache_accept_path_start_distance_ratio", optional double)
    ▹ ("negative_cache_accept_path_end_distance_ratio", optional double)
    ▹ ("cache_path_start_distance_rating_multiplier", optional double)
    ▹ ("cache_path_end_distance_rating_multiplier", optional double)
    ▹ ("stale_enemy_with_same_destination_collision_penalty", optional double)
    ▹ ("ignore_moving_enemy_collision_distance", optional double)
    ▹ ("enemy_with_different_destination_collision_penalty", optional double)
    ▹ ("general_entity_collision_penalty", optional double)
    ▹ ("general_entity_subsequent_collision_penalty", optional double)
    ▹ ("extended_collision_penalty", optional double)
    ▹ ("max_clients_to_accept_any_new_request", optional uint32)
    ▹ ("max_clients_to_accept_short_new_request", optional uint32)
    ▹ ("direct_distance_to_consider_short_request", optional uint32)
    ▹ ("short_request_max_steps", optional uint32)
    ▹ ("short_request_ratio", optional double)
    ▹ ("min_steps_to_check_path_find_termination", optional uint32)
    ▹ ("start_to_goal_cost_multiplier_to_terminate_path_find", optional double)
    ▹ ("overload_levels", optional (array uint32))
    ▹ ("overload_multipliers", optional (array double))
    ▹ ("negative_path_cache_delay_interval", optional uint32)
    ▹ done)

-- `readAsteroidsSettings`.
abbrev pub asteroids_settings : Format
asteroids_settings = object (
    ("spawning_rate", optional double)
    ▹ ("max_ray_portals_expanded_per_tick", optional uint32)
    ▹ done)

-- `readDifficultySettings`.
abbrev pub difficulty_settings : Bool → Format
difficulty_settings true =
    object (("technology_price_multiplier", double) ▹ ("spoil_time_modifier", double) ▹ done)
difficulty_settings false = object (
    ("recipe_difficulty", byte)
    ▹ ("technology_difficulty", byte)
    ▹ ("technology_price_multiplier", double)
    ▹ ("research_queue_setting", queue)
    ▹ done)

-- `readMapSettings`.
unfoldable pub map_settings : Bool → Bool → Format
map_settings at_least_v2 at_least_v21 = object (
    ("pollution", pollution)
    ▹ when (not at_least_v21) "steering" steering (
        ("enemy_evolution", enemy_evolution)
        ▹ ("enemy_expansion", enemy_expansion at_least_v21)
        ▹ ("unit_group", unit_group)
        ▹ ("path_finder", path_finder)
        ▹ ("max_failed_behavior_count", uint32)
        ▹ ("difficulty_settings", difficulty_settings at_least_v2)
        ▹ when at_least_v2 "asteroids" asteroids_settings done))
