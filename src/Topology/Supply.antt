-- ===== src/Topology/Supply.antt =====
-- topology/service.py: `_derive_radiality` and `_derive_feeder_loads`.
use ot_engineering_demonstra.Base.{
  String, ◌==◌, ℕ, Bool, false, not, ◌&&◌, ◌||◌, none, some, List, [], ◌∷◌, map, filter, find,
  length, contains, is_empty, ltb, if◌then◌else◌, Result, ok, ◌>>=◌, or_raise, map_m, sum_m,
  key_error,
}
use ot_engineering_demonstra.Base.Sort.{sort, sort_on, sort_by, tuple_leb}
use ot_engineering_demonstra.Domain.{RadialityStatus, radial, unintended_loop}
use ot_engineering_demonstra.Domain.Config.{Feeder, NetworkConfigurationData}
use ot_engineering_demonstra.Domain.Validate.{section_ids}
use ot_engineering_demonstra.Topology.Models.{SectionDerivedState, DerivedFeederLoad}
use ot_engineering_demonstra.Topology.Graph.{GraphLibrary}

module _ (G : GraphLibrary) where
  open G use {Graph, connected_components, is_tree}

  -- The breakers of the feeders that inject, `injection_by_breaker`.
  unfoldable pub injection_breakers : NetworkConfigurationData → List String → List String
  injection_breakers c available_feeder_ids =
      map (λ f. f.source_breaker_id)
        (filter (λ f. contains available_feeder_ids f.entity_id) c.feeders)

  -- A component that is fed and is no tree, or is fed more than once.
  unfoldable pub invalid_component : List String → Graph → List String → Bool
  invalid_component breakers g component =
      let injections = filter (contains breakers) component in
      not (is_empty injections) && (not (is_tree g component) || ltb 1 (length injections))

  unfoldable pub invalid_components :
      NetworkConfigurationData → Graph → List String → List (List String)
  invalid_components c g available_feeder_ids =
      map (λ component. sort (filter (contains (section_ids c)) component))
        (filter (invalid_component (injection_breakers c available_feeder_ids) g)
          (connected_components g))

  unfoldable pub radiality_of : List (List String) → RadialityStatus × List (List String)
  radiality_of [] = (radial, [])
  radiality_of (component ∷ rest) = (unintended_loop, sort_by tuple_leb (component ∷ rest))

  unfoldable pub derive_radiality :
      NetworkConfigurationData → Graph → List String → RadialityStatus × List (List String)
  derive_radiality c g available_feeder_ids =
      radiality_of (invalid_components c g available_feeder_ids)

-- `section_by_id[id].load_kw`
abbrev pub section_load : NetworkConfigurationData → String → Result ℕ
section_load c id = do
  section ← or_raise (find (λ s. s.entity_id == id) c.sections) key_error
  ok section.load_kw

-- `state.source_feeder_ids == (feeder_id,)`
abbrev pub only_feeder : String → List String → Bool
only_feeder id [] = false
only_feeder id (x ∷ []) = x == id
only_feeder id (x ∷ y ∷ r) = false

abbrev pub shared_feeder : String → List String → Bool
shared_feeder id ids = contains ids id && ltb 1 (length ids)

-- One round of `_derive_feeder_loads`.
unfoldable pub feeder_load :
    NetworkConfigurationData → List SectionDerivedState → Feeder → Result DerivedFeederLoad
feeder_load c states feeder =
    let supplied =
      map (λ s. s.section_id)
        (filter (λ s. only_feeder feeder.entity_id s.source_feeder_ids) states) in
    let multiply_supplied =
      map (λ s. s.section_id)
        (filter (λ s. shared_feeder feeder.entity_id s.source_feeder_ids) states) in
    do
      load ←
          if is_empty multiply_supplied
          then (do total ← sum_m (section_load c) supplied; ok (some total))
          else ok none
      ok (record {
        feeder_id = feeder.entity_id;
        configured_normal_load_kw = feeder.normal_connected_load_kw;
        currently_supplied_load_kw = load;
        supplied_section_ids = supplied;
        multiply_supplied_section_ids = multiply_supplied;
        load_attribution_complete = is_empty multiply_supplied;
      })

unfoldable pub derive_feeder_loads :
    NetworkConfigurationData → List SectionDerivedState → Result (List DerivedFeederLoad)
derive_feeder_loads c states = map_m (feeder_load c states) (sort_on (λ f. f.entity_id) c.feeders)
