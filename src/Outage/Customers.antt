-- ===== src/Outage/Customers.antt =====
-- What outage/service.py reports of a topology result.
use ot_engineering_demonstra.Base.{
  String, ◌==◌, Bool, true, false, not, Option, none, some, List, map, filter, contains, [], ◌∷◌,
  subset, guard-guard-ok, ◌>>◌, guard, outage_configuration_mismatch, validation_error, sum_of,
  same_set, ok, nat_eq_iff, ◌≡◌, refl, sym, ap, ◌∙◌, subst, arith, eq_refl, eq_iff, distinct,
  and_true, ◌&&◌, inl, inr, ◌↔◌, Bool-cases,
}
use mathlib.Core.Bool.{or-true}
use ot_engineering_demonstra.Base.Totals.{
  Counts, none_left, Counts-filter, SomeOf, any-SomeOf, sum_of-map, sum_of-filter_sort,
}
use ot_engineering_demonstra.Base.Sort.{
  sort, sort_on, map-sort_by, sort-Ascends, Ascends, any-sort_by,
}
use ot_engineering_demonstra.Domain.Config.{LoadedConfiguration, NetworkConfigurationData}
use ot_engineering_demonstra.Domain.Validate.{
  validate, section_ids, source_ids, feeder_ids, device_ids,
}
use ot_engineering_demonstra.Domain.Validate.Facts.{IsValid, validate-IsValid}
use ot_engineering_demonstra.Topology.Models.{TopologyInputs, TopologyResult, SectionDerivedState}
use ot_engineering_demonstra.Topology.Graph.{GraphLibrary}
use ot_engineering_demonstra.Topology.Calculate.{section_state}
use ot_engineering_demonstra.Topology.Trace.{calculate-Trace}
use ot_engineering_demonstra.Topology.Calculate as Topology
use ot_engineering_demonstra.Outage.{
  AffectedCustomerZone, outage_result, OutageResult, same_list, outage_valid, same_configuration,
  de_energised, affected_zones, affected_zone, restored_delta, calculate, listed,
}
use ot_engineering_demonstra.Outage.Order.{
  same_list_refl, map_id_filter, distinct-left, distinct-right, sort-same_set, filter-listed,
}

section_ids-distinct : (c : NetworkConfigurationData) → IsValid c → distinct (section_ids c) ≡ true
section_ids-distinct c v =
    distinct-left (section_ids c) (device_ids c)
      (distinct-right (feeder_ids c) _ (distinct-right (source_ids c) _ v.entities_distinct))

-- The result lists every section of the configuration once, in order, under its name.
pub record Covers (loaded : LoadedConfiguration) (t : TopologyResult) : Type 0 where
  pub same_id : t.configuration_id ≡ loaded.configuration_id
  pub sections_sorted : map (λ s. s.section_id) t.sections ≡ sort (section_ids loaded.config)

map-map {ℓ κ μ} :
    {A : Type ℓ} {B : Type κ} {C : Type μ} (g : B → C) (f : A → B) (xs : List A)
    → map g (map f xs) ≡ map (λ x. g (f x)) xs
map-map g f [] = refl
map-map g f (x ∷ xs) = ap (g (f x) ∷◌) (map-map g f xs)

pub calculate-Covers :
    (G : GraphLibrary) (loaded : LoadedConfiguration) (inputs : TopologyInputs) (t : TopologyResult)
    → Topology.calculate G loaded inputs ≡ ok t
    → Covers loaded t
unfolding section_state
calculate-Covers G loaded inputs t h =
    let trace = calculate-Trace G loaded inputs h in
    subst (Covers loaded) trace.result_eq (record {
      same_id = refl;
      sections_sorted =
          map-map (λ s. s.section_id) (section_state trace.paths inputs.faulted_section_ids) _
          ∙ map-sort_by (λ s. s.entity_id) _ loaded.config.sections;
    })

-- The affected mappings are those of exactly the de-energised sections, in their order.
pub affected_zones-sections :
    (loaded : LoadedConfiguration) (t : TopologyResult)
    → IsValid loaded.config
    → Covers loaded t
    → map (λ z. z.section_id) (affected_zones loaded.config (de_energised t)) ≡ de_energised t
unfolding affected_zones de_energised
affected_zones-sections loaded t v covers =
    let c = loaded.config in
    let off = map (λ s. s.section_id) (filter (λ s. not s.energised) t.sections) in
    let ordered =
      sort-same_set _ _ v.mappings_distinct (section_ids-distinct c v) v.mappings_cover in
    map-map (λ z. z.section_id) affected_zone _
    ∙ map_id_filter (λ m. m.section_id) (contains off)
        (sort_on (λ m. m.section_id) c.customer_zone_mappings)
    ∙ ap (filter (contains off)) (
        map-sort_by (λ m. m.section_id) _ c.customer_zone_mappings
        ∙ ordered
        ∙ sym covers.sections_sorted)
    ∙ filter-listed (λ s. s.section_id) (λ s. not s.energised) t.sections
        (subst Ascends (sym covers.sections_sorted) (sort-Ascends _ (section_ids-distinct c v)))

subset_of :
    (xs ys : List String)
    → ((a : String) → contains xs a ≡ true → contains ys a ≡ true)
    → subset xs ys ≡ true
subset_of [] ys f = refl
subset_of (x ∷ xs) ys f =
    let rest = subset_of xs ys λ a h. f a (ground arith) in
    let first = f x (ground (arith, eq_refl x)) in ground arith

sort-same_members : (ys : List String) → same_set (sort ys) ys ≡ true
sort-same_members ys =
    let same = λ (a : String). any-sort_by (λ y. y == a) _ ys in
    let left = subset_of (sort ys) ys λ a h. sym (same a) ∙ h in
    let right = subset_of ys (sort ys) λ a h. same a ∙ h in rw (left, right)

-- On an accepted configuration and a topology result of its own, with no earlier result of another
-- configuration, the calculation never raises: the result lists the de-energised sections, and
-- its zones are those of exactly these sections.
pub calculate_total :
    (G : GraphLibrary) (loaded : LoadedConfiguration) (inputs : TopologyInputs) (t : TopologyResult)
    (previous : Option OutageResult)
    → validate loaded.config ≡ ok tt
    → Topology.calculate G loaded inputs ≡ ok t
    → same_configuration loaded.configuration_id previous ≡ true
    → (r : OutageResult) × (calculate loaded t previous ≡ ok r)
      × (r.de_energised_section_ids ≡ de_energised t)
      × (map (λ z. z.section_id) r.affected_customer_zones ≡ de_energised t)
unfolding calculate outage_valid outage_result
calculate_total G loaded inputs t previous h ht hp =
    let v = validate-IsValid loaded.config h in
    let covers = calculate-Covers G loaded inputs t ht in
    let off = de_energised t in
    let zones = affected_zones loaded.config off in
    let named = affected_zones-sections loaded t v covers in
    let same =
      subst (λ id. (id == loaded.configuration_id) ≡ true) (sym covers.same_id) (eq_refl _) in
    let covered =
      subst (λ ids. same_set ids (section_ids loaded.config) ≡ true) (sym covers.sections_sorted)
        (sort-same_members (section_ids loaded.config)) in
    let agree = subst (λ ids. same_list off ids ≡ true) (sym named) (same_list_refl off) in
    let total = (nat_eq_iff (sum_of (λ z. z.customer_count) zones) _).1 refl in
    (outage_result loaded t previous, rw (same, hp, covered, agree, total) refl, refl, named)

affected_zones_sum :
    (c : NetworkConfigurationData) (off : List String)
    → sum_of
        (λ m. m.customer_count)
        (filter (λ m. contains off m.section_id) c.customer_zone_mappings)
      ≡ sum_of (λ z. z.customer_count) (affected_zones c off)
unfolding affected_zones
affected_zones_sum c off = omega (
  arith,
  sum_of-map affected_zone (λ z. z.customer_count)
      (filter (λ m. contains off m.section_id)
        (sort_on (λ m. m.section_id) c.customer_zone_mappings)),
  sum_of-filter_sort (λ m. m.customer_count) (λ m. contains off m.section_id) _
      c.customer_zone_mappings,
)

-- The topology result has the section, and as not energised.
abbrev pub Off : TopologyResult → String → Type 0
Off t id = SomeOf (λ s. (s.section_id ≡ id) × (s.energised ≡ false)) t.sections

de_energised-Off :
    (t : TopologyResult) (id : String) → (contains (de_energised t) id ≡ true) ↔ Off t id
unfolding de_energised
de_energised-Off t id = (to t.sections, from t.sections)
  where
    to :
        (ss : List SectionDerivedState)
        → contains (map (λ s. s.section_id) (filter (λ s. not s.energised) ss)) id ≡ true
        → SomeOf (λ s. (s.section_id ≡ id) × (s.energised ≡ false)) ss
    to [] h = ground arith
    to (s ∷ ss) h = elim (Bool-cases s.energised) [
      | inl e ↦ inr (to ss (rw e at h))
      | inr e ↦ elim (Bool-cases (s.section_id == id)) [
        | inl same ↦ inl ((eq_iff s.section_id id).0 same, e)
        | inr other ↦ inr (to ss (rw (e, other) at h))
      ]
    ]

    from :
        (ss : List SectionDerivedState)
        → SomeOf (λ s. (s.section_id ≡ id) × (s.energised ≡ false)) ss
        → contains (map (λ s. s.section_id) (filter (λ s. not s.energised) ss)) id ≡ true
    from [] h = absurd h
    from (s ∷ ss) (inl (same, e)) = rw (e, same, eq_refl id) refl
    from (s ∷ ss) (inr h) =
        let rest = from ss h in
        elim (Bool-cases s.energised) [
          | inl e ↦ rw (e, rest) refl
          | inr e ↦ rw (e, rest) (or-true (s.section_id == id))
        ]

-- One of the zones has this section and this identity.
abbrev pub StillAffected : List AffectedCustomerZone → AffectedCustomerZone → Type 0
StillAffected zones z =
    SomeOf (λ y. (y.section_id ≡ z.section_id) × (y.customer_zone_id ≡ z.customer_zone_id)) zones

listed-StillAffected :
    (zones : List AffectedCustomerZone) (z : AffectedCustomerZone)
    → (listed zones z ≡ true) ↔ StillAffected zones z
listed-StillAffected zones z =
    any-SomeOf
      (λ (y : AffectedCustomerZone).
        y.section_id == z.section_id && y.customer_zone_id == z.customer_zone_id)
      (λ y. (y.section_id ≡ z.section_id) × (y.customer_zone_id ≡ z.customer_zone_id))
      (λ y. (
        λ h.
            let (a, b) = and_true _ _ h in
            (
              (eq_iff y.section_id z.section_id).0 a,
              (eq_iff y.customer_zone_id z.customer_zone_id).0 b,
            ),
        λ (a, b). rw (a, b, eq_refl z.section_id, eq_refl z.customer_zone_id) refl,
      ))
      zones

listed-restored :
    (zones : List AffectedCustomerZone) (z : AffectedCustomerZone)
    → (not (listed zones z) ≡ true) ↔ (¬ StillAffected zones z)
listed-restored zones z =
    let (to, from) = listed-StillAffected zones z in
    (
      λ h s. let l = from s in let e = rw l at h in cc,
      λ n. elim (Bool-cases (listed zones z)) [ inl l ↦ absurd (n (to l)) | inr l ↦ rw l refl ],
    )

abbrev pub earlier_zones : Option OutageResult → List AffectedCustomerZone
earlier_zones none = []
earlier_zones (some p) = p.affected_customer_zones

restored_delta-Counts :
    (previous : Option OutageResult) (zones : List AffectedCustomerZone)
    → Counts
        (λ z. ¬ StillAffected zones z)
        (λ z. z.customer_count)
        (earlier_zones previous)
        (restored_delta previous zones)
unfolding restored_delta
restored_delta-Counts none zones = none_left
restored_delta-Counts (some p) zones =
    Counts-filter (λ z. ¬ StillAffected zones z) (λ z. z.customer_count) (λ z. not (listed zones z))
      (listed-restored zones) p.affected_customer_zones

guards-ok :
    (t1 t2 t3 t4 : Bool) (a : OutageResult) {b : OutageResult}
    → (guard t1 outage_configuration_mismatch
        >> (guard t2 outage_configuration_mismatch
            >> (guard t3 validation_error >> (guard t4 validation_error >> ok a))))
      ≡ ok b
    → a ≡ b
guards-ok true true t3 t4 a h = guard-guard-ok t3 t4 validation_error a h
guards-ok false t2 t3 t4 a h = cc
guards-ok true false t3 t4 a h = cc

abbrev pub Accounts :
    LoadedConfiguration → TopologyResult → Option OutageResult → OutageResult → Type 0
Accounts loaded t previous r =
    Counts (λ m. Off t m.section_id) (λ m. m.customer_count) loaded.config.customer_zone_mappings
      r.affected_customer_count
    × Counts (λ z. ¬ StillAffected r.affected_customer_zones z) (λ z. z.customer_count)
        (earlier_zones previous) r.restored_customer_delta

-- What a returned result says of the customers: it counts as affected those of the mappings whose
-- section the topology result has as not energised, and as restored those of the earlier result's
-- zones that no affected zone equals in both its section and its identity.
pub calculate-customers :
    (loaded : LoadedConfiguration) (t : TopologyResult) (previous : Option OutageResult)
    (r : OutageResult)
    → calculate loaded t previous ≡ ok r
    → Accounts loaded t previous r
unfolding calculate outage_result
calculate-customers loaded t previous r h =
    let off = de_energised t in
    let affected : Counts (λ m. Off t m.section_id) (λ m. m.customer_count)
        loaded.config.customer_zone_mappings
        (sum_of (λ z. z.customer_count) (affected_zones loaded.config off)) =
      subst (Counts _ _ loaded.config.customer_zone_mappings) (affected_zones_sum loaded.config off)
        (Counts-filter (λ m. Off t m.section_id) (λ m. m.customer_count)
          (λ m. contains off m.section_id) (λ m. de_energised-Off t m.section_id)
          loaded.config.customer_zone_mappings) in
    subst (Accounts loaded t previous) {x = outage_result loaded t previous} {y = r}
      (guards-ok (t.configuration_id == loaded.configuration_id)
        (same_configuration loaded.configuration_id previous)
        (same_set (map (λ s. s.section_id) t.sections) (section_ids loaded.config))
        (outage_valid (outage_result loaded t previous)) (outage_result loaded t previous) h)
      (affected, restored_delta-Counts previous (affected_zones loaded.config off))
