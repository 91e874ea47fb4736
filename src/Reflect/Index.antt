-- ===== src/Reflect/Index.antt =====
-- MapIndex of reflect.Value in interpreter/internal/interp/reflect.go.
use temporal_determinizer.Prelude.{ℕ, ◌≡◌, refl, Option, none, some, [], ◌∷◌}
use temporal_determinizer.Types.{GoType, underlying}
use temporal_determinizer.Value.{Value, nil_value, ok}
use temporal_determinizer.Heap.{Heap}
use temporal_determinizer.Equality.{Machine}
use temporal_determinizer.Store.{Store, gives, ◌>>=◌, on_heap}
use temporal_determinizer.Maps.{look_up}
use temporal_determinizer.Program.{Host}
use temporal_determinizer.Reflect.Values.{as_map, indexed, value_map_index}
use temporal_determinizer.Reflect.Access.{value_interface}
use temporal_determinizer.Reflect.Box.{
  Holds, boxed, make_reflect_value_lem, boxed-Holds, rv2t-Holds, rv2v-Holds,
}
use temporal_determinizer.Reflect.RoundTrip.{value_interface-Holds}

abbrev with_heap : Store → Heap → Store
with_heap s h = record s { heap = h }

-- only a map can be looked up in
as_map-look_up :
    (m : Machine) (depth : ℕ) (x k : Value) (s : Store) {found : Option Value} {s' : Store}
    → look_up m depth x k s ≡ gives found s'
    → as_map x ≡ ok x
unfolding look_up
as_map-look_up m depth (Value.builtin_map p) k s e = refl
as_map-look_up m depth (Value.hash_map p) k s e = refl
as_map-look_up m depth _ k s e = cc

-- what MapIndex makes of what it found
abbrev pub index_type : GoType → Option Value → Option GoType
index_type t none = none
index_type t (some v) = some t

abbrev pub index_value : Option Value → Value
index_value none = nil_value
index_value (some v) = v

indexed_lem :
    (t : GoType) (found : Option Value) (s : Store)
    → indexed t found s
      ≡ gives
          (Value.structure s.heap.next 2)
          (with_heap s (boxed (index_type t found) (index_value found) s.heap))
indexed_lem t none s = rw (make_reflect_value_lem none nil_value s.heap, on_heap) refl
indexed_lem t (some v) s = rw (make_reflect_value_lem (some t) v s.heap, on_heap) refl

-- For a map and a key in values of package reflect, whose lookup ends in an element or in none, MapIndex
-- gives a value from which Interface gives the element with the type of the map's keys, not that of
-- its elements, or the nil interface if there is none.
pub value_map_index-interface :
    (host : Host) (t kt et : GoType)
    → underlying t ≡ GoType.map kt et
    → (x k : Value) (j : Option GoType) (rx rk : Value) (s : Store)
    → Holds (some t) x s.heap.cell rx
    → Holds j k s.heap.cell rk
    → (found : Option Value) (s' : Store) → look_up host.machine host.depth x k s ≡ gives found s'
    → (r : Value) × (s'' : Store) × (value_map_index host (rx ∷ rk ∷ []) s ≡ gives r s'')
      × (value_interface (r ∷ []) s''
          ≡ gives (Value.iface (index_type kt found) (index_value found)) s'')
unfolding value_map_index
value_map_index-interface host t kt et u x k j rx rk s hx hk found s' e =
    let it = index_type kt found in
    let v = index_value found in
    (
      Value.structure s'.heap.next 2,
      with_heap s' (boxed it v s'.heap),
      rw (rv2t-Holds (some t) x rx s hx, ◌>>=◌)
          (rw u (
            rw (rv2v-Holds j k rk s hk, ◌>>=◌)
              (rw (rv2v-Holds (some t) x rx s hx, ◌>>=◌)
                (rw (as_map-look_up host.machine host.depth x k s e)
                  (rw (e, ◌>>=◌) (indexed_lem kt found s')))))),
      value_interface-Holds it v _ _ (boxed-Holds it v s'.heap),
    )
