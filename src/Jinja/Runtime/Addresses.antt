-- ===== src/Jinja/Runtime/Addresses.antt =====
-- pkg/chat/jinja/runtime.go: the maps that values refer to are in the heap.
use gogguf.Base.{
  ℕ, zero, suc, ◌≤◌, ◌<◌, ◌≡◌, Option, none, some, List, [], ◌∷◌, ◌++◌, arith, length, get_elem?,
  set, length-append, length-set,
}
use gogguf.Base.Bytes.{Bytes, equal}
use gogguf.Base.Outcome.{if_holds, option_holds}
use gogguf.Jinja.Runtime.Values.{
  Kind, Value, Values, value, no_values, more_values, Map, Heap, find, put, obj_of, arr_of, is_kind,
  to_list, of_list, fields_of, to_array, alloc,
}

abbrev AddressIsValid : ℕ → Option ℕ → Type 0
AddressIsValid n none = Unit
AddressIsValid n (some a) = a < n

address_mono : (n p : ℕ) → n ≤ p → (o : Option ℕ) → AddressIsValid n o → AddressIsValid p o
address_mono n p h none k = tt
address_mono n p h (some a) k = omega (arith, h, k)

module _ {N : Type 0} where
  -- Among n maps.
  abbrev mutual
    pub ValueIsValid : ℕ → Value N → Type 0
    ValueIsValid n (value k x s b vs o) = AddressIsValid n o × ValuesAreValid n vs

    pub ValuesAreValid : ℕ → Values N → Type 0
    ValuesAreValid n no_values = Unit
    ValuesAreValid n (more_values v vs) = ValueIsValid n v × ValuesAreValid n vs

  abbrev pub ListIsValid : ℕ → List (Value N) → Type 0
  ListIsValid n [] = Unit
  ListIsValid n (v ∷ vs) = ValueIsValid n v × ListIsValid n vs

  abbrev pub MapIsValid : ℕ → Map (Value N) → Type 0
  MapIsValid n [] = Unit
  MapIsValid n (entry ∷ m) = ValueIsValid n entry.1 × MapIsValid n m

  abbrev pub OptionIsValid : ℕ → Option (Value N) → Type 0
  OptionIsValid n none = Unit
  OptionIsValid n (some v) = ValueIsValid n v

  abbrev pub MapsAreValid : ℕ → Heap N → Type 0
  MapsAreValid n [] = Unit
  MapsAreValid n (m ∷ heap) = MapIsValid n m × MapsAreValid n heap

  abbrev pub HeapIsValid : Heap N → Type 0
  HeapIsValid heap = MapsAreValid (length heap) heap

  mutual
    pub value_mono : (n p : ℕ) → n ≤ p → (v : Value N) → ValueIsValid n v → ValueIsValid p v
    value_mono n p h (value k x s b vs o) (a, w) = (address_mono n p h o a, values_mono n p h vs w)

    pub values_mono :
        (n p : ℕ) → n ≤ p → (vs : Values N) → ValuesAreValid n vs → ValuesAreValid p vs
    values_mono n p h no_values w = tt
    values_mono n p h (more_values v vs) (a, w) = (value_mono n p h v a, values_mono n p h vs w)

  pub list_mono : (n p : ℕ) → n ≤ p → (vs : List (Value N)) → ListIsValid n vs → ListIsValid p vs
  list_mono n p h [] w = tt
  list_mono n p h (v ∷ vs) (a, w) = (value_mono n p h v a, list_mono n p h vs w)

  pub map_mono : (n p : ℕ) → n ≤ p → (m : Map (Value N)) → MapIsValid n m → MapIsValid p m
  map_mono n p h [] w = tt
  map_mono n p h (entry ∷ m) (a, w) = (value_mono n p h entry.1 a, map_mono n p h m w)

  maps_mono : (n p : ℕ) → n ≤ p → (heap : Heap N) → MapsAreValid n heap → MapsAreValid p heap
  maps_mono n p h [] w = tt
  maps_mono n p h (m ∷ heap) (a, w) = (map_mono n p h m a, maps_mono n p h heap w)

  pub find-IsValid :
      (n : ℕ) (key : Bytes) (m : Map (Value N)) → MapIsValid n m → OptionIsValid n (find key m)
  unfolding find
  find-IsValid n key [] w = tt
  find-IsValid n key ((k, v) ∷ m) (a, w) =
      if_holds (OptionIsValid n) (equal k key) a (find-IsValid n key m w)

  pub put-IsValid :
      (n : ℕ) (key : Bytes) (v : Value N) (m : Map (Value N))
      → ValueIsValid n v
      → MapIsValid n m
      → MapIsValid n (put key v m)
  unfolding put
  put-IsValid n key v [] h w = (h, tt)
  put-IsValid n key v ((k, u) ∷ m) h (a, w) =
      if_holds (MapIsValid n) (equal k key) (h, w) (a, put-IsValid n key v m h w)

  pub get_map-IsValid :
      (n : ℕ) (heap : Heap N) (a : ℕ)
      → MapsAreValid n heap
      → MapIsValid n (elim (get_elem? heap a) [ none ↦ [] | some m ↦ m ])
  get_map-IsValid n [] a w = tt
  get_map-IsValid n (m ∷ heap) zero (h, w) = h
  get_map-IsValid n (m ∷ heap) (suc a) (h, w) = get_map-IsValid n heap a w

  pub fields_of-IsValid :
      (n : ℕ) (heap : Heap N) (v : Value N) → MapsAreValid n heap → MapIsValid n (fields_of heap v)
  unfolding fields_of
  fields_of-IsValid n heap v w =
      option_holds (MapIsValid n) (obj_of v) tt λ a. get_map-IsValid n heap a w

  maps-append :
      (n : ℕ) (heap : Heap N) (m : Map (Value N))
      → MapsAreValid n heap
      → MapIsValid n m
      → MapsAreValid n (heap ++ m ∷ [])
  maps-append n [] m w h = (h, tt)
  maps-append n (x ∷ heap) m (a, w) h = (a, maps-append n heap m w h)

  maps-set :
      (n : ℕ) (heap : Heap N) (a : ℕ) (m : Map (Value N))
      → MapsAreValid n heap
      → MapIsValid n m
      → MapsAreValid n (set heap a m)
  maps-set n [] a m w h = tt
  maps-set n (x ∷ heap) zero m (u, w) h = (h, w)
  maps-set n (x ∷ heap) (suc a) m (u, w) h = (u, maps-set n heap a m w h)

  -- A new map, behind the others.
  pub alloc-IsValid :
      (m : Map (Value N)) (heap : Heap N)
      → HeapIsValid heap
      → MapIsValid (length heap) m
      → HeapIsValid (alloc m heap).1
        × ((alloc m heap).0 < length (alloc m heap).1)
        × (length heap ≤ length (alloc m heap).1)
  unfolding alloc
  alloc-IsValid m heap w h =
      let more : length (heap ++ m ∷ []) ≡ suc (length heap) =
        omega (arith, length-append heap (m ∷ [])) in
      let n = length (heap ++ m ∷ []) in
      (
        maps-append n heap m (maps_mono (length heap) n (omega (arith, more)) heap w)
            (map_mono (length heap) n (omega (arith, more)) m h),
        omega (arith, more),
        omega (arith, more),
      )

  pub set-IsValid :
      (heap : Heap N) (a : ℕ) (m : Map (Value N))
      → HeapIsValid heap
      → MapIsValid (length heap) m
      → HeapIsValid (set heap a m)
  set-IsValid heap a m w h =
      let same : length (set heap a m) ≡ length heap = length-set heap a m in
      maps_mono (length heap) (length (set heap a m)) (omega (arith, same)) (set heap a m)
        (maps-set (length heap) heap a m w h)

  pub to_list-IsValid : (n : ℕ) (vs : Values N) → ValuesAreValid n vs → ListIsValid n (to_list vs)
  unfolding to_list
  to_list-IsValid n no_values w = tt
  to_list-IsValid n (more_values v vs) (a, w) = (a, to_list-IsValid n vs w)

  pub of_list-IsValid :
      (n : ℕ) (vs : List (Value N)) → ListIsValid n vs → ValuesAreValid n (of_list vs)
  unfolding of_list
  of_list-IsValid n [] w = tt
  of_list-IsValid n (v ∷ vs) (a, w) = (a, of_list-IsValid n vs w)

  pub arr_of-IsValid : (n : ℕ) (v : Value N) → ValueIsValid n v → ListIsValid n (to_list (arr_of v))
  arr_of-IsValid n (value k x s b vs o) (a, w) = to_list-IsValid n vs w

  pub to_array-IsValid : (n : ℕ) (v : Value N) → ValueIsValid n v → ListIsValid n (to_array v)
  unfolding to_array
  to_array-IsValid n v w =
      if_holds (ListIsValid n) (is_kind Kind.array_kind v) (arr_of-IsValid n v w) tt

  pub get_elem?-IsValid :
      (n : ℕ) (vs : List (Value N)) (i : ℕ) → ListIsValid n vs → OptionIsValid n (get_elem? vs i)
  get_elem?-IsValid n [] i w = tt
  get_elem?-IsValid n (v ∷ vs) zero (a, w) = a
  get_elem?-IsValid n (v ∷ vs) (suc i) (a, w) = get_elem?-IsValid n vs i w
