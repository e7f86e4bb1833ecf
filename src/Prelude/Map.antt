-- ===== src/Prelude/Map.antt =====
-- `std::map<std::string, V>`: the pairs in the order of their keys.
pub mod Order
use localsend_handheld.Prelude.Tests.{Bool-cases, if◌then◌else◌}
use localsend_handheld.Prelude.Text.{Bytes, beq, blt, beq_iff, blt_irrefl, blt_asymm}
use mathlib.Core.Path.{◌≡◌, subst, refl}
use mathlib.Core.List.{List, [], ◌∷◌, ◌++◌}
use mathlib.Core.Logic.{inl, inr}
use mathlib.Core.Bool.{Bool, true, false}
use mathlib.Core.Option
use mathlib.Core.Option.{Option, none, some}
use native.Mathlib.Omega.{arith}

abbrev pub Map {ℓ} : Type ℓ → Type ℓ
Map V = List (Bytes × V)

module _ {ℓ} {V : Type ℓ} where
  -- `find`
  unfoldable pub find : Bytes → Map V → Option V
  find k [] = none
  find k ((j, v) ∷ m) = if beq j k then some v else find k m

  -- `m[k] = v`
  unfoldable pub insert : Bytes → V → Map V → Map V
  insert k v [] = (k, v) ∷ []
  insert k v ((j, w) ∷ m) =
      if beq j k then (k, v) ∷ m else if blt k j then (k, v) ∷ (j, w) ∷ m else (j, w) ∷ insert k v m

  -- `m.emplace(k, v)`: an old value stays.
  unfoldable pub emplace : Bytes → V → Map V → Map V
  emplace k v [] = (k, v) ∷ []
  emplace k v ((j, w) ∷ m) =
      if beq j k
      then (j, w) ∷ m
      else if blt k j
      then (k, v) ∷ (j, w) ∷ m
      else (j, w) ∷ emplace k v m

  pub find-insert :
      (k j : Bytes) (v : V) (m : Map V)
      → find j (insert k v m) ≡ (if beq k j then some v else find j m)
  unfolding find insert
  find-insert k j v [] = refl
  find-insert k j v ((i, w) ∷ m) =
      ground (arith, beq_iff k j, beq_iff i k, beq_iff i j, find-insert k j v m)

  -- The later of two insertions counts.
  pub insert-insert :
      (k : Bytes) (v old : V) (m : Map V) → insert k v (insert k old m) ≡ insert k v m
  unfolding insert
  insert-insert k v old [] = ground (arith, beq_iff k k)
  insert-insert k v old ((j, w) ∷ m) = elim (Bool-cases (beq j k)) [
    | inl e ↦ ground (arith, beq_iff k k)
    | inr e ↦ elim (Bool-cases (blt k j)) [
      | inl l ↦ ground (arith, beq_iff k k)
      | inr l ↦ rw (e, l, e, l, insert-insert k v old m) refl
    ]
  ]

  -- The order of a `std::map`: each key is below all keys behind it.
  abbrev pub KeysAbove : Bytes → Map V → Type 0
  KeysAbove k [] = Unit
  KeysAbove k ((j, v) ∷ m) = (blt k j ≡ true) × KeysAbove k m

  abbrev pub IsOrdered : Map V → Type 0
  IsOrdered [] = Unit
  IsOrdered ((k, v) ∷ m) = KeysAbove k m × IsOrdered m

  abbrev pub KeysBelow : Bytes → Map V → Type 0
  KeysBelow k [] = Unit
  KeysBelow k ((j, v) ∷ m) = (blt j k ≡ true) × KeysBelow k m

  insert_last : (k : Bytes) (v : V) (m : Map V) → KeysBelow k m → insert k v m ≡ m ++ (k, v) ∷ []
  unfolding insert
  insert_last k v [] h = refl
  insert_last k v ((j, w) ∷ m) h =
      ground (arith, insert_last k v m h.1, beq_iff j k, blt_irrefl k, blt_asymm j k)

  KeysAbove-append :
      (k : Bytes) (m : Map V) (j : Bytes) (v : V) (n : Map V)
      → KeysAbove k (m ++ (j, v) ∷ n)
      → blt k j ≡ true
  KeysAbove-append k [] j v n h = h.0
  KeysAbove-append k ((i, w) ∷ m) j v n h = KeysAbove-append k m j v n h.1

  pub IsOrdered-KeysBelow :
      (m : Map V) (k : Bytes) (v : V) (n : Map V) → IsOrdered (m ++ (k, v) ∷ n) → KeysBelow k m
  IsOrdered-KeysBelow [] k v n h = tt
  IsOrdered-KeysBelow ((j, w) ∷ m) k v n h =
      (KeysAbove-append j m k v n h.0, IsOrdered-KeysBelow m k v n h.1)

  -- A key behind all others goes to the end.
  pub insert_ordered :
      (m : Map V) (k : Bytes) (v : V) (n : Map V)
      → IsOrdered (m ++ (k, v) ∷ n)
      → insert k v m ≡ m ++ (k, v) ∷ []
  insert_ordered m k v n h = insert_last k v m (IsOrdered-KeysBelow m k v n h)

  -- `find(k) != end()`
  abbrev pub has_key : Bytes → Map V → Bool
  has_key k m = elim (find k m) [ none ↦ false | some v ↦ true ]

  -- `erase(k)`
  unfoldable pub erase : Bytes → Map V → Map V
  erase k [] = []
  erase k ((j, v) ∷ m) = let rest = erase k m in if beq j k then rest else (j, v) ∷ rest

  -- A write through an iterator at `k`.
  unfoldable pub alter : (V → V) → Bytes → Map V → Map V
  alter f k [] = []
  alter f k ((j, v) ∷ m) = if beq j k then (j, f v) ∷ m else (j, v) ∷ alter f k m

  pub find-erase :
      (k j : Bytes) (m : Map V) → find j (erase k m) ≡ (if beq k j then none else find j m)
  unfolding find erase
  find-erase k j [] = ground arith
  find-erase k j ((i, w) ∷ m) =
      ground (arith, beq_iff k j, beq_iff i k, beq_iff i j, find-erase k j m)

  pub find-alter :
      (f : V → V) (k j : Bytes) (m : Map V)
      → find j (alter f k m) ≡ (if beq k j then Option.map f (find j m) else find j m)
  unfolding find alter
  find-alter f k j [] = ground arith
  find-alter f k j ((i, w) ∷ m) =
      ground (arith, beq_iff k j, beq_iff i k, beq_iff i j, find-alter f k j m)

  -- A property of every value.
  abbrev pub AllValues {κ} : (V → Type κ) → Map V → Type κ
  AllValues P [] = Unit
  AllValues P ((k, v) ∷ m) = P v × AllValues P m

  pub AllValues-emplace :
      (P : V → Type 0) (k : Bytes) (v : V) (m : Map V)
      → P v
      → AllValues P m
      → AllValues P (emplace k v m)
  unfolding emplace
  AllValues-emplace P k v [] p h = (p, tt)
  AllValues-emplace P k v ((j, w) ∷ m) p h = elim (Bool-cases (beq j k)) [
    | inl e ↦ rw e h
    | inr e ↦ elim (Bool-cases (blt k j)) [
      | inl l ↦ rw (e, l) (p, h)
      | inr l ↦ rw (e, l) (h.0, AllValues-emplace P k v m p h.1)
    ]
  ]

  pub AllValues-insert :
      (P : V → Type 0) (k : Bytes) (v : V) (m : Map V)
      → P v
      → AllValues P m
      → AllValues P (insert k v m)
  unfolding insert
  AllValues-insert P k v [] p h = (p, tt)
  AllValues-insert P k v ((j, w) ∷ m) p h = elim (Bool-cases (beq j k)) [
    | inl e ↦ rw e (p, h.1)
    | inr e ↦ elim (Bool-cases (blt k j)) [
      | inl b ↦ rw (e, b) (p, h)
      | inr b ↦ rw (e, b) (h.0, AllValues-insert P k v m p h.1)
    ]
  ]

  pub AllValues-alter :
      (P : V → Type 0) (f : V → V) (k : Bytes) (m : Map V)
      → ((v : V) → P v → P (f v))
      → AllValues P m
      → AllValues P (alter f k m)
  unfolding alter
  AllValues-alter P f k [] keeps h = tt
  AllValues-alter P f k ((j, w) ∷ m) keeps h = elim (Bool-cases (beq j k)) [
    | inl e ↦ rw e (keeps w h.0, h.1)
    | inr e ↦ rw e (h.0, AllValues-alter P f k m keeps h.1)
  ]

  pub AllValues-find :
      (P : V → Type 0) (k : Bytes) (m : Map V) (v : V) → AllValues P m → find k m ≡ some v → P v
  unfolding find
  AllValues-find P k [] v h e = cc
  AllValues-find P k ((j, w) ∷ m) v h e = elim (Bool-cases (beq j k)) [
    | inl q ↦ let same : w ≡ v = ground arith in subst P same h.0
    | inr q ↦ AllValues-find P k m v h.1 (ground arith)
  ]

module _ {ℓ κ} {V : Type ℓ} {W : Type κ} where
  -- A map with the same keys.
  abbrev pub map_values : (V → W) → Map V → Map W
  map_values f [] = []
  map_values f ((k, v) ∷ m) = (k, f v) ∷ map_values f m

  KeysAbove-map_values :
      (f : V → W) (k : Bytes) (m : Map V) → KeysAbove k m → KeysAbove k (map_values f m)
  KeysAbove-map_values f k [] h = tt
  KeysAbove-map_values f k ((j, v) ∷ m) h = (h.0, KeysAbove-map_values f k m h.1)

  pub IsOrdered-map_values : (f : V → W) (m : Map V) → IsOrdered m → IsOrdered (map_values f m)
  IsOrdered-map_values f [] h = tt
  IsOrdered-map_values f ((k, v) ∷ m) h =
      (KeysAbove-map_values f k m h.0, IsOrdered-map_values f m h.1)
