-- ===== src/Prelude/Map/Order.antt =====
-- The order of the keys of a `std::map`: insertion keeps it, and with it a key stands once.
use localsend_handheld.Prelude.Tests.{Bool-cases}
use localsend_handheld.Prelude.Text.{
  Bytes, beq, blt, beq-eq, beq_iff, blt_irrefl, blt_asymm, blt_trans, blt_total,
}
use localsend_handheld.Prelude.Map.{
  Map, find, insert, emplace, alter, KeysAbove, KeysBelow, IsOrdered, IsOrdered-KeysBelow,
}
use mathlib.Core.Path.{◌≡◌, refl, subst}
use mathlib.Core.List.{[], ◌∷◌, ◌++◌}
use mathlib.Core.Logic.{inl, inr}
use mathlib.Core.Bool.{true}
use mathlib.Core.Option.{none, some}
use native.Mathlib.Omega.{arith}

module _ {ℓ} {V : Type ℓ} where
  KeysAbove-emplace :
      (i k : Bytes) (v : V) (m : Map V)
      → blt i k ≡ true
      → KeysAbove i m
      → KeysAbove i (emplace k v m)
  unfolding emplace
  KeysAbove-emplace i k v [] l h = (l, tt)
  KeysAbove-emplace i k v ((j, w) ∷ m) l h = elim (Bool-cases (beq j k)) [
    | inl e ↦ rw e h
    | inr e ↦ elim (Bool-cases (blt k j)) [
      | inl b ↦ rw (e, b) (l, h)
      | inr b ↦ rw (e, b) (h.0, KeysAbove-emplace i k v m l h.1)
    ]
  ]

  KeysAbove-insert :
      (i k : Bytes) (v : V) (m : Map V)
      → blt i k ≡ true
      → KeysAbove i m
      → KeysAbove i (insert k v m)
  unfolding insert
  KeysAbove-insert i k v [] l h = (l, tt)
  KeysAbove-insert i k v ((j, w) ∷ m) l h = elim (Bool-cases (beq j k)) [
    | inl e ↦ rw e (l, h.1)
    | inr e ↦ elim (Bool-cases (blt k j)) [
      | inl b ↦ rw (e, b) (l, h)
      | inr b ↦ rw (e, b) (h.0, KeysAbove-insert i k v m l h.1)
    ]
  ]

  KeysAbove-below : (i k : Bytes) (m : Map V) → blt i k ≡ true → KeysAbove k m → KeysAbove i m
  KeysAbove-below i k [] l h = tt
  KeysAbove-below i k ((j, w) ∷ m) l h = (blt_trans i k j l h.0, KeysAbove-below i k m l h.1)

  pub IsOrdered-emplace : (k : Bytes) (v : V) (m : Map V) → IsOrdered m → IsOrdered (emplace k v m)
  unfolding emplace
  IsOrdered-emplace k v [] h = (tt, tt)
  IsOrdered-emplace k v ((j, w) ∷ m) h = elim (Bool-cases (beq j k)) [
    | inl e ↦ rw e h
    | inr e ↦ elim (Bool-cases (blt k j)) [
      | inl b ↦ rw (e, b) ((b, KeysAbove-below k j m b h.0), h)
      | inr b ↦
          rw (e, b) (KeysAbove-emplace j k v m (blt_total j k e b) h.0, IsOrdered-emplace k v m h.1)
    ]
  ]

  pub IsOrdered-insert : (k : Bytes) (v : V) (m : Map V) → IsOrdered m → IsOrdered (insert k v m)
  unfolding insert
  IsOrdered-insert k v [] h = (tt, tt)
  IsOrdered-insert k v ((j, w) ∷ m) h = elim (Bool-cases (beq j k)) [
    | inl e ↦ let same = beq-eq j k e in rw e (subst (λ i. KeysAbove i m) same h.0, h.1)
    | inr e ↦ elim (Bool-cases (blt k j)) [
      | inl b ↦ rw (e, b) ((b, KeysAbove-below k j m b h.0), h)
      | inr b ↦
          rw (e, b) (KeysAbove-insert j k v m (blt_total j k e b) h.0, IsOrdered-insert k v m h.1)
    ]
  ]

  KeysAbove-alter :
      (f : V → V) (i k : Bytes) (m : Map V) → KeysAbove i m → KeysAbove i (alter f k m)
  unfolding alter
  KeysAbove-alter f i k [] h = tt
  KeysAbove-alter f i k ((j, w) ∷ m) h = elim (Bool-cases (beq j k)) [
    | inl e ↦ rw e h
    | inr e ↦ rw e (h.0, KeysAbove-alter f i k m h.1)
  ]

  pub IsOrdered-alter : (f : V → V) (k : Bytes) (m : Map V) → IsOrdered m → IsOrdered (alter f k m)
  unfolding alter
  IsOrdered-alter f k [] h = tt
  IsOrdered-alter f k ((j, w) ∷ m) h = elim (Bool-cases (beq j k)) [
    | inl e ↦ rw e h
    | inr e ↦ rw e (KeysAbove-alter f j k m h.0, IsOrdered-alter f k m h.1)
  ]

  -- A key below all others is not there.
  find-below : (k : Bytes) (m : Map V) → KeysAbove k m → find k m ≡ none
  unfolding find
  find-below k [] h = refl
  find-below k ((j, w) ∷ m) h = ground (arith, beq_iff j k, blt_irrefl k, find-below k m h.1, h.0)

  -- What is there stays.
  pub find-emplace_old :
      (k j : Bytes) (v w : V) (m : Map V)
      → IsOrdered m
      → find j m ≡ some w
      → find j (emplace k v m) ≡ some w
  unfolding find emplace
  find-emplace_old k j v w [] h e = cc
  find-emplace_old k j v w ((i, u) ∷ m) h e = elim (Bool-cases (beq i k)) [
    | inl q ↦ rw q e
    | inr q ↦ elim (Bool-cases (blt k i)) [
      | inl b ↦
          let absent = find-below k m (KeysAbove-below k i m b h.0) in
          elim (Bool-cases (beq k j)) [
            | inl r ↦ ground (arith, beq_iff k j)
            | inr r ↦ rw (q, b, r) e
          ]
      | inr b ↦ elim (Bool-cases (beq i j)) [
        | inl r ↦ rw (q, b, r) (rw r at e)
        | inr r ↦ rw (q, b, r) (find-emplace_old k j v w m h.1 (rw r at e))
      ]
    ]
  ]

  KeysBelow-emplace_last :
      (k : Bytes) (v : V) (m : Map V) → KeysBelow k m → emplace k v m ≡ m ++ (k, v) ∷ []
  unfolding emplace
  KeysBelow-emplace_last k v [] h = refl
  KeysBelow-emplace_last k v ((j, w) ∷ m) h =
      ground (arith, KeysBelow-emplace_last k v m h.1, beq_iff j k, blt_irrefl k, blt_asymm j k)

  -- A key behind all others goes to the end.
  pub emplace_ordered :
      (m : Map V) (k : Bytes) (v : V) (n : Map V)
      → IsOrdered (m ++ (k, v) ∷ n)
      → emplace k v m ≡ m ++ (k, v) ∷ []
  emplace_ordered m k v n h = KeysBelow-emplace_last k v m (IsOrdered-KeysBelow m k v n h)
