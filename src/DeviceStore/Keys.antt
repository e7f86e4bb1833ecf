-- ===== src/DeviceStore/Keys.antt =====
-- `device_key` of device_store.cpp: which devices share a key.
use localsend_handheld.Prelude.{
  ℕ, ◌≡◌, ◌↔◌, refl, sym, ap, ◌∙◌, true, false, [], ◌∷◌, ◌++◌, arith, Bytes, codes, ◌⊎◌, inl, inr,
  ◌≢◌, tail_of,
}
use localsend_handheld.Prelude.Int.{ℤ}
use localsend_handheld.Prelude.Decimal.{
  int_to_string, int_to_string-lacks, int_to_string-injective, lacks,
}
use localsend_handheld.Protocol.{Device}
use localsend_handheld.DeviceStore.{device_key, endpoint_key}

lacks-append_cons : (c : ℕ) (s t : Bytes) → lacks c (s ++ c ∷ t) ≡ false
lacks-append_cons c [] t = ground arith
lacks-append_cons c (x ∷ s) t = ground (arith, lacks-append_cons c s t)

-- Two texts that are equal split at the last separator alike.
split_unique :
    (c : ℕ) (a b s t : Bytes)
    → lacks c s ≡ true
    → lacks c t ≡ true
    → a ++ c ∷ s ≡ b ++ c ∷ t
    → (a ≡ b) × (s ≡ t)
split_unique c [] [] s t h k e = (refl, ap (tail_of) e)
split_unique c [] (y ∷ b) s t h k e = ground (arith, lacks-append_cons c b t)
split_unique c (x ∷ a) [] s t h k e = ground (arith, lacks-append_cons c a s)
split_unique c (x ∷ a) (y ∷ b) s t h k e = ground (arith, split_unique c a b s t h k)

endpoint_key-injective :
    (ip ip' : Bytes) (port port' : ℤ)
    → ip ++ (codes ":" ++ int_to_string port) ≡ ip' ++ (codes ":" ++ int_to_string port')
    → (ip ≡ ip') × (port ≡ port')
endpoint_key-injective ip ip' port port' e =
    let parts =
      split_unique b':' ip ip' (int_to_string port) (int_to_string port')
        (int_to_string-lacks b':' port refl refl) (int_to_string-lacks b':' port' refl refl) e in
    (parts.0, int_to_string-injective port port' parts.1)

-- What the store takes for the same peer.
abbrev pub SamePeer : Device → Device → Type 0
SamePeer d e =
    ((d.fingerprint ≢ []) × (d.fingerprint ≡ e.fingerprint))
    ⊎ ((d.fingerprint ≡ []) × (e.fingerprint ≡ []) × (d.ip ≡ e.ip) × (d.port ≡ e.port))

device_key-fingerprint :
    (d : Device) → d.fingerprint ≢ [] → device_key d ≡ codes "fingerprint:" ++ d.fingerprint
unfolding device_key
device_key-fingerprint d h = ground arith

device_key-endpoint :
    (d : Device)
    → d.fingerprint ≡ []
    → device_key d ≡ codes "endpoint:" ++ (d.ip ++ (codes ":" ++ int_to_string d.port))
unfolding device_key endpoint_key
device_key-endpoint d h = ground arith

empty-cases : (s : Bytes) → (s ≡ []) ⊎ (s ≢ [])
empty-cases [] = inl refl
empty-cases (c ∷ s) = inr (λ e. cc)

abbrev head_or : ℕ → Bytes → ℕ
head_or d [] = d
head_or d (c ∷ s) = c

prefixes_differ : (s t : Bytes) → codes "endpoint:" ++ s ≡ codes "fingerprint:" ++ t → ⊥
prefixes_differ s t h =
    let e : head_or 0 (codes "endpoint:" ++ s) ≡ head_or 0 (codes "fingerprint:" ++ t) =
      ap (head_or 0) h in
    absurd (omega arith)

one_key : (d e : Device) → device_key d ≡ device_key e → SamePeer d e
one_key d e h = elim (empty-cases d.fingerprint) [
  | inl a ↦ elim (empty-cases e.fingerprint) [
    | inl b ↦
        let parts =
          endpoint_key-injective d.ip e.ip d.port e.port
            (cc (h, device_key-endpoint d a, device_key-endpoint e b)) in
        inr (a, b, parts.0, parts.1)
    | inr b ↦ absurd (
        prefixes_differ _ e.fingerprint
          (sym (device_key-endpoint d a) ∙ h ∙ device_key-fingerprint e b))
  ]
  | inr a ↦ elim (empty-cases e.fingerprint) [
    | inl b ↦ absurd (
        prefixes_differ _ d.fingerprint
          (sym (device_key-endpoint e b) ∙ sym h ∙ device_key-fingerprint d a))
    | inr b ↦ inl (a, cc (h, device_key-fingerprint d a, device_key-fingerprint e b))
  ]
]

-- Two devices have one key exactly when they share a fingerprint that is not empty, or neither has a
-- fingerprint and their addresses and ports are equal.
device_key-SamePeer : (d e : Device) → (device_key d ≡ device_key e) ↔ SamePeer d e
device_key-SamePeer d e = (one_key d e, λ h. unfold device_key endpoint_key in ground arith)
