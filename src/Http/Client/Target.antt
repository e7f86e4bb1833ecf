-- ===== src/Http/Client/Target.antt =====
-- When `resolve_send_target` of http.cpp gives up TLS, and for what.
use localsend_handheld.Prelude.{
  ◌≡◌, ◌≢◌, refl, sym, ap, ◌∙◌, ◌⊎◌, inl, inr, true, false, not, ◌&&◌, [], ◌∷◌, arith, Bytes,
  is_empty, beq, beq-eq, beq_refl, Bool-cases,
}
use localsend_handheld.Prelude.Result.{Result, ok, err, out_of_fuel}
use localsend_handheld.Json.{Numbers}
use localsend_handheld.Protocol.{Device, InfoDto}
use localsend_handheld.Protocol.Dto.{info_from_json}
use localsend_handheld.Protocol.Sent.{read}
use localsend_handheld.Http.Client.{
  HttpResult, HttpCall, has_status, info_matches_target_identity, resolve_send_target,
  plain_info_call, take_info, downgraded, or_old,
}

-- The identity that a target and an answer share: a fingerprint that is not empty, or else an alias that is not
-- empty, or none of both is known of the target.
abbrev pub SharesIdentity : InfoDto → Device → Type 0
SharesIdentity info target =
    ((target.fingerprint ≢ []) × (info.fingerprint ≡ target.fingerprint))
    ⊎ (((target.alias ≢ []) × (info.alias ≡ target.alias))
        ⊎ ((target.fingerprint ≡ []) × (target.alias ≡ [])))

-- Why TLS is given up: the target was to be reached by it, and an answer without it shares its identity.
pub record MayDowngrade (n : Numbers) (answer : HttpResult) (target : Device) (info : InfoDto)
    : Type 0 where
  pub secure : target.is_https ≡ true
  pub good : has_status 200 answer ≡ true
  pub readable : read n info_from_json answer.body ≡ ok info
  pub shared : SharesIdentity info target

-- The first text, or the second for an empty one.
abbrev pub first_of : Bytes → Bytes → Bytes
first_of [] old = old
first_of (c ∷ s) old = c ∷ s

-- The device at the same address, without TLS, as the answer describes it.
pub record IsDescribed (info : InfoDto) (target found : Device) : Type 0 where
  pub ip : found.ip ≡ target.ip
  pub port : found.port ≡ target.port
  pub plain : found.is_https ≡ false
  pub fingerprint : found.fingerprint ≡ info.fingerprint
  pub version : found.version ≡ first_of info.version target.version
  pub alias : found.alias ≡ first_of info.alias target.alias
  pub device_model : found.device_model ≡ first_of info.device_model target.device_model
  pub device_type : found.device_type ≡ info.device_type
  pub download : found.download ≡ info.download

or_old-first_of : (old x : Bytes) → or_old old x ≡ first_of x old
or_old-first_of old [] = refl
or_old-first_of old (c ∷ s) = refl

downgraded-IsDescribed :
    (info : InfoDto) (target : Device) → IsDescribed info target (downgraded info target)
downgraded-IsDescribed info target = record {
  ip = refl;
  port = refl;
  plain = refl;
  fingerprint = refl;
  version = or_old-first_of target.version info.version;
  alias = or_old-first_of target.alias info.alias;
  device_model = or_old-first_of target.device_model info.device_model;
  device_type = refl;
  download = refl;
}

is_empty-eq : (s : Bytes) → is_empty s ≡ true → s ≡ []
is_empty-eq [] h = refl
is_empty-eq (c ∷ s) h = cc

is_empty-ne : (s : Bytes) → is_empty s ≡ false → s ≢ []
is_empty-ne [] h e = cc
is_empty-ne (c ∷ s) h e = cc

ne-is_empty : (s : Bytes) → s ≢ [] → is_empty s ≡ false
ne-is_empty [] h = absurd (h refl)
ne-is_empty (c ∷ s) h = refl

-- The test of the code is the shared identity.
info_matches-SharesIdentity :
    (info : InfoDto) (target : Device)
    → info_matches_target_identity info target ≡ true
    → SharesIdentity info target
unfolding info_matches_target_identity
info_matches-SharesIdentity info target h =
    elim (Bool-cases
      (not (is_empty target.fingerprint) && beq info.fingerprint target.fingerprint)) [
        | inl e ↦ inl (
          is_empty-ne target.fingerprint (ground arith),
          beq-eq info.fingerprint target.fingerprint (ground arith),
        )
        | inr e ↦ elim (Bool-cases (not (is_empty target.alias) && beq info.alias target.alias)) [
          | inl f ↦ inr (
              inl (
                is_empty-ne target.alias (ground arith),
                beq-eq info.alias target.alias (ground arith),
              ))
          | inr f ↦ inr (
              inr (
                is_empty-eq target.fingerprint (ground arith),
                is_empty-eq target.alias (ground arith),
              ))
        ]
      ]

SharesIdentity-matches :
    (info : InfoDto) (target : Device)
    → SharesIdentity info target
    → info_matches_target_identity info target ≡ true
unfolding info_matches_target_identity
SharesIdentity-matches info target (inl (filled, same)) =
    let f = ne-is_empty target.fingerprint filled in
    let same : beq info.fingerprint target.fingerprint ≡ true =
      rw same (beq_refl target.fingerprint) in
    ground arith
SharesIdentity-matches info target (inr (inl (filled, same))) =
    let f = ne-is_empty target.alias filled in
    let same : beq info.alias target.alias ≡ true = rw same (beq_refl target.alias) in ground arith
SharesIdentity-matches info target (inr (inr (f, a))) =
    let no_fingerprint : is_empty target.fingerprint ≡ true = ap is_empty f in
    let no_alias : is_empty target.alias ≡ true = ap is_empty a in ground arith

-- The target that is found: a downgrade where there is a reason for one, and only there.
abbrev pub IsResolved : Numbers → HttpResult → Device → Device → Type 0
IsResolved n answer target found =
    ((info : InfoDto) × MayDowngrade n answer target info × IsDescribed info target found)
    ⊎ (((info : InfoDto) → ¬ MayDowngrade n answer target info) × (found ≡ target))

take_info-IsResolved :
    (n : Numbers) (answer : HttpResult) (target : Device) (r : Result InfoDto)
    → target.is_https ≡ true
    → has_status 200 answer ≡ true
    → read n info_from_json answer.body ≡ r
    → IsResolved n answer target (take_info target r)
take_info-IsResolved n answer target (err what) s g e =
    inr (λ info m. let same = m.readable in cc, refl)
take_info-IsResolved n answer target out_of_fuel s g e =
    inr (λ info m. let same = m.readable in cc, refl)
take_info-IsResolved n answer target (ok info) s g e =
    elim (Bool-cases (info_matches_target_identity info target)) [
      | inl m ↦ rw m (
          inl (
            info,
            record {
              secure = s;
              good = g;
              readable = e;
              shared = info_matches-SharesIdentity info target m;
            },
            downgraded-IsDescribed info target,
          ))
      | inr m ↦ rw m (
          inr (
            λ other may.
                let same : ok info ≡ ok other = sym e ∙ may.readable in
                let matches = SharesIdentity-matches other target may.shared in cc,
            refl,
          ))
    ]

module _ (n : Numbers) (request_raw : HttpCall → Result HttpResult) where
  -- Where the question for the target's description, without TLS, does not throw, the target of a send is found. It
  -- is the device at the same address without TLS, as the answer describes it, exactly if it was to be reached by
  -- TLS and the answer has status 200 and a readable description that shares the device's identity: its
  -- fingerprint, or its alias, where that is not empty, or any if the device has neither. Otherwise it is the
  -- device as it was given.
  pub resolve_send_target-IsResolved :
      (target : Device) (answer : HttpResult)
      → request_raw (plain_info_call target) ≡ ok answer
      → (found : Device) × (resolve_send_target n request_raw target ≡ ok found)
        × IsResolved n answer target found
  unfolding resolve_send_target
  resolve_send_target-IsResolved target answer a = elim (Bool-cases target.is_https) [
    | inr e ↦ (
      target,
      rw (resolve_send_target, e) refl,
      inr (λ info m. let secure = m.secure in cc, refl),
    )
    | inl e ↦ elim (Bool-cases (has_status 200 answer)) [
      | inr s ↦ (
        target,
        rw (resolve_send_target, e, a) (rw s refl),
        inr (λ info m. let good = m.good in cc, refl),
      )
      | inl s ↦ (
        take_info target (read n info_from_json answer.body),
        rw (resolve_send_target, e, a) (rw s refl),
        take_info-IsResolved n answer target (read n info_from_json answer.body) e s refl,
      )
    ]
  ]
