-- ===== src/Http/Client/Connect.antt =====
-- `connect_http_stream` of http.cpp: whom the client talks to. The outcomes of the socket calls and of mbedTLS are
-- arguments.
use localsend_handheld.Prelude.{
  ◌≡◌, refl, ◌⊎◌, inl, inr, Bool, true, false, not, ◌++◌, [], ◌∷◌, if◌then◌else◌, Bytes, codes,
  is_empty, beq-eq, lower_ascii, Bool-cases,
}
use localsend_handheld.Http.Client.{fingerprint_matches}

-- What TLS does on a connected socket: the set-up throws, the handshake fails, or the peer proves a fingerprint.
pub data Handshake : Type 0 where
  throws : Bytes → Handshake
  fails_with : Bytes → Handshake
  proves : Bytes → Handshake

-- No stream, with an error, a plain one, or one to the peer with a fingerprint.
pub data Connected : Type 0 where
  unconnected : Bytes → Connected
  plain : Connected
  over_tls : Bytes → Connected

unfoldable pub connect_tls : Handshake → Bytes → Connected
connect_tls (throws what) expected = unconnected (codes "TLS setup failed: " ++ what)
connect_tls (fails_with what) expected =
    unconnected (if is_empty what then codes "TLS handshake failed" else what)
connect_tls (proves actual) expected =
    if not (fingerprint_matches actual expected)
    then unconnected
        (codes "TLS fingerprint mismatch actual=" ++ (actual ++ (codes " expected=" ++ expected)))
    else over_tls actual

-- `has_tls` stands for the build with mbedTLS, `reached` for a socket from `connect_tcp`.
unfoldable pub connect_http_stream : Bool → Bool → Handshake → Bool → Bytes → Connected
connect_http_stream has_tls reached handshake use_tls expected =
    if not reached
    then unconnected (codes "TCP connect failed")
    else if not use_tls
    then plain
    else if has_tls
    then connect_tls handshake expected
    else unconnected (codes "TLS support is not compiled in")

-- The peer is the one that was asked for: no TLS was asked for, or it proved a fingerprint that is equal to the
-- expected one but for the case of letters, if one is expected.
abbrev pub IsTrusted : Bool → Handshake → Bytes → Connected → Type 0
IsTrusted use_tls handshake expected (unconnected what) = is_empty what ≡ false
IsTrusted use_tls handshake expected plain = use_tls ≡ false
IsTrusted use_tls handshake expected (over_tls actual) =
    (use_tls ≡ true)
    × (handshake ≡ proves actual)
    × ((expected ≡ []) ⊎ (lower_ascii actual ≡ lower_ascii expected))

matches :
    (actual expected : Bytes)
    → fingerprint_matches actual expected ≡ true
    → (expected ≡ []) ⊎ (lower_ascii actual ≡ lower_ascii expected)
unfolding fingerprint_matches
matches actual [] h = inl refl
matches actual (c ∷ expected) h = inr (beq-eq (lower_ascii actual) (lower_ascii (c ∷ expected)) h)

connect_tls-IsTrusted :
    (handshake : Handshake) (expected : Bytes)
    → IsTrusted true handshake expected (connect_tls handshake expected)
unfolding connect_tls
connect_tls-IsTrusted (throws what) expected = refl
connect_tls-IsTrusted (fails_with []) expected = refl
connect_tls-IsTrusted (fails_with (c ∷ what)) expected = refl
connect_tls-IsTrusted (proves actual) expected =
    elim (Bool-cases (fingerprint_matches actual expected)) [
      | inl e ↦ rw e (refl, refl, matches actual expected e)
      | inr e ↦ rw e refl
    ]

-- Whatever the network and the peer do, the client gets a stream without TLS only where it asked for none, a
-- stream over TLS only to a peer that proved the expected fingerprint, but for the case of letters, or any
-- where none is expected, and otherwise no stream and an error text that is not empty.
pub connect_http_stream-IsTrusted :
    (has_tls reached : Bool) (handshake : Handshake) (use_tls : Bool) (expected : Bytes)
    → IsTrusted use_tls handshake expected
        (connect_http_stream has_tls reached handshake use_tls expected)
unfolding connect_http_stream
connect_http_stream-IsTrusted has_tls false handshake use_tls expected = refl
connect_http_stream-IsTrusted has_tls true handshake false expected = refl
connect_http_stream-IsTrusted false true handshake true expected = refl
connect_http_stream-IsTrusted true true handshake true expected =
    connect_tls-IsTrusted handshake expected
