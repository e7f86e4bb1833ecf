-- ===== src/Http/Headers/Blank.antt =====
-- The blank line that ends the headers in http.cpp.
use mathlib.Core.Option
use mathlib.Core.List.{append_assoc}
use localsend_handheld.Prelude.{
  ℕ, ◌≡◌, refl, sym, ap, subst, ◌∙◌, Bool, true, false, not, [], ◌∷◌, ◌++◌, Option, none, some,
  arith, ◌==◌, Bytes, codes, has_no, has_no-append,
}
use localsend_handheld.Prelude.Decimal.{to_string, int_to_string}
use localsend_handheld.Prelude.Int.{ℤ}
use localsend_handheld.Http.Headers.{find_blank}
use localsend_handheld.Http.Headers.Request.{line_end, type_line, request_head}
use localsend_handheld.Http.Headers.Lines.{no_space, one_line}
use localsend_handheld.Http.Headers.RoundTrip.{IsWord, int_to_string-one_line, to_string-one_line}

abbrev before : Bytes → Option (Bytes × Bytes) → Option (Bytes × Bytes)
before s found = Option.map (λ p. (s ++ p.0, p.1)) found

before-before :
    (c : ℕ) (s : Bytes) (r : Option (Bytes × Bytes))
    → before (c ∷ []) (before s r) ≡ before (c ∷ s) r
before-before c s none = refl
before-before c s (some p) = refl

before-nil : (r : Option (Bytes × Bytes)) → before [] r ≡ r
before-nil none = refl
before-nil (some p) = refl

find_blank-other :
    (c : ℕ) (s : Bytes) → (c == 13) ≡ false → find_blank (c ∷ s) ≡ before (c ∷ []) (find_blank s)
unfolding find_blank
find_blank-other c [] h = refl
find_blank-other c (d ∷ []) h = refl
find_blank-other c (d ∷ e ∷ []) h = refl
find_blank-other c (d ∷ e ∷ f ∷ s) h = ground arith

find_blank-append :
    (line s : Bytes) → has_no 13 line ≡ true → find_blank (line ++ s) ≡ before line (find_blank s)
find_blank-append [] s h = sym (before-nil (find_blank s))
find_blank-append (c ∷ line) s h =
    find_blank-other c (line ++ s) (ground arith)
    ∙ ap (before (c ∷ [])) (find_blank-append line s (ground arith))
    ∙ before-before c line (find_blank s)

find_blank-return :
    (c : ℕ) (s : Bytes)
    → (c == 13) ≡ false
    → find_blank (13 ∷ 10 ∷ c ∷ s) ≡ before (13 ∷ []) (find_blank (10 ∷ c ∷ s))
unfolding find_blank
find_blank-return c [] h = refl
find_blank-return c (d ∷ s) h = ground arith

find_blank-line_end :
    (c : ℕ) (s : Bytes)
    → (c == 13) ≡ false
    → find_blank (13 ∷ 10 ∷ c ∷ s) ≡ before line_end (find_blank (c ∷ s))
find_blank-line_end c s h =
    find_blank-return c s h
    ∙ ap (before (13 ∷ [])) (find_blank-other 10 (c ∷ s) refl)
    ∙ before-before 13 (10 ∷ []) (find_blank (c ∷ s))

-- The first blank line is the end of the text.
abbrev pub EndsHead : Bytes → Type 0
EndsHead s = (body : Bytes) → find_blank (s ++ body) ≡ some (s, body)

abbrev pub begins_line : Bytes → Bool
begins_line [] = false
begins_line (c ∷ s) = not (c == 13)

pub EndsHead-line :
    (line s : Bytes)
    → has_no 13 line ≡ true
    → begins_line s ≡ true
    → EndsHead s
    → EndsHead (line ++ (line_end ++ s))
EndsHead-line line [] h b k body = cc
EndsHead-line line (c ∷ s) h b k body =
    ap find_blank (append_assoc line (line_end ++ (c ∷ s)) body)
    ∙ find_blank-append line (13 ∷ 10 ∷ c ∷ (s ++ body)) h
    ∙ ap (before line)
        (find_blank-line_end c (s ++ body) (ground arith) ∙ ap (before line_end) (k body))

pub EndsHead-last :
    (line : Bytes) → has_no 13 line ≡ true → EndsHead (line ++ (line_end ++ line_end))
EndsHead-last line h body =
    let found : find_blank (line_end ++ (line_end ++ body)) ≡ some (line_end ++ line_end, body) =
      unfold find_blank in refl in
    ap find_blank (append_assoc line (line_end ++ line_end) body)
    ∙ find_blank-append line (line_end ++ (line_end ++ body)) h
    ∙ ap (before line) found

no_space-has_no : (s : Bytes) → no_space s ≡ true → has_no 13 s ≡ true
no_space-has_no [] h = refl
no_space-has_no (c ∷ s) h = ground (arith, no_space-has_no s)

pub size_line-has_no : (size : ℕ) → has_no 13 (codes "Content-Length: " ++ to_string size) ≡ true
size_line-has_no size =
    ground
      (arith, has_no-append 13 (codes "Content-Length: ") (to_string size), to_string-one_line size)

typed-EndsHead :
    (size : ℕ) (content_type : Bytes)
    → one_line content_type ≡ true
    → EndsHead (
        (codes "Content-Length: " ++ to_string size)
        ++ (line_end ++ (type_line content_type ++ line_end)))
typed-EndsHead size [] t =
    EndsHead-last (codes "Content-Length: " ++ to_string size) (size_line-has_no size)
typed-EndsHead size (c ∷ content_type) t =
    let typed = codes "Content-Type: " ++ (c ∷ content_type) in
    let plain : has_no 13 typed ≡ true =
      ground (arith, has_no-append 13 (codes "Content-Type: ") (c ∷ content_type)) in
    let whole : type_line (c ∷ content_type) ++ line_end ≡ typed ++ (line_end ++ line_end) =
      simp append_assoc in
    EndsHead-line (codes "Content-Length: " ++ to_string size) _ (size_line-has_no size) refl
      (subst EndsHead (sym whole) (EndsHead-last typed plain))

pub request_head-EndsHead :
    (method path host : Bytes) (port : ℤ) (size : ℕ) (content_type : Bytes)
    → IsWord method
    → IsWord path
    → one_line host ≡ true
    → one_line content_type ≡ true
    → EndsHead (request_head method path host port size content_type)
unfolding request_head
request_head-EndsHead method path host port size content_type m p h t =
    let first = method ++ (b' ' ∷ (path ++ codes " HTTP/1.1")) in
    let host_line = codes "Host: " ++ (host ++ (b':' ∷ int_to_string port)) in
    let sized =
      (codes "Content-Length: " ++ to_string size)
      ++ (line_end ++ (type_line content_type ++ line_end)) in
    let closed = codes "Connection: close" ++ (line_end ++ sized) in
    let hosted = host_line ++ (line_end ++ closed) in
    let whole : request_head method path host port size content_type
        ≡ first ++ (line_end ++ hosted) =
      simp append_assoc in
    let first_plain : has_no 13 first ≡ true = ground (
      arith,
      has_no-append 13 method (b' ' ∷ (path ++ codes " HTTP/1.1")),
      has_no-append 13 path (codes " HTTP/1.1"),
      no_space-has_no method m.1,
      no_space-has_no path p.1,
    ) in
    let host_plain : has_no 13 host_line ≡ true = ground (
      arith,
      has_no-append 13 (codes "Host: ") (host ++ (b':' ∷ int_to_string port)),
      has_no-append 13 host (b':' ∷ int_to_string port),
      int_to_string-one_line port,
    ) in
    subst EndsHead (sym whole) (
      EndsHead-line first hosted first_plain refl (
        EndsHead-line host_line closed host_plain refl (
          EndsHead-line (codes "Connection: close") sized refl refl
            (typed-EndsHead size content_type t))))
