-- ===== src/Http/Url/RoundTrip.antt =====
-- The client's `with_query` against the server's reading of the request target in http.cpp.
use mathlib.Core.Path.{ap₂}
use mathlib.Core.List.{append_assoc, append-nil}
use localsend_handheld.Prelude.{
  ℕ, ◌≡◌, refl, sym, ap, subst, ◌∙◌, Bool, true, false, not, ◌||◌, List, [], ◌∷◌, ◌++◌, arith, ◌==◌,
  Bytes, is_empty, cut-append, cut-none, split_on, split_on-append, split_on-has_no, has_no,
  has_no-append, all, both_true,
}
use localsend_handheld.Prelude.Map.{Map, insert, IsOrdered, insert_ordered}
use localsend_handheld.Http.Url.{
  plus_to_space, url_decode, parse_part, parse_parts, parse_query, render_entries, with_query,
  parse_target,
}

-- A byte that a query can carry as it is.
abbrev pub is_plain : ℕ → Bool
is_plain c = not (c == b'%' || c == b'+' || c == b'&')

abbrev pub ArePlain : Map Bytes → Type 0
ArePlain [] = Unit
ArePlain ((key, value) ∷ query) =
    (all is_plain key ≡ true)
    × (has_no b'=' key ≡ true)
    × (all is_plain value ≡ true)
    × ArePlain query

plain-ne-percent : (c : ℕ) → is_plain c ≡ true → (c == b'%') ≡ false
plain-ne-percent c h = ground arith

plus_to_space-plain : (c : ℕ) → is_plain c ≡ true → plus_to_space c ≡ c
plus_to_space-plain c h = ground arith

url_decode_step :
    (c a b : ℕ) (s : Bytes)
    → (c == b'%') ≡ false
    → url_decode (c ∷ a ∷ b ∷ s) ≡ plus_to_space c ∷ url_decode (a ∷ b ∷ s)
unfolding url_decode
url_decode_step c a b s h = ground arith

url_decode-plain : (s : Bytes) → all is_plain s ≡ true → url_decode s ≡ s
unfolding url_decode
url_decode-plain [] h = refl
url_decode-plain (c ∷ []) h =
    let (p, q) = both_true (is_plain c) true h in rw (plus_to_space-plain c p)
url_decode-plain (c ∷ a ∷ []) h =
    let (p, q) = both_true (is_plain c) (all is_plain (a ∷ [])) h in
    cc (plus_to_space-plain c p, url_decode-plain (a ∷ []) q)
url_decode-plain (c ∷ a ∷ b ∷ s) h =
    let (p, q) = both_true (is_plain c) (all is_plain (a ∷ b ∷ s)) h in
    url_decode_step c a b s (plain-ne-percent c p)
    ∙ ap₂ ◌∷◌ (plus_to_space-plain c p) (url_decode-plain (a ∷ b ∷ s) q)

plain-has_no : (s : Bytes) → all is_plain s ≡ true → has_no b'&' s ≡ true
plain-has_no [] h = refl
plain-has_no (c ∷ s) h = ground (arith, plain-has_no s)

abbrev part_of : Bytes → Bytes → Bytes
part_of key value = key ++ (b'=' ∷ value)

part_filled : (key value : Bytes) → is_empty (part_of key value) ≡ false
part_filled [] value = refl
part_filled (c ∷ key) value = refl

parse_part-plain :
    (key value : Bytes) (out : Map Bytes)
    → all is_plain key ≡ true
    → has_no b'=' key ≡ true
    → all is_plain value ≡ true
    → parse_part (part_of key value) out ≡ insert key value out
unfolding parse_part
parse_part-plain key value out h n k =
    rw (part_filled key value) (
      ground (arith, cut-append b'=' key value n, url_decode-plain key h, url_decode-plain value k))

part-has_no :
    (key value : Bytes)
    → all is_plain key ≡ true
    → all is_plain value ≡ true
    → has_no b'&' (part_of key value) ≡ true
part-has_no key value h k =
    ground (arith, has_no-append b'&' key (b'=' ∷ value), plain-has_no key h, plain-has_no value k)

-- The parts of a rendered query.
parts_of : Map Bytes → List Bytes
parts_of [] = []
parts_of ((key, value) ∷ query) = part_of key value ∷ parts_of query

-- With an entry in front, so that the rendering is not empty.
split_on-render_entries :
    (key value : Bytes) (query : Map Bytes)
    → ArePlain ((key, value) ∷ query)
    → split_on b'&' (render_entries true ((key, value) ∷ query))
      ≡ part_of key value ∷ parts_of query
unfolding render_entries parts_of
split_on-render_entries key value [] (h, n, k, rest) =
    rw (append-nil value) (split_on-has_no b'&' (part_of key value) (part-has_no key value h k))
split_on-render_entries key value ((key', value') ∷ query) (h, n, k, rest) =
    let entry =
      split_on-append b'&' (part_of key value) (render_entries true ((key', value') ∷ query))
        (part-has_no key value h k) in
    let later = split_on-render_entries key' value' query rest in
    ap (split_on b'&')
      (sym (append_assoc key (b'=' ∷ value) (b'&' ∷ render_entries true ((key', value') ∷ query))))
    ∙ entry
    ∙ ap (◌∷◌ (part_of key value)) later

parse_parts-ordered :
    (out query : Map Bytes)
    → ArePlain query
    → IsOrdered (out ++ query)
    → parse_parts (parts_of query) out ≡ out ++ query
unfolding parse_parts parts_of
parse_parts-ordered out [] p h = sym (append-nil out)
parse_parts-ordered out ((key, value) ∷ query) (h, n, k, rest) o =
    ap (parse_parts (parts_of query))
      (parse_part-plain key value out h n k ∙ insert_ordered out key value query o)
    ∙ parse_parts-ordered (out ++ (key, value) ∷ []) query rest
        (subst IsOrdered (sym (append_assoc out ((key, value) ∷ []) query)) o)
    ∙ append_assoc out ((key, value) ∷ []) query

parse_query-render_entries :
    (query : Map Bytes)
    → ArePlain query
    → IsOrdered query
    → is_empty query ≡ false
    → parse_query (render_entries true query) ≡ query
unfolding parse_query parts_of
parse_query-render_entries [] p o h = cc
parse_query-render_entries ((key, value) ∷ query) p o h =
    ap (λ parts. parse_parts parts []) (split_on-render_entries key value query p)
    ∙ parse_parts-ordered [] ((key, value) ∷ query) p o

-- What the client puts in a request target the server reads back: the path, if it has no `?`, and the
-- query, a map in the order of its keys, if its keys and values hold no `%`, `+` or `&` and its keys no
-- `=`.
parse_target-with_query :
    (path : Bytes) (query : Map Bytes)
    → has_no b'?' path ≡ true
    → ArePlain query
    → IsOrdered query
    → parse_target (with_query path query) ≡ (path, query)
unfolding parse_target with_query
parse_target-with_query path [] h p o = ground (arith, cut-none b'?' path h)
parse_target-with_query path ((key, value) ∷ query) h p o = ground (
  arith,
  cut-append b'?' path (render_entries true ((key, value) ∷ query)) h,
  parse_query-render_entries ((key, value) ∷ query) p o refl,
)
