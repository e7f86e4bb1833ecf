-- ===== src/Http/Client/Post/Posted.antt =====
-- What an upload has written when it ends (`post_file_raw` of http.cpp).
use mathlib.Core.List.{append_assoc, append-nil}
use localsend_handheld.Prelude.{
  joined, suc, ◌≤◌, ◌≡◌, refl, sym, ap, ◌∙◌, true, false, inl, inr, [], ◌∷◌, ◌++◌, Bool-cases,
  Bytes, All, length, ◌≢◌, arith,
}
use localsend_handheld.Prelude.Int.{ℤ, pos}
use localsend_handheld.Prelude.Result.{ok, ◌>>=◌}
use localsend_handheld.Http.Client.{HttpResult}
use localsend_handheld.Http.Client.Connect.{Connected, unconnected, plain, over_tls}
use localsend_handheld.Http.Headers.Response.{parse_response}
use localsend_handheld.Http.Client.Post.{
  Link, Posting, post_all, post_head, post_result, post_over, post_file_raw, answer_result,
}
use localsend_handheld.Http.Client.Post.Rounds.{
  IsPosted, IsCalm, post_rounds-IsPosted, post_rounds-is_ok,
}

module _ (link : Link) (head content : Bytes) where
  post_all-IsPosted : IsPosted (head ++ content) (length content) (post_all link head content)
  unfolding post_all
  post_all-IsPosted = elim (Bool-cases (link.writes 0)) [
    | inl w ↦
        rw (post_all, w)
          (post_rounds-IsPosted link (head ++ content) (length content) (suc (length content)) 0 0
            content _ (append_assoc head [] content) (omega arith) tt (omega arith))
    | inr w ↦
        rw (post_all, w)
          (record { left = head ++ content; written = refl; whole = λ f. cc; told = tt })
  ]

  -- An answer is waited for only if all was written.
  post_result-waits :
      (p : Posting) (result : HttpResult)
      → post_result link p ≡ ok result
      → result.status ≢ pos 0
      → p.is_ok ≡ true
  unfolding post_result
  post_result-waits p result e h = ground arith

  whole_text :
      (p : Posting)
      → IsPosted (head ++ content) (length content) p
      → p.is_ok ≡ true
      → joined p.sent ≡ head ++ content
  whole_text p h e =
      sym (append-nil (joined p.sent)) ∙ ap (◌++◌ (joined p.sent)) (sym (h.whole e)) ∙ h.written

  post_over-whole :
      (c : Connected) (result : HttpResult)
      → (post_over c link head content).0 ≡ ok result
      → result.status ≢ pos 0
      → joined (post_over c link head content).1.sent ≡ head ++ content
  unfolding post_over
  post_over-whole (unconnected what) result e h = absurd (h cc)
  post_over-whole plain result e h =
      whole_text _ post_all-IsPosted (post_result-waits (post_all link head content) result e h)
  post_over-whole (over_tls proved) result e h =
      whole_text _ post_all-IsPosted (post_result-waits (post_all link head content) result e h)

  post_over-told :
      (c : Connected)
      → All (λ bytes. bytes ≤ length content) (post_over c link head content).1.progress
  unfolding post_over
  post_over-told (unconnected what) = tt
  post_over-told plain = post_all-IsPosted.told
  post_over-told (over_tls proved) = post_all-IsPosted.told

  post_all-is_ok : IsCalm link → (post_all link head content).is_ok ≡ true
  unfolding post_all
  post_all-is_ok calm =
      rw (post_all, calm.writes 0)
        (post_rounds-is_ok link (head ++ content) (length content) (suc (length content)) 0 0
          content (record { is_ok = true; body = []; sent = head ∷ []; progress = [] }) calm refl)

  post_result-answered :
      (p : Posting)
      → p.is_ok ≡ true
      → link.cancelled_at_end ≡ false
      → post_result link p ≡ (parse_response link.answer >>= λ r. ok (answer_result link.answer r))
  unfolding post_result
  post_result-answered p h k = ground arith

  -- Without cancellation and with writes that succeed, all is written and the answer decides.
  pub post_over-calm :
      (c : Connected)
      → ((what : Bytes) → c ≢ unconnected what)
      → IsCalm link
      → link.cancelled_at_end ≡ false
      → (joined (post_over c link head content).1.sent ≡ head ++ content)
        × ((post_over c link head content).0
            ≡ (parse_response link.answer >>= λ r. ok (answer_result link.answer r)))
  unfolding post_over post_result
  post_over-calm (unconnected what) s calm last = absurd (s what refl)
  post_over-calm plain s calm last =
      let sent = post_all-is_ok calm in
      (
        whole_text _ post_all-IsPosted sent,
        post_result-answered (post_all link head content) sent last,
      )
  post_over-calm (over_tls proved) s calm last =
      let sent = post_all-is_ok calm in
      (
        whole_text _ post_all-IsPosted sent,
        post_result-answered (post_all link head content) sent last,
      )

-- An upload that gets an answer with a status was written whole, headers and content, whatever the user and the
-- network do meanwhile, and no more progress was told than the file has bytes.
pub post_file_raw-whole :
    (link : Link) (path host : Bytes) (port : ℤ) (content_type content : Bytes)
    (result : HttpResult)
    → (post_file_raw link path host port (length content) content_type content).0 ≡ ok result
    → result.status ≢ pos 0
    → (joined (post_file_raw link path host port (length content) content_type content).1.sent
        ≡ post_head path host port (length content) content_type ++ content)
      × All
          (λ bytes. bytes ≤ length content)
          (post_file_raw link path host port (length content) content_type content).1.progress
unfolding post_file_raw
post_file_raw-whole link path host port content_type content result e h =
    let head = post_head path host port (length content) content_type in
    (
      post_over-whole link head content link.connected result e h,
      post_over-told link head content link.connected,
    )
