-- ===== src/Discovery/Replies.antt =====
-- The replies of a discovery server (src/net/discoveryclient.cpp): how much of them is kept.
use naleystogramm_core.Prelude.{
  ◌+◌, ◌≤◌, ◌≡◌, refl, ap, ◌∙◌, true, false, none, some, List, [], ◌∷◌, ◌++◌, append_assoc,
  append-nil, length, length-append, leb, ltb, ltb→lt, arith, if◌then◌else◌, Bool-cases, inl, inr,
}
use naleystogramm_core.Prelude.Text.{Text}
use naleystogramm_core.Discovery.{max_response, curl_write, receive}

abbrev pub joined : List Text → Text
joined [] = []
joined (c ∷ cs) = c ++ joined cs

receive-from :
    (cs : List Text) (out : Text)
    → length out ≤ max_response
    → receive cs out
      ≡ (if leb (length (out ++ joined cs)) max_response then some (out ++ joined cs) else none)
unfolding receive curl_write
receive-from [] out h =
    let fits : leb (length out) max_response ≡ true = ground arith in rw (append-nil out, fits) refl
receive-from (c ∷ cs) out h = elim (Bool-cases (ltb max_response (length out + length c))) [
  | inl over ↦
      let long : leb (length (out ++ joined (c ∷ cs))) max_response ≡ false = ground (
        arith,
        length-append out (joined (c ∷ cs)),
        length-append c (joined cs),
        ltb→lt max_response (length out + length c) over,
      ) in
      rw (over, long) refl
  | inr fits ↦ rw fits (
      receive-from cs (out ++ c) (ground (arith, length-append out c))
      ∙ ap (λ t. if leb (length t) max_response then some t else none)
          (append_assoc out c (joined cs)))
]

-- However a reply comes in pieces, its body is all of them where they are at most 8 MiB together, and the
-- request fails where they are more.
pub receive_lem :
    (cs : List Text)
    → receive cs [] ≡ (if leb (length (joined cs)) max_response then some (joined cs) else none)
receive_lem cs = receive-from cs [] (omega arith)
