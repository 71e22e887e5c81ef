-- ===== src/Obd/Rfcomm/Calls.antt =====
-- What opening an adapter leaves open, and which channel it takes from a reply.
use cantou.Common.{
  ℕ, ◌≡◌, ◌≢◌, refl, ap, ◌∙◌, Bool, true, false, ◌==◌, Option, none, some, List, [], ◌∷◌, ◌++◌,
  arith, Bytes, Option-cases, Bool-cases, ==_iff, inl, inr,
}
use cantou.Obd.Rfcomm.{
  sdp_socket, rfcomm_socket, Call, opened, closed, connected_sdp, connected_rfcomm, timeout_set,
  wrote, channel_at, scan, parse_rfcomm_channel,
}

-- Whether the socket for SDP and that for the adapter are open after some calls; `none` when one of
-- them is opened twice, or a call is made on a socket that is not open.
abbrev pub open_after : Option (Bool × Bool) → List Call → Option (Bool × Bool)
open_after none calls = none
open_after (some s) [] = some s
open_after (some (false, r)) (opened sdp_socket ∷ calls) = open_after (some (true, r)) calls
open_after (some (d, false)) (opened rfcomm_socket ∷ calls) = open_after (some (d, true)) calls
open_after (some (true, r)) (closed sdp_socket ∷ calls) = open_after (some (false, r)) calls
open_after (some (d, true)) (closed rfcomm_socket ∷ calls) = open_after (some (d, false)) calls
open_after (some (true, r)) (connected_sdp address ∷ calls) = open_after (some (true, r)) calls
open_after (some (d, true)) (connected_rfcomm address channel ∷ calls) =
    open_after (some (d, true)) calls
open_after (some (true, r)) (timeout_set sdp_socket t ∷ calls) = open_after (some (true, r)) calls
open_after (some (d, true)) (timeout_set rfcomm_socket t ∷ calls) =
    open_after (some (d, true)) calls
open_after (some (true, r)) (wrote bs ∷ calls) = open_after (some (true, r)) calls
open_after (some s) (_ ∷ calls) = none

-- Where a reply has the marker of a channel, and the byte behind it.
abbrev pub IsMarked : Bytes → ℕ → Type 0
IsMarked s channel =
    (before : Bytes) × (after : Bytes) × (s
      ≡ before ++ (0x19 ∷ (0 ∷ (0x03 ∷ (0x08 ∷ (channel ∷ after))))))

channel_at_sound : (s : Bytes) (channel : ℕ) → channel_at s ≡ some channel → IsMarked s channel
channel_at_sound (a ∷ (b ∷ (c ∷ (d ∷ (e ∷ s))))) channel h = ([], s, ground (arith, h))
channel_at_sound (a ∷ (b ∷ (c ∷ (d ∷ [])))) channel h = cc
channel_at_sound (a ∷ (b ∷ (c ∷ []))) channel h = cc
channel_at_sound (a ∷ (b ∷ [])) channel h = cc
channel_at_sound (a ∷ []) channel h = cc
channel_at_sound [] channel h = cc

scan_sound : (s : Bytes) (channel : ℕ) → scan s ≡ some channel → IsMarked s channel
unfolding scan
scan_sound [] channel h = cc
scan_sound (a ∷ s) channel h = elim (Option-cases (channel_at (a ∷ s))) [
  | inl e ↦
      let (before, after, same) = scan_sound s channel (rw e at h) in
      (a ∷ before, after, ap (◌∷◌ a) same)
  | inr (c, e) ↦ channel_at_sound (a ∷ s) channel (e ∙ (rw e at h))
]

scan_complete :
    (before after : Bytes) (channel : ℕ)
    → scan (before ++ (0x19 ∷ (0 ∷ (0x03 ∷ (0x08 ∷ (channel ∷ after)))))) ≢ none
unfolding scan
scan_complete [] after channel h = cc
scan_complete (b ∷ before) after channel h =
    let rest = before ++ (0x19 ∷ (0 ∷ (0x03 ∷ (0x08 ∷ (channel ∷ after))))) in
    elim (Option-cases (channel_at (b ∷ rest))) [
      | inl e ↦ scan_complete before after channel (rw e at h)
      | inr (c, e) ↦ absurd (ground (arith, h, e))
    ]

-- A reply that is long enough for its header.
parse_long_reply :
    (kind a b c d : ℕ) (body : Bytes) (channel : ℕ)
    → (parse_rfcomm_channel (kind ∷ (a ∷ (b ∷ (c ∷ (d ∷ body))))) ≡ some channel
        → (kind ≡ 0x07) × IsMarked body channel)
      × (kind ≡ 0x07
          → IsMarked body channel
          → parse_rfcomm_channel (kind ∷ (a ∷ (b ∷ (c ∷ (d ∷ body))))) ≢ none)
unfolding parse_rfcomm_channel
parse_long_reply kind a b c d body channel = elim (Bool-cases (kind == 0x07)) [
  | inl reply ↦ (
    (λ h. ((==_iff kind 0x07).0 reply, scan_sound body channel (ground (arith, reply, h)))),
    (λ e (before, after, same) h.
        scan_complete before after channel (ground (arith, reply, h, ap scan same))),
  )
  | inr other ↦
      ((λ h. absurd (ground (arith, other, h))), (λ e m h. absurd (ground (arith, other, e))))
]

-- A reply of the right kind: a byte for the kind, four more of the header, and the body.
abbrev pub IsReply : Bytes → ℕ → Type 0
IsReply resp channel =
    (header : ℕ × ℕ × ℕ × ℕ) × (body : Bytes) × (resp
      ≡ 0x07 ∷ (header.0 ∷ (header.1 ∷ (header.2 ∷ (header.3 ∷ body)))))
    × IsMarked body channel

parse_rfcomm_channel_sound :
    (resp : Bytes) (channel : ℕ) → parse_rfcomm_channel resp ≡ some channel → IsReply resp channel
unfolding parse_rfcomm_channel
parse_rfcomm_channel_sound (kind ∷ (a ∷ (b ∷ (c ∷ (d ∷ body))))) channel h =
    let (same, marked) = (parse_long_reply kind a b c d body channel).0 h in
    ((a, b, c, d), body, ap (λ k. k ∷ (a ∷ (b ∷ (c ∷ (d ∷ body))))) same, marked)
parse_rfcomm_channel_sound (kind ∷ (a ∷ (b ∷ (c ∷ [])))) channel h = cc
parse_rfcomm_channel_sound (kind ∷ (a ∷ (b ∷ []))) channel h = cc
parse_rfcomm_channel_sound (kind ∷ (a ∷ [])) channel h = cc
parse_rfcomm_channel_sound (kind ∷ []) channel h = cc
parse_rfcomm_channel_sound [] channel h = cc

-- A reply of any length gives a channel only if it has the right kind and behind its header of five
-- bytes the marker of a channel, with that channel behind the marker; and it gives one whenever there
-- is such a marker. Any other reply is refused.
pub parse_rfcomm_channel_iff :
    (resp : Bytes) (channel : ℕ)
    → (parse_rfcomm_channel resp ≡ some channel → IsReply resp channel)
      × (IsReply resp channel → parse_rfcomm_channel resp ≢ none)
parse_rfcomm_channel_iff resp channel = (
  parse_rfcomm_channel_sound resp channel,
  λ ((a, b, c, d), body, e, marked).
      rw e ((parse_long_reply 0x07 a b c d body channel).1 refl marked),
)
