-- ===== src/Obd/Rfcomm/Tests.antt =====
-- Replies and an opening, and the theorems at them.
use cantou.Common.{◌≡◌, ◌≢◌, refl, some, none, true, false, [], ◌∷◌, Bytes}
use cantou.Obd.Rfcomm.{Outcomes, parse_rfcomm_channel, build_request}
use cantou.Obd.Rfcomm.Calls.{IsReply, parse_rfcomm_channel_iff}

the_request :
    build_request 1
    ≡ 6
      ∷ (0
          ∷ (1
              ∷ (0
                  ∷ (13
                      ∷ (0x35
                          ∷ (3
                              ∷ (0x19
                                  ∷ (0x11
                                      ∷ (1
                                          ∷ (255
                                              ∷ (255
                                                  ∷ (0x35
                                                      ∷ (3 ∷ (9 ∷ (0 ∷ (4 ∷ (0 ∷ [])))))))))))))))))
unfolding build_request
the_request = refl

abbrev body : Bytes
body = 0x35 ∷ (0x19 ∷ (0 ∷ (3 ∷ (8 ∷ (2 ∷ (0 ∷ []))))))

parse_rfcomm_channel_iff_example :
    (parse_rfcomm_channel (7 ∷ (0 ∷ (1 ∷ (0 ∷ (7 ∷ body))))) ≡ some 2
      → IsReply (7 ∷ (0 ∷ (1 ∷ (0 ∷ (7 ∷ body))))) 2)
    × (IsReply (7 ∷ (0 ∷ (1 ∷ (0 ∷ (7 ∷ body))))) 2
        → parse_rfcomm_channel (7 ∷ (0 ∷ (1 ∷ (0 ∷ (7 ∷ body))))) ≢ none)
parse_rfcomm_channel_iff_example = parse_rfcomm_channel_iff (7 ∷ (0 ∷ (1 ∷ (0 ∷ (7 ∷ body))))) 2

-- The device answers, but its socket refuses the timeout.
abbrev refusing : Outcomes
refusing = record {
  sdp_opens = true;
  sdp_connects = true;
  sdp_takes_timeout = true;
  sdp_writes = true;
  sdp_reply = some (7 ∷ (0 ∷ (1 ∷ (0 ∷ (7 ∷ body)))));
  rfcomm_opens = true;
  rfcomm_connects = true;
  rfcomm_takes_timeout = false;
}
