-- ===== src/Connect/Tests.antt =====
-- Handshakes between two concrete content scripts, and the theorems applied to them.
use lortnoc_tahc.Base.{◌≡◌, ◌≢◌, ◌↔◌, refl, true, false, none, some, [], ◌∷◌, list_eq, Bytes, Text}
use lortnoc_tahc.Frame.{parse_frame}
use lortnoc_tahc.Keys.{codes, try_decrypt}
use lortnoc_tahc.Keys.Tests.{toy, toy_laws}
use lortnoc_tahc.Session.{
  offered, established, fresh, start_offer, accept_offer, is_mine, is_peer, already_handled,
}
use lortnoc_tahc.Session.Laws.{fresh-IsSound, Reach-IsSound, start, later, accepting, offering}
use lortnoc_tahc.Connect.{
  World, Content, DecodeReply, failed, decoded, retry, message, send_offer, tap_invite, on_decode,
  raised, remove_first, finish_offer, establish_from_offer,
}
use lortnoc_tahc.Connect.Wire.{Carries, hear}
use lortnoc_tahc.Connect.Parties.{Connected}
use lortnoc_tahc.Connect.Handshake.{invite_completes}
use lortnoc_tahc.Connect.Glare.{glare_completes}
use lortnoc_tahc.Connect.Restart.{restart_completes}
use lortnoc_tahc.Connect.Lost.{invites, lost_ack_waits}
use lortnoc_tahc.Connect.Sound.{Sound, here, next, connects, taps, Run-Sound}
use lortnoc_tahc.Connect.Verdicts.{on_decode_message, Undecided, on_decode_retry}

-- A codec whose cover text is one letter and the bytes.
abbrev pub world : Bytes → World
world random = record {
  random = random;
  bytes_to_cover = λ bs. some (120 ∷ bs);
  send_cover_text = λ t. true;
}

abbrev read : Text → DecodeReply
read [] = failed (codes "decode 422")
read (c ∷ bs) = decoded bs

filled : (bs : Bytes) → 120 ∷ bs ≢ []
filled bs e = cc

abbrev up : (random : Bytes) → Carries (world random) read
up random = record {
  cover = λ bs. 120 ∷ bs;
  filled = filled;
  covers = λ bs. refl;
  sends = λ t. refl;
  reads = λ bs. refl;
}

abbrev pub blank : Content
blank = record {
  session = fresh;
  answer_watch = false;
  tag_failures = 0;
  mismatch_warned = false;
  invites = [];
}

abbrev left_public : Bytes
left_public = toy.public_key (7 ∷ [])

abbrev right_public : Bytes
right_public = toy.public_key (5 ∷ [])

invite_completes_example :
    let sent = send_offer toy (world (7 ∷ [])) blank in
    let asked = hear toy read (world (5 ∷ [])) sent.1 blank in
    let agreed = tap_invite toy (world (5 ∷ [])) asked.0 left_public in
    let done = hear toy read (world (7 ∷ [])) agreed.1 sent.0 in Connected done.0 agreed.0
unfolding is_mine already_handled list_eq
invite_completes_example =
    invite_completes toy toy_laws read (world (7 ∷ [])) (world (5 ∷ [])) (up (7 ∷ [])) (up (5 ∷ []))
      blank blank (fresh-IsSound toy) (fresh-IsSound toy) refl refl refl refl refl refl

glare_completes_example :
    let sent = send_offer toy (world (7 ∷ [])) blank in
    let sent' = send_offer toy (world (5 ∷ [])) blank in
    let met = hear toy read (world (7 ∷ [])) sent'.1 sent.0 in
    let met' = hear toy read (world (5 ∷ [])) sent.1 sent'.0 in
    Connected met.0 met'.0
    × (hear toy read (world (7 ∷ [])) met'.1 met.0 ≡ (met.0, []))
    × (hear toy read (world (5 ∷ [])) met.1 met'.0 ≡ (met'.0, []))
unfolding already_handled list_eq
glare_completes_example =
    glare_completes toy toy_laws read (world (7 ∷ [])) (world (5 ∷ [])) (up (7 ∷ [])) (up (5 ∷ []))
      blank blank (fresh-IsSound toy) (fresh-IsSound toy) refl refl refl refl refl refl

-- Established with the left side, and waiting for an answer to an offer of the left key.
abbrev joined : Content
joined = record blank { session = (accept_offer toy fresh (5 ∷ []) left_public).0 }

abbrev waiting : Content
waiting = record blank { session = (start_offer toy fresh (7 ∷ [])).0 }

joined-Sound : Sound toy joined
joined-Sound = Reach-IsSound toy (later start (accepting fresh (5 ∷ []) left_public))

waiting-Sound : Sound toy waiting
waiting-Sound = Reach-IsSound toy (later start (offering fresh (7 ∷ []) (λ e. cc)))

restart_completes_example :
    let sent = send_offer toy (world (9 ∷ [])) blank in
    let replaced = hear toy read (world (5 ∷ [])) sent.1 joined in
    let done = hear toy read (world (9 ∷ [])) replaced.1 sent.0 in Connected done.0 replaced.0
unfolding accept_offer is_mine is_peer already_handled list_eq
restart_completes_example =
    restart_completes toy toy_laws read (world (9 ∷ [])) (world (5 ∷ [])) (up (9 ∷ []))
      (up (5 ∷ [])) blank joined (fresh-IsSound toy) joined-Sound refl refl refl refl refl refl

-- A banner is tapped whose key is of low order: the peer is recorded, and nothing else happens.
low_order_tap :
    tap_invite toy (world []) joined []
    ≡ (record joined { session = record joined.session { peer_pub = some [] } }, raised ∷ [])
unfolding tap_invite establish_from_offer finish_offer accept_offer remove_first
low_order_tap = refl

abbrev inviting : Content
inviting = (send_offer toy (world (7 ∷ [])) blank).0

Run-Sound_example : Sound toy (tap_invite toy (world (5 ∷ [])) inviting []).0
Run-Sound_example =
    Run-Sound toy
      (next (next here (connects (world (7 ∷ [])) blank)) (taps (world (5 ∷ [])) inviting []))
      (fresh-IsSound toy)

lost_ack_waits_example :
    ((invites toy read (world (7 ∷ [])) (world (5 ∷ [])) 2 waiting joined).0.session.status
      ≡ offered)
    × ((invites toy read (world (7 ∷ [])) (world (5 ∷ [])) 2 waiting joined).1 ≡ joined)
unfolding accept_offer start_offer is_peer list_eq
lost_ack_waits_example =
    lost_ack_waits toy read (world (7 ∷ [])) (world (5 ∷ [])) toy_laws (up (7 ∷ [])) 2 waiting
      joined waiting-Sound refl refl refl

abbrev keyed : Content
keyed = record joined {
  session = record fresh { conv_key = some (1 ∷ 2 ∷ []); status = established };
}

on_decode_message_example :
    ((on_decode toy (world []) keyed (decoded (1 ∷ 2 ∷ 104 ∷ [])) true).2 ≡ message (104 ∷ [])) ↔ (
      (bytes : Bytes) × (key : Bytes) × (decoded (1 ∷ 2 ∷ 104 ∷ []) ≡ decoded bytes)
      × (parse_frame bytes ≡ none)
      × (keyed.session.conv_key ≡ some key)
      × (try_decrypt toy key bytes ≡ some (104 ∷ [])))
on_decode_message_example =
    on_decode_message toy (world []) keyed (decoded (1 ∷ 2 ∷ 104 ∷ [])) true (104 ∷ [])

on_decode_retry_example :
    ((on_decode toy (world []) blank (failed (codes "decode 500")) false).2 ≡ retry)
    ↔ Undecided toy (world []) blank (failed (codes "decode 500"))
on_decode_retry_example = on_decode_retry toy (world []) blank (failed (codes "decode 500")) false
