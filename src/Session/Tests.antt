-- ===== src/Session/Tests.antt =====
-- Sessions at concrete inputs, and the session theorems applied to them.
use lortnoc_tahc.Base.{◌≡◌, refl, some, [], ◌∷◌, arith}
use lortnoc_tahc.Frame.{ack, type_code}
use lortnoc_tahc.Keys.Tests.{toy}
use lortnoc_tahc.Session.{Session, established, fresh, on_ack, accept_offer, start_offer, frame_key}
use lortnoc_tahc.Session.Laws.{
  Reach, start, later, offering, acked, accepting, IsSound, Reach-IsSound,
}
use lortnoc_tahc.Session.Storage.{IsStorableSession}

abbrev alice : Session
alice = on_ack toy (start_offer toy fresh (7 ∷ [])).0 (0 ∷ []) (toy.public_key (5 ∷ []))

abbrev bob : Session
bob = (accept_offer toy fresh (5 ∷ []) (toy.public_key (7 ∷ []))).0

alice-Reach : Reach toy alice
alice-Reach = later (later start (offering fresh (7 ∷ []) (λ e. cc))) (acked _ (0 ∷ []) _)

bob-Reach : Reach toy bob
bob-Reach = later start (accepting fresh (5 ∷ []) _)

-- A key with a letter digit: type 2, public key ab 0c.
frame_key_text : frame_key ack (0xab ∷ 0x0c ∷ []) ≡ b'2' ∷ b':' ∷ b'a' ∷ b'b' ∷ b'0' ∷ b'c' ∷ []
unfolding frame_key type_code
frame_key_text = refl

Reach-IsSound_example : IsSound toy alice
Reach-IsSound_example = Reach-IsSound toy alice-Reach

abbrev small : Session
small = record {
  key_pair = some (record { private = 1 ∷ 2 ∷ []; public = 3 ∷ [] });
  peer_pub = some (4 ∷ []);
  conv_key = some (5 ∷ 6 ∷ 7 ∷ []);
  status = established;
  handled_frames = [];
}

small-Storable : IsStorableSession small
small-Storable = record {
  private = (omega arith, λ e. cc);
  public = (omega arith, λ e. cc);
  peer_pub = (omega arith, λ e. cc);
  conv_key = (omega arith, λ e. cc);
}
