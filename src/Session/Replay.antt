-- ===== src/Session/Replay.antt =====
-- The replay guard of `alreadyHandled`.
use lortnoc_tahc.Base.{
  ℕ, ◌/◌, ◌%◌, ◌<◌, ◌≡◌, ◌↔◌, ◌⊎◌, inl, inr, refl, Bool, true, false, ◌||◌, List, [], ◌∷◌,
  Bool-cases, list_eq, list_eq_sound, list_eq_self, Bytes, IsBytes, Text, arith,
}
use lortnoc_tahc.Frame.{FrameType, type_code}
use lortnoc_tahc.Session.{Session, hex_digit, to_hex, frame_key, has, already_handled}

-- The replay guard keys a frame by its type and its public key, and two frames share a key only if
-- they are one frame.
hex_digit-injective : (m n : ℕ) → m < 16 → n < 16 → hex_digit m ≡ hex_digit n → m ≡ n
unfolding hex_digit
hex_digit-injective m n h k e = ground arith

to_hex-injective : (bs cs : Bytes) → IsBytes bs → IsBytes cs → to_hex bs ≡ to_hex cs → bs ≡ cs
unfolding to_hex
to_hex-injective [] [] h k e = refl
to_hex-injective [] (c ∷ cs) h k e = cc
to_hex-injective (b ∷ bs) [] h k e = cc
to_hex-injective (b ∷ bs) (c ∷ cs) h k e = rw (same, to_hex-injective bs cs h.1 k.1 (ground arith))
  where
    high : b / 16 ≡ c / 16
    high = hex_digit-injective _ _ (omega arith) (omega arith) (ground arith)

    low : b % 16 ≡ c % 16
    low = hex_digit-injective _ _ (omega arith) (omega arith) (ground arith)

    same : b ≡ c
    same = omega (arith, high, low)

frame_key-injective :
    (type kind : FrameType) (p q : Bytes)
    → IsBytes p
    → IsBytes q
    → frame_key type p ≡ frame_key kind q
    → (type ≡ kind) × (p ≡ q)
unfolding frame_key type_code
frame_key-injective type kind p q h k e = (ground arith, to_hex-injective p q h k (ground arith))

pub already_handled-has :
    (s : Session) (type : FrameType) (p : Bytes)
    → (already_handled s type p).1 ≡ has s.handled_frames (frame_key type p)
unfolding already_handled
already_handled-has s type p = elim (Bool-cases (has s.handled_frames (frame_key type p))) [
  | inl old ↦ rw (old, already_handled)
  | inr new ↦ rw (new, already_handled)
]

has_equal : (fs : List Text) (j k : Text) → has fs j ≡ true → has fs k ≡ (list_eq j k || has fs k)
has_equal fs j k old = elim (Bool-cases (list_eq j k)) [
  | inl same ↦ rw same (rw (list_eq_sound j k same) at old)
  | inr other ↦ rw other
]

has-frames :
    (s : Session) (type : FrameType) (p : Bytes) (k : Text)
    → has (already_handled s type p).0.handled_frames k
      ≡ (list_eq (frame_key type p) k || has s.handled_frames k)
unfolding already_handled has
has-frames s type p k = elim (Bool-cases (has s.handled_frames (frame_key type p))) [
  | inl old ↦ rw (old, already_handled) (has_equal s.handled_frames (frame_key type p) k old)
  | inr new ↦ rw (new, already_handled)
]

-- The frame just recorded, or one recorded before.
recorded_iff :
    (type kind : FrameType) (p q : Bytes) (b : Bool)
    → IsBytes p
    → IsBytes q
    → ((list_eq (frame_key type p) (frame_key kind q) || b) ≡ true)
      ↔ (((type ≡ kind) × (p ≡ q)) ⊎ (b ≡ true))
recorded_iff type kind p q true h k = (λ e. inr refl, λ e. or_true _)
  where
    or_true : (x : Bool) → (x || true) ≡ true
    or_true true = refl
    or_true false = refl
recorded_iff type kind p q false h k = (
  λ e. inl (frame_key-injective type kind p q h k (list_eq_sound _ _ (rw or_false at e))),
  elim [ inl same ↦ rw (same.0, same.1, list_eq_self (frame_key kind q)) | inr e ↦ cc ],
)
  where
    or_false : (x : Bool) → (x || false) ≡ x
    or_false true = refl
    or_false false = refl

-- After a frame was seen the guard answers yes for a frame exactly if it is that one, or if it was
-- handled before.
pub already_handled_after :
    (s : Session) (type kind : FrameType) (p q : Bytes)
    → IsBytes p
    → IsBytes q
    → ((already_handled (already_handled s type p).0 kind q).1 ≡ true)
      ↔ (((type ≡ kind) × (p ≡ q)) ⊎ ((already_handled s kind q).1 ≡ true))
already_handled_after s type kind p q h k =
    rw
      (
        already_handled-has (already_handled s type p).0 kind q,
        has-frames s type p,
        already_handled-has s kind q,
      )
      (recorded_iff type kind p q (has s.handled_frames (frame_key kind q)) h k)
