-- ===== src/Swap.antt =====
-- extension/src/content/index.ts: the `onSwap` callback that `main` hands to the send interceptor, and
-- the messages of extension/src/shared/messages.ts that it exchanges with the service worker. It
-- returns the cover text to send, or null, with the meter and the notices in order.
pub mod Laws
pub mod Quota
pub mod Tests
use lortnoc_tahc.Base.{
  ℕ, Bool, true, false, not, ◌&&◌, ◌||◌, Option, none, some, List, [], ◌∷◌, ◌++◌, if◌then◌else◌,
  ◌==◌, is_some, starts_with, list_eq, ℤ, is_pos, Bytes, Text, to_b64,
}
use lortnoc_tahc.Keys.{Crypto, encrypt, codes}
use lortnoc_tahc.Meter.{
  Meter, value_or, is_blocked, is_running_low, remaining, increment, sync_from_server, mark_blocked,
}
use lortnoc_tahc.AppUrl.{upgrade_url, app_url_with_handle}

-- The ENCODE message; a handshake frame has `fast` and no handle.
pub record EncodeRequest : Type 0 where
  pub ciphertext_b64 : Text
  pub fast : Bool
  pub handle : Option Text
  pub membership : Option Text

pub record EncodeData : Type 0 where
  pub cover_text : Text
  pub remaining : Option ℤ
  pub member : Option Bool
  pub select : Option Text
  pub model : Option Text

-- `CodecResponse<EncodeData>`, or an exception of the call.
pub data EncodeReply : Type 0 where
  thrown : EncodeReply
  refused : Option ℕ → EncodeReply
  encoded : EncodeData → EncodeReply

pub data Notice : Type 0 where
  trial_used_up no_session_yet no_session_toast : Notice
  encrypting hiding gpt2 markov placeholder judged not_judged : Notice
  -- the address and the number of sends
  paywall : Text → ℕ → Notice
  free_left : ℕ → Notice

-- What the callback closes over: the token in storage, the metering bucket, the Telegram name, and
-- the service worker's reply to an ENCODE message.
pub record SwapWorld : Type 0 where
  pub token : Option Text
  pub self_handle : Text
  pub tg_username : Option Text
  pub send_to_codec : EncodeRequest → EncodeReply

pub record SwapResult : Type 0 where
  pub cover : Option Text
  pub meter : Meter
  pub notices : List Notice

-- An empty text counts as no model.
unfoldable pub model_notices : Option Text → List Notice
model_notices none = []
model_notices (some []) = []
model_notices (some (c ∷ t)) =
    if starts_with (codes "gpt2") (c ∷ t)
    then gpt2 ∷ []
    else if starts_with (codes "markov") (c ∷ t)
    then markov ∷ []
    else placeholder ∷ []

unfoldable pub select_notices : Option Text → List Notice
select_notices none = []
select_notices (some t) =
    if starts_with (codes "0g") t
    then judged ∷ []
    else if list_eq t (codes "fallback")
    then not_judged ∷ []
    else []

-- `typeof left === 'number' && (left >= 0 || member === true)`: the count to mirror.
unfoldable pub enforced : Option ℤ → Bool → Option ℤ
enforced none member = none
enforced (some left) member = if is_pos left || member then some left else none

-- The meter after a successful send.
unfoldable pub metered : Meter → Option ℤ → Bool → Meter
metered m none member = increment m
metered m (some left) member = sync_from_server m left member

unfoldable pub low_notices : Meter → Option ℤ → List Notice
low_notices m none = if is_running_low m then free_left (remaining m) ∷ [] else []
low_notices m (some left) = []

module _ (c : Crypto) (w : SwapWorld) where
  unfoldable pub encode_request : Bytes → Bytes → EncodeRequest
  encode_request key real = record {
    ciphertext_b64 = to_b64 (encrypt c key real);
    fast = false;
    handle = some w.self_handle;
    membership = w.token;
  }

  pub paywall_notices : Meter → List Notice
  paywall_notices m =
      trial_used_up ∷ paywall (app_url_with_handle upgrade_url w.tg_username) m.sends ∷ []

  unfoldable pub on_success : Meter → EncodeData → SwapResult
  on_success m d =
      let member = value_or false d.member in
      let left = enforced d.remaining member in
      let m' = metered m left member in
      record {
        cover = some d.cover_text;
        meter = m';
        notices =
            encrypting
            ∷ hiding
            ∷ (model_notices d.model ++ (select_notices d.select ++ low_notices m' left));
      }

  unfoldable pub on_reply : Meter → EncodeReply → SwapResult
  on_reply m thrown = record { cover = none; meter = m; notices = encrypting ∷ hiding ∷ [] }
  on_reply m (refused none) = record { cover = none; meter = m; notices = encrypting ∷ hiding ∷ [] }
  on_reply m (refused (some status)) =
      if status == 402
      then (let m' = mark_blocked m in
          record { cover = none; meter = m'; notices = encrypting ∷ hiding ∷ paywall_notices m' })
      else record { cover = none; meter = m; notices = encrypting ∷ hiding ∷ [] }
  on_reply m (encoded d) = on_success m d

  unfoldable pub with_key : Meter → Option Bytes → Bytes → SwapResult
  with_key m none real = record {
    cover = none;
    meter = m;
    notices = no_session_yet ∷ no_session_toast ∷ [];
  }
  with_key m (some key) real = on_reply m (w.send_to_codec (encode_request key real))

  unfoldable pub on_swap : Meter → Option Bytes → Bytes → SwapResult
  on_swap m key real =
      if not (is_some w.token) && is_blocked m
      then record { cover = none; meter = m; notices = paywall_notices m }
      else with_key m key real
