-- ===== src/Swap/Tests.antt =====
-- Sends at concrete inputs, and the theorems applied to them.
use lortnoc_tahc.Base.{◌≡◌, ◌↔◌, ◌≤◌, ◌+◌, false, none, some, [], ◌∷◌, refl, starts_with, arith}
use lortnoc_tahc.Keys.{codes}
use lortnoc_tahc.Keys.Tests.{toy}
use lortnoc_tahc.Meter.{Meter, is_blocked, increment, is_running_low, remaining}
use lortnoc_tahc.Swap.{
  with_key, on_reply, on_success, model_notices, select_notices, enforced, metered, low_notices,
  SwapWorld, EncodeReply, encoded, on_swap, gpt2, judged, encrypting, hiding, free_left,
}
use lortnoc_tahc.Swap.Laws.{Lets, on_swap_iff}
use lortnoc_tahc.Swap.Quota.{swap_all, free_quota}

abbrev answering : EncodeReply → SwapWorld
answering reply = record {
  token = none;
  self_handle = codes "tg:7";
  tg_username = none;
  send_to_codec = λ request. reply;
}

abbrev unmetered : EncodeReply
unmetered = encoded (record {
  cover_text = codes "nice weather";
  remaining = none;
  member = none;
  select = some (codes "0g-router");
  model = some (codes "gpt2/k3");
})

abbrev seven : Meter
seven = record { sends = 7; paid = false }

-- The eighth free send goes out and warns that two are left.
eighth : on_swap toy (answering unmetered) seven (some (1 ∷ [])) (104 ∷ []) ≡ record {
  cover = some (codes "nice weather");
  meter = record { sends = 8; paid = false };
  notices = encrypting ∷ hiding ∷ gpt2 ∷ judged ∷ free_left 2 ∷ [];
}
unfolding on_swap with_key on_reply on_success model_notices select_notices enforced metered
    low_notices is_blocked is_running_low remaining increment starts_with
eighth = refl

on_swap_iff_example :
    ((on_swap toy (answering unmetered) seven (some (1 ∷ [])) (104 ∷ [])).cover
      ≡ some (codes "nice weather"))
    ↔ Lets toy (answering unmetered) seven (some (1 ∷ [])) (104 ∷ []) (codes "nice weather")
on_swap_iff_example =
    on_swap_iff toy (answering unmetered) seven (some (1 ∷ [])) (104 ∷ []) (codes "nice weather")

free_quota_example :
    ((swap_all toy (answering unmetered) seven (some (1 ∷ [])) ((104 ∷ []) ∷ (105 ∷ []) ∷ [])).1
        + seven.sends
      ≤ (swap_all toy
          (answering unmetered)
          seven
          (some (1 ∷ []))
          ((104 ∷ []) ∷ (105 ∷ []) ∷ [])).0.sends)
    × ((swap_all toy (answering unmetered) seven (some (1 ∷ [])) ((104 ∷ []) ∷ (105 ∷ []) ∷ [])).1
          + seven.sends
        ≤ 10)
unfolding enforced
free_quota_example =
    free_quota toy (answering unmetered) seven (some (1 ∷ [])) ((104 ∷ []) ∷ (105 ∷ []) ∷ []) refl
      refl (omega arith) (λ request. refl)
