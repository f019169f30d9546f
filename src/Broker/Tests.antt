-- ===== src/Broker/Tests.antt =====
-- The codec's answers and the icon at concrete inputs.
use lortnoc_tahc.Base.{◌≡◌, refl, none, some, false, [], Text}
use lortnoc_tahc.Keys.{codes}
use lortnoc_tahc.Broker.{answered, unhealthy, codec_base, handle_health, icon_set, reflect_state}

two_slashes : codec_base (some (codes "http://host:8080//")) ≡ codes "http://host:8080"
unfolding codec_base
two_slashes = refl

down : handle_health {A = Text} (answered 503 []) ≡ unhealthy (codes "health 503")
unfolding handle_health
down = refl

never_set : reflect_state none ≡ (icon_set false, codes "lortnoc tahc — PrivacyMaxxing off")
unfolding reflect_state
never_set = refl
