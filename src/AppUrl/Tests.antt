-- ===== src/AppUrl/Tests.antt =====
-- Addresses at concrete handles.
use lortnoc_tahc.Base.{◌≡◌, refl, some}
use lortnoc_tahc.Keys.{codes}
use lortnoc_tahc.AppUrl.{clean_handle, app_url_with_handle}

cleaned : clean_handle (codes "@Al_ice-7") ≡ codes "alice-7"
unfolding clean_handle
cleaned = refl

prefilled :
    app_url_with_handle (codes "https://x/a?b=1") (some (codes "@Bob"))
    ≡ codes "https://x/a?b=1&handle=bob"
unfolding app_url_with_handle
prefilled = refl
