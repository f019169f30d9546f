-- ===== src/XThread/Tests.antt =====
-- A thread of three parts, and the theorems applied to it.
use lortnoc_tahc.Base.{refl, false, [], ◌∷◌, Bytes, inl, arith}
use lortnoc_tahc.XFrame.{public_channel}
use lortnoc_tahc.XFrame.Laws.{part_of}
use lortnoc_tahc.XThread.{offer}
use lortnoc_tahc.XThread.Laws.{IsWhole}
use lortnoc_tahc.XThread.Whole.{offer_all, offer-IsWhole}

abbrev cipher : Bytes
cipher = 9 ∷ 8 ∷ 7 ∷ 6 ∷ 5 ∷ []

-- The last part first, twice.
offer-IsWhole_example :
    IsWhole cipher 2
      (offer
        (offer_all [] (
          part_of public_channel cipher false 2 3 2
          ∷ part_of public_channel cipher false 2 3 2
          ∷ []))
        (part_of public_channel cipher false 2 3 0)).1
offer-IsWhole_example =
    offer-IsWhole public_channel cipher false 2 3 refl
      (part_of public_channel cipher false 2 3 2 ∷ part_of public_channel cipher false 2 3 2 ∷ []) 0
      (inl (2, refl), (inl (2, refl), tt)) (omega arith)
