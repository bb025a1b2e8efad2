-- ===== src/Phone/Samples.antt =====
-- internal/utils/phone.go: the theorems at a few numbers.
use trt_whats.Common.{◌≡◌, ◌≤◌, refl, codes, length, arith}
use trt_whats.Phone.{mask_phone_number}
use trt_whats.Phone.Masking.{mask_phone_number-drop}

four_le : 4 ≤ length (codes "1235678")
four_le = ground arith

mask_phone_number-drop_example :
    (mask_phone_number (codes "1235678") ≡ codes "***5678")
    × (length (mask_phone_number (codes "1235678")) ≡ 7)
unfolding mask_phone_number
mask_phone_number-drop_example =
    mask_phone_number-drop (codes "1235678") (codes "9995678") four_le refl refl
