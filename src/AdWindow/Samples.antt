-- ===== src/AdWindow/Samples.antt =====
-- internal/handlers/ad_window_tags.go: a contact with both tags of the window, one of them twice.
use trt_whats.Common.{◌≡◌, refl, List, [], ◌∷◌, codes, text_eq}
use trt_whats.Json.{Value, null, str}
use trt_whats.AdWindow.{ad_wait_tag, ad_past_tag, set_ad_window_tag}
use trt_whats.AdWindow.Tags.{window_tags, other_tags, set_ad_window_tag-window_tags}

abbrev tags : List Value
tags = str ad_wait_tag ∷ str (codes "vip") ∷ str ad_past_tag ∷ null ∷ str ad_wait_tag ∷ []

set_ad_window_tag-window_tags_example :
    (window_tags (set_ad_window_tag tags ad_past_tag).0 ≡ str ad_past_tag ∷ [])
    × (other_tags (set_ad_window_tag tags ad_past_tag).0 ≡ str (codes "vip") ∷ null ∷ [])
unfolding text_eq
set_ad_window_tag-window_tags_example = set_ad_window_tag-window_tags tags ad_past_tag refl
