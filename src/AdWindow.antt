-- ===== src/AdWindow.antt =====
-- internal/handlers/ad_window_tags.go, setAdWindowTag: the tags of a contact's free messaging window.
-- A contact's tags are a JSON array, in which values that are no texts are kept.
mod Samples
pub mod Tags
use trt_whats.Common.{
  Bool, true, false, not, ◌&&◌, ◌||◌, List, [], ◌∷◌, ◌++◌, Option, none, some, if◌then◌else◌, Text,
  codes, ◌==◌, text_eq_on, ℕ,
}
use trt_whats.Json.{Value, str, as_string}

abbrev pub ad_wait_tag : Text
ad_wait_tag = codes "Pub 72h ⏳"

abbrev pub ad_past_tag : Text
ad_past_tag = codes "Pub +72h ⌛"

abbrev pub is_window_tag : Text → Bool
is_window_tag s = (s == ad_wait_tag) || (s == ad_past_tag)

-- The variables of the loop.
pub record Progress : Type 0 where
  pub out : List Value
  pub has_add : Bool
  pub changed : Bool

abbrev pub keep : Value → Progress → Progress
keep t p = record p { out = p.out ++ t ∷ [] }

-- The body of the loop.
unfoldable pub tag_step : Text → Progress → Value → Progress
tag_step add p t = elim (as_string t) [
  | none ↦ keep t p
  | some s ↦
      if is_window_tag s
      then (if (s == add) && not p.has_add
          then record (keep t p) { has_add = true }
          else record p { changed = true })
      else keep t p
]

unfoldable pub tag_loop : Text → Progress → List Value → Progress
unfolding tag_step
tag_loop add p [] = p
tag_loop add p (t ∷ ts) = tag_loop add (tag_step add p t) ts

unfoldable pub set_ad_window_tag : List Value → Text → List Value × Bool
unfolding tag_loop
set_ad_window_tag current add =
    let p = tag_loop add (record { out = []; has_add = false; changed = false }) current in
    if p.has_add then (p.out, p.changed) else (p.out ++ str add ∷ [], true)
