-- ===== src/AdWindow/Tags.antt =====
-- internal/handlers/ad_window_tags.go, setAdWindowTag: the tags that it leaves.
use mathlib.Core.List.{append_assoc}
use trt_whats.Common.{
  ◌≡◌, refl, ap, sym, ◌∙◌, inl, inr, Bool, true, false, not, ◌&&◌, List, [], ◌∷◌, ◌++◌,
  if◌then◌else◌, Text, select, ◌==◌, ==_true, ==_refl, text_eq_on, arith, Bool-cases,
}
use trt_whats.Json.{Value, null, bool, str, int, float, arr, obj}
use trt_whats.AdWindow.{is_window_tag, Progress, keep, tag_step, tag_loop, set_ad_window_tag}

abbrev pub is_window : Value → Bool
is_window (str s) = is_window_tag s
is_window _ = false

abbrev pub window_tags : List Value → List Value
window_tags = select is_window

abbrev pub other_tags : List Value → List Value
other_tags = select (λ t. not (is_window t))

select-append :
    (p : Value → Bool) (xs ys : List Value) → select p (xs ++ ys) ≡ select p xs ++ select p ys
select-append p [] ys = refl
select-append p (x ∷ xs) ys = ground (arith, select-append p xs ys)

append-nil : (xs : List Value) → xs ++ [] ≡ xs
append-nil [] = refl
append-nil (x ∷ xs) = ap (◌∷◌ x) (append-nil xs)

-- A step keeps what is no window tag, and of the window tags the first one that is wanted.
module _ (add : Text) (p : Progress) where
  step_other : (t : Value) → is_window t ≡ false → tag_step add p t ≡ keep t p
  unfolding tag_step
  step_other null h = refl
  step_other (bool b) h = refl
  step_other (str s) h = rw h refl
  step_other (int n) h = refl
  step_other (float n) h = refl
  step_other (arr vs) h = refl
  step_other (obj fs) h = refl

  step_wanted :
      is_window_tag add ≡ true
      → p.has_add ≡ false
      → tag_step add p (str add) ≡ record (keep (str add) p) { has_add = true }
  unfolding tag_step
  step_wanted w h = rw (w, ==_refl add, h) refl

  step_dropped :
      (s : Text)
      → is_window_tag s ≡ true
      → ((s == add) && not p.has_add) ≡ false
      → tag_step add p (str s) ≡ record p { changed = true }
  unfolding tag_step
  step_dropped s w h = rw (w, h) refl

abbrev wanted : Text → Bool → List Value
wanted add has = if has then str add ∷ [] else []

-- What holds before each turn of the loop.
abbrev IsInvariant : Text → Progress → List Value → List Value → Type 0
IsInvariant add p current others =
    (window_tags p.out ≡ wanted add p.has_add) × (other_tags p.out ++ other_tags current ≡ others)

select-snoc-in :
    (q : Value → Bool) (xs : List Value) (t : Value)
    → q t ≡ true
    → select q (xs ++ t ∷ []) ≡ select q xs ++ t ∷ []
select-snoc-in q xs t h = select-append q xs (t ∷ []) ∙ rw h refl

select-snoc-out :
    (q : Value → Bool) (xs : List Value) (t : Value)
    → q t ≡ false
    → select q (xs ++ t ∷ []) ≡ select q xs
select-snoc-out q xs t h = select-append q xs (t ∷ []) ∙ rw (h, append-nil (select q xs)) refl

not_of_true : (b : Bool) → b ≡ true → not b ≡ false
not_of_true b h = ground arith

not_of_false : (b : Bool) → b ≡ false → not b ≡ true
not_of_false b h = ground arith

module _ (add : Text) (p : Progress) (ts others : List Value) (w : is_window_tag add ≡ true) where
  keep-IsInvariant :
      (t : Value)
      → is_window t ≡ false
      → IsInvariant add p (t ∷ ts) others
      → IsInvariant add (keep t p) ts others
  keep-IsInvariant t out h =
      let other = not_of_false (is_window t) out in
      (
        select-snoc-out is_window p.out t out ∙ h.0,
        ap (λ xs. xs ++ other_tags ts) (select-snoc-in (λ t. not (is_window t)) p.out t other)
            ∙ append_assoc (other_tags p.out) (t ∷ []) (other_tags ts)
            ∙ ap (λ xs. other_tags p.out ++ xs) (sym (rw other refl))
            ∙ h.1,
      )

  window-IsInvariant :
      (s : Text)
      → is_window_tag s ≡ true
      → IsInvariant add p (str s ∷ ts) others
      → IsInvariant add (tag_step add p (str s)) ts others
  window-IsInvariant s win h =
      let dropped : other_tags (str s ∷ ts) ≡ other_tags ts =
        rw (not_of_true (is_window_tag s) win) refl in
      let kept : other_tags p.out ++ other_tags ts ≡ others =
        ap (λ xs. other_tags p.out ++ xs) (sym dropped) ∙ h.1 in
      elim (Bool-cases ((s == add) && not p.has_add)) [
        | inr no_more ↦ rw (step_dropped add p s win no_more) (h.0, kept)
        | inl first ↦
            let same : s ≡ add = ==_true s add (ground (arith, first)) in
            let fresh : p.has_add ≡ false = ground (arith, first) in
            let empty : window_tags p.out ≡ [] = h.0 ∙ rw fresh refl in
            let step = ap (λ s. tag_step add p (str s)) same ∙ step_wanted add p w fresh in
            rw step (
              select-snoc-in is_window p.out (str add) w ∙ rw empty refl,
              ap (λ xs. xs ++ other_tags ts)
                    (select-snoc-out (λ t. not (is_window t)) p.out (str add)
                      (not_of_true (is_window_tag add) w))
                  ∙ kept,
            )
      ]

  tag_step-IsInvariant :
      (t : Value) → IsInvariant add p (t ∷ ts) others → IsInvariant add (tag_step add p t) ts others
  tag_step-IsInvariant (str s) h = elim (Bool-cases (is_window_tag s)) [
    | inl win ↦ window-IsInvariant s win h
    | inr out ↦ rw (step_other add p (str s) out) (keep-IsInvariant (str s) out h)
  ]
  tag_step-IsInvariant null h = rw (step_other add p null refl) (keep-IsInvariant null refl h)
  tag_step-IsInvariant (bool b) h =
      rw (step_other add p (bool b) refl) (keep-IsInvariant (bool b) refl h)
  tag_step-IsInvariant (int n) h =
      rw (step_other add p (int n) refl) (keep-IsInvariant (int n) refl h)
  tag_step-IsInvariant (float n) h =
      rw (step_other add p (float n) refl) (keep-IsInvariant (float n) refl h)
  tag_step-IsInvariant (arr vs) h =
      rw (step_other add p (arr vs) refl) (keep-IsInvariant (arr vs) refl h)
  tag_step-IsInvariant (obj fs) h =
      rw (step_other add p (obj fs) refl) (keep-IsInvariant (obj fs) refl h)

tag_loop-IsInvariant :
    (add : Text) (p : Progress) (current others : List Value)
    → is_window_tag add ≡ true
    → IsInvariant add p current others
    → IsInvariant add (tag_loop add p current) [] others
unfolding tag_loop
tag_loop-IsInvariant add p [] others w h = h
tag_loop-IsInvariant add p (t ∷ ts) others w h =
    tag_loop-IsInvariant add (tag_step add p t) ts others w
      (tag_step-IsInvariant add p ts others w t h)

-- After a call with one of the two tags of the window, that tag stands exactly once among a contact's
-- tags, the other one does not, and all other tags are there in their order.
pub set_ad_window_tag-window_tags :
    (current : List Value) (add : Text)
    → is_window_tag add ≡ true
    → (window_tags (set_ad_window_tag current add).0 ≡ str add ∷ [])
      × (other_tags (set_ad_window_tag current add).0 ≡ other_tags current)
unfolding set_ad_window_tag
set_ad_window_tag-window_tags current add w =
    let start : Progress = record { out = []; has_add = false; changed = false } in
    let p = tag_loop add start current in
    let inv = tag_loop-IsInvariant add start current (other_tags current) w (refl, refl) in
    elim (Bool-cases p.has_add) [
      | inl has ↦ rw has (inv.0 ∙ rw has refl, sym (append-nil (other_tags p.out)) ∙ inv.1)
      | inr lacks ↦
          let empty : window_tags p.out ≡ [] = inv.0 ∙ rw lacks refl in
          rw lacks (
            select-snoc-in is_window p.out (str add) w ∙ rw empty refl,
            select-snoc-out (λ t. not (is_window t)) p.out (str add)
                  (not_of_true (is_window_tag add) w)
                ∙ sym (append-nil (other_tags p.out))
                ∙ inv.1,
          )
    ]
