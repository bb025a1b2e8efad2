-- ===== src/TemplateEngine/Conditionals.antt =====
-- internal/handlers/template_engine.go, processConditionals: its loop.
use trt_whats.Common.{
  ℕ, zero, suc, ◌+◌, ◌-◌, ◌≤◌, ◌<◌, Bool, true, false, [], ◌∷◌, ◌++◌, Option, none, some, take,
  drop, Text, codes, length, length-append, arith, ◌≡◌, refl, Option-cases, inl, inr,
}
use trt_whats.Json.{Data}
use trt_whats.Strconv.Search.{has_prefix, index}
use trt_whats.Strconv.Trim.{trim_space}
use trt_whats.TemplateEngine.Condition.{span, evaluate_condition}
use trt_whats.TemplateEngine.Pattern.{
  Block, body_until, block_at, find_block, if_tag, not_brace, endif, branch,
}
use trt_whats.TemplateEngine.Render.{Lang, replaced, conditionals_loop, process_conditionals}

length-take-le : (n : ℕ) (s : Text) → length (take n s) ≤ n
length-take-le zero s = omega arith
length-take-le (suc n) [] = omega arith
length-take-le (suc n) (c ∷ s) = omega (arith, length-take-le n s)

length-take-le-length : (n : ℕ) (s : Text) → length (take n s) ≤ length s
length-take-le-length zero s = omega arith
length-take-le-length (suc n) [] = omega arith
length-take-le-length (suc n) (c ∷ s) = omega (arith, length-take-le-length n s)

length-drop : (n : ℕ) (s : Text) → length (drop n s) ≡ length s - n
length-drop zero s = omega arith
length-drop (suc n) [] = omega arith
length-drop (suc n) (c ∷ s) = omega (arith, length-drop n s)

has_prefix-length : (s p : Text) → has_prefix s p ≡ true → length p ≤ length s
unfolding has_prefix
has_prefix-length s [] h = omega arith
has_prefix-length [] (c ∷ p) h = cc
has_prefix-length (d ∷ s) (c ∷ p) h = ground (arith, has_prefix-length s p)

index-bound : (s p : Text) (i : ℕ) → index s p ≡ some i → i + length p ≤ length s
unfolding index
index-bound [] p i h = ground (arith, has_prefix-length [] p)
index-bound (c ∷ s) p i h = elim (Option-cases (index s p)) [
  | inl e ↦ ground (arith, has_prefix-length (c ∷ s) p)
  | inr (j, e) ↦ ground (arith, has_prefix-length (c ∷ s) p, index-bound s p j e)
]

-- The size of what a block leaves.
abbrev size {ℓ} : {H : Type ℓ} → Block H → ℕ
size b = length b.before + length b.body + length b.after

length-span : (p : ℕ → Bool) (s : Text) → length (span p s).0 + length (span p s).1 ≡ length s
unfolding span
length-span p [] = refl
length-span p (c ∷ s) = ground (arith, length-span p s)

body_until-length :
    (tag s body after : Text)
    → body_until tag s ≡ some (body, after)
    → length body + length after + length tag ≤ length s
unfolding body_until
body_until-length tag s body after h = elim (Option-cases (index s tag)) [
  | inl e ↦ absurd (ground arith)
  | inr (i, e) ↦
      ground (arith, index-bound s tag i e, length-take-le i s, length-drop (i + length tag) s)
]

if_tag-length : (s head rest : Text) → if_tag s ≡ some (head, rest) → length rest ≤ length s
unfolding if_tag
if_tag-length s head rest h =
    let (condition, after) = span not_brace (drop 4 s) in
    ground (
      arith,
      length-span not_brace (drop 4 s),
      length-drop 4 s,
      length-drop 2 (span not_brace (drop 4 s)).1,
    )

module _ {ℓ} {Head : Type ℓ} (tag : Text → Option (Head × Text)) (closing : Text)
    (shorter : (s : Text) (head : Head) (rest : Text)
      → tag s ≡ some (head, rest)
      → length rest ≤ length s) where
  block_at-size :
      (s : Text) (b : Block Head)
      → block_at tag closing s ≡ some b
      → size b + length closing ≤ length s
  unfolding block_at
  block_at-size s b h = elim (Option-cases (tag s)) [
    | inl e ↦ absurd (ground (arith, h))
    | inr ((head, rest), e) ↦ elim (Option-cases (body_until closing rest)) [
      | inl f ↦ absurd (ground (arith, h))
      | inr ((body, after), f) ↦
          ground (arith, h, shorter s head rest e, body_until-length closing rest body after f)
    ]
  ]

  -- A block's parts are shorter than the text it was found in, by the closing tag at least.
  find_block-size :
      (s : Text) (b : Block Head)
      → find_block tag closing s ≡ some b
      → size b + length closing ≤ length s
  unfolding find_block
  find_block-size [] b h = cc
  find_block-size (c ∷ s) b h = elim (Option-cases (block_at tag closing (c ∷ s))) [
    | inr (found, e) ↦ ground (arith, block_at-size (c ∷ s) found e)
    | inl e ↦ elim (Option-cases (find_block tag closing s)) [
      | inl f ↦ absurd (ground arith)
      | inr (later, f) ↦ ground (arith, find_block-size s later f)
    ]
  ]

length-branch : (test : Bool) (body : Text) → length (branch test body) ≤ length body
unfolding branch
length-branch true body = elim (Option-cases (index body (codes "{{else}}"))) [
  | inl e ↦ ground arith
  | inr (i, e) ↦ ground (arith, length-take-le-length i body)
]
length-branch false body = elim (Option-cases (index body (codes "{{else}}"))) [
  | inl e ↦ ground arith
  | inr (i, e) ↦ ground (arith, length-drop (i + 8) body)
]

length-three : (x y z : Text) → length (x ++ y ++ z) ≡ length x + length y + length z
length-three x y z = omega (arith, length-append (x ++ y) z, length-append x y)

-- The text that a match of an if block is replaced by is shorter than the text before.
replaced-length :
    (lang : Lang) (m : Data) (s : Text) (b : Block Text)
    → find_block if_tag endif s ≡ some b
    → length (replaced lang m b) < length s
replaced-length lang m s b h =
    let kept = branch (evaluate_condition lang.float lang.sprint (trim_space b.head) m) b.body in
    omega (
      arith,
      find_block-size if_tag endif if_tag-length s b h,
      length-three b.before kept b.after,
      length-branch (evaluate_condition lang.float lang.sprint (trim_space b.head) m) b.body,
    )

-- The loop ends, on fuel more than the length of the text, at a text without an if block.
loop_ends :
    (lang : Lang) (m : Data) (fuel : ℕ) (s : Text)
    → length s < fuel
    → (t : Text) × (conditionals_loop lang fuel m s ≡ some t) × (find_block if_tag endif t ≡ none)
unfolding conditionals_loop
loop_ends lang m zero s h = absurd (omega arith)
loop_ends lang m (suc fuel) s h = elim (Option-cases (find_block if_tag endif s)) [
  | inl e ↦ (s, rw (conditionals_loop, e) refl, e)
  | inr (b, e) ↦
      rw (conditionals_loop, e)
        (loop_ends lang m fuel (replaced lang m b) (omega (arith, replaced-length lang m s b e)))
]

-- The conditionals of every text are processed in as many rounds as the text is long, at most, and
-- what results has no if block any more.
pub process_conditionals_ends :
    (lang : Lang) (m : Data) (s : Text)
    → (conditionals_loop lang (suc (length s)) m s ≡ some (process_conditionals lang m s))
      × (find_block if_tag endif (process_conditionals lang m s) ≡ none)
unfolding process_conditionals
process_conditionals_ends lang m s =
    let (t, e, f) = loop_ends lang m (suc (length s)) s (omega arith) in
    rw (process_conditionals, e) ((refl, f))
