-- ===== src/TemplateEngine/Pattern.antt =====
-- internal/handlers/template_engine.go: the patterns. Each is matched by a scanner: the characters
-- that may follow decide every choice, but for the body of a block, which ends at the first closing
-- tag.
use trt_whats.Common.{
  ◌>>=◌, ℕ, zero, suc, ◌+◌, Bool, true, false, not, ◌&&◌, [], ◌∷◌, ◌++◌, Option, none, some,
  if◌then◌else◌, nat_eq, ltb, take, drop, Text, codes, length, ◌==◌, text_eq_on,
}
use trt_whats.Strconv.Decimal.{is_digit}
use trt_whats.Strconv.Search.{has_prefix, index}
use trt_whats.TemplateEngine.Condition.{is_word, is_blank, span, path_tail}

-- A matched block: what precedes it, its captures, its body, and what follows it.
pub record Block {ℓ} (Head : Type ℓ) : Type ℓ where
  pub before : Text
  pub head : Head
  pub body : Text
  pub after : Text

-- ([\s\S]*?) up to a closing tag.
unfoldable pub body_until : Text → Text → Option (Text × Text)
body_until tag s = elim (index s tag) [
  | none ↦ none
  | some i ↦ some (take i s, drop (i + length tag) s)
]

-- The leftmost match of a tag with a body. `tag` matches an opening tag at the start of a text.
module _ {ℓ} {Head : Type ℓ} (tag : Text → Option (Head × Text)) (closing : Text) where
  unfoldable pub block_at : Text → Option (Block Head)
  unfolding body_until
  block_at s = elim (tag s) [
    | none ↦ none
    | some (head, rest) ↦ elim (body_until closing rest) [
      | none ↦ none
      | some (body, after) ↦ some (record { before = []; head = head; body = body; after = after })
    ]
  ]

  abbrev pub preceded : ℕ → Option (Block Head) → Option (Block Head)
  preceded c none = none
  preceded c (some b) = some (record b { before = c ∷ b.before })

  unfoldable pub find_block : Text → Option (Block Head)
  unfolding block_at
  find_block [] = none
  find_block (c ∷ s) = elim (block_at (c ∷ s)) [
    | none ↦ preceded c (find_block s)
    | some b ↦ some b
  ]

-- [^}]*, and what follows it.
abbrev pub not_brace : ℕ → Bool
not_brace c = not (nat_eq c b'}')

abbrev starts_blank : Text → Bool
starts_blank [] = false
starts_blank (c ∷ s) = is_blank c

-- \{\{if\s+([^}]+)\}\}. The capture is trimmed by the code, so it starts after one blank here.
unfoldable pub if_tag : Text → Option (Text × Text)
unfolding span
if_tag s =
    let (condition, rest) = span not_brace (drop 4 s) in
    if has_prefix s (codes "{{if")
      && starts_blank condition
      && ltb 1 (length condition)
      && has_prefix rest (codes "}}")
    then some (drop 1 condition, drop 2 rest)
    else none

abbrev pub endif : Text
endif = codes "{{endif}}"

-- The two parts of a body.
unfoldable pub branch : Bool → Text → Text
branch true body = elim (index body (codes "{{else}}")) [ none ↦ body | some i ↦ take i body ]
branch false body = elim (index body (codes "{{else}}")) [ none ↦ [] | some i ↦ drop (i + 8) body ]

pub record Loop : Type 0 where
  pub item : Text
  pub array : Text

abbrev word : Text → Option (Text × Text)
word s = let (w, rest) = span is_word s in if w == [] then none else some (w, rest)

-- \s+
abbrev blanks : Text → Option Text
blanks s = let (w, rest) = span is_blank s in if w == [] then none else some rest

abbrev literal : Text → Text → Option Text
literal t s = if has_prefix s t then some (drop (length t) s) else none

-- \w+(?:\.\w+)*
abbrev dotted : Text → Option (Text × Text)
dotted [] = none
dotted (c ∷ s) = let (w, rest) = path_tail s in if is_word c then some (c ∷ w, rest) else none

-- \{\{for\s+(\w+)\s+in\s+(\w+(?:\.\w+)*)\}\}
unfoldable pub for_tag : Text → Option (Loop × Text)
unfolding span path_tail
for_tag s = do
  a ← literal (codes "{{for") s
  b ← blanks a
  (item, c) ← word b
  d ← blanks c
  e ← literal (codes "in") d
  f ← blanks e
  (array, g) ← dotted f
  rest ← literal (codes "}}") g
  some (record { item = item; array = array }, rest)

abbrev pub endfor : Text
endfor = codes "{{endfor}}"

-- Where the scan of a placeholder stands, after its two opening braces.
pub data Scan : Type 0 where
  leading ident dot open_index in_index after_index trailing closing_brace : Scan

abbrev starts_ident : ℕ → Bool
starts_ident c = is_word c && not (is_digit c)

abbrev scan_end : ℕ → Option Scan
scan_end c =
    if nat_eq c b'.'
    then some dot
    else if nat_eq c b'['
    then some open_index
    else if is_blank c
    then some trailing
    else if nat_eq c b'}'
    then some closing_brace
    else none

-- One character of variablePattern.
abbrev pub scan_step : Scan → ℕ → Option Scan
scan_step leading c =
    if is_blank c then some leading else if starts_ident c then some ident else none
scan_step ident c = if is_word c then some ident else scan_end c
scan_step dot c = if starts_ident c then some ident else none
scan_step open_index c = if is_digit c then some in_index else none
scan_step in_index c =
    if is_digit c then some in_index else if nat_eq c b']' then some after_index else none
scan_step after_index c = scan_end c
scan_step trailing c =
    if is_blank c then some trailing else if nat_eq c b'}' then some closing_brace else none
scan_step closing_brace c = none

abbrev pub is_closing : Scan → Bool
is_closing closing_brace = true
is_closing _ = false

-- The text between the braces.
unfoldable pub scan_variable : Scan → Text → Option Text
scan_variable state [] = none
scan_variable state (c ∷ s) =
    let next : Option Text = elim (scan_step state c) [
      | none ↦ none
      | some st ↦ elim (scan_variable st s) [
        | none ↦ none
        | some t ↦ some (if is_closing st then t else c ∷ t)
      ]
    ] in
    if is_closing state then (if nat_eq c b'}' then some [] else none) else next

-- variablePattern at the start of a text.
unfoldable pub variable_at : Text → Option Text
unfolding scan_variable
variable_at s = if has_prefix s (codes "{{") then scan_variable leading (drop 2 s) else none

-- The scan of ReplaceAllStringFunc, `skip` characters of which stand in a match already made.
unfoldable pub replace_variables : (Text → Text) → ℕ → Text → Text
unfolding variable_at
replace_variables f skip [] = []
replace_variables f (suc skip) (c ∷ s) = replace_variables f skip s
replace_variables f zero (c ∷ s) = elim (variable_at (c ∷ s)) [
  | none ↦ c ∷ replace_variables f 0 s
  | some t ↦ f t ++ replace_variables f (length t + 3) s
]
