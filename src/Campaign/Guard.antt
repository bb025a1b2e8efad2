-- ===== src/Campaign/Guard.antt =====
-- internal/handlers/campaigns.go, StartCampaign: the checks made before anything is sent, and what
-- they promise of every recipient.
use trt_whats.Common.{
  ℕ, suc, ◌≤◌, ◌≡◌, refl, inl, inr, Bool, true, false, not, ◌&&◌, ◌||◌, List, [], ◌∷◌, Option, none,
  some, if◌then◌else◌, nat_eq, ltb, Text, codes, Map, lookup, any, length, All, ◌==◌, nat_eq_on,
  text_eq_on, arith, Bool-cases,
}
use trt_whats.Json.{Value, null, or_null}
use trt_whats.Strconv.Trim.{trim_space}
use trt_whats.TemplateUtil.{ext_param_names, resolve_params}
use trt_whats.Campaign.{Template, Recipient, Env}

pub data GuardError : Type 0 where
  template_gone not_approved other_account : GuardError
  missing_values : ℕ → ℕ → GuardError  -- of how many recipients

abbrev pub blank : Text → Bool
blank t = trim_space t == []

-- v == nil
abbrev pub is_nil : Value → Bool
is_nil null = true
is_nil _ = false

-- The only variable of a text header.
unfoldable pub header_name : Env → Template → Text
header_name env t =
    if env.equal_fold t.header_type (codes "TEXT")
    then elim (ext_param_names t.header_content) [
      | [] ↦ []
      | n ∷ ns ↦ if nat_eq (length ns) 0 then n else []
    ]
    else []

unfoldable pub body_incomplete : Env → Template → Recipient → Bool
body_incomplete env t r =
    let names = ext_param_names t.body_content in
    let vals = resolve_params env.sprint t.body_content r.template_params in
    not (nat_eq (length names) 0) && (ltb (length vals) (length names) || any blank vals)

-- hv, with its fallback on the body's values.
unfoldable pub header_value : Recipient → Text → Value
header_value r name =
    let hv = or_null (lookup name r.header_params) in
    if is_nil hv then or_null (lookup name r.template_params) else hv

unfoldable pub header_incomplete : Env → Text → Recipient → Bool
header_incomplete env name r = not (name == []) && blank (env.sprint (header_value r name))

unfoldable pub is_incomplete : Env → Template → Recipient → Bool
is_incomplete env t r = body_incomplete env t r || header_incomplete env (header_name env t) r

-- The loop that counts the recipients that miss a value.
unfoldable pub count_missing : Env → Template → List Recipient → ℕ
count_missing env t [] = 0
count_missing env t (r ∷ rs) =
    let rest = count_missing env t rs in if is_incomplete env t r then suc rest else rest

unfoldable pub check_variables : Env → Template → List Recipient → Option GuardError
check_variables env t rs =
    let required =
      not (nat_eq (length (ext_param_names t.body_content)) 0) || not (header_name env t == []) in
    let missing = count_missing env t rs in
    if required && ltb 0 missing then some (missing_values missing (length rs)) else none

unfoldable pub check_template : Env → Text → Template → List Recipient → Option GuardError
check_template env account t rs =
    if not (env.equal_fold t.status (codes "APPROVED"))
    then some not_approved
    else if not (env.equal_fold t.account account)
    then some other_account
    else check_variables env t rs

-- The guardrails of a campaign of an organization with a template's id, an account, and the
-- recipients that are pending.
unfoldable pub guardrails : Env → ℕ → ℕ → Text → Map ℕ Template → List Recipient → Option GuardError
guardrails env org template_id account templates rs =
    if nat_eq template_id 0 then none else elim (lookup template_id templates) [
      | none ↦ some template_gone
      | some t ↦ if nat_eq t.org org then check_template env account t rs else some template_gone
    ]

-- What the body of a template needs of a recipient: a value that is not blank for each variable.
abbrev pub IsFilled : Env → Template → Recipient → Type 0
IsFilled env t r =
    let vals = resolve_params env.sprint t.body_content r.template_params in
    (length (ext_param_names t.body_content) ≤ length vals) × (any blank vals ≡ false)

body_incomplete-IsFilled :
    (env : Env) (t : Template) (r : Recipient)
    → nat_eq (length (ext_param_names t.body_content)) 0 ≡ false
    → is_incomplete env t r ≡ false
    → IsFilled env t r
unfolding is_incomplete body_incomplete
body_incomplete-IsFilled env t r h e = ground arith

count_missing-IsFilled :
    (env : Env) (t : Template) (rs : List Recipient)
    → nat_eq (length (ext_param_names t.body_content)) 0 ≡ false
    → count_missing env t rs ≡ 0
    → All (IsFilled env t) rs
unfolding count_missing
count_missing-IsFilled env t [] h e = tt
count_missing-IsFilled env t (r ∷ rs) h e = elim (Bool-cases (is_incomplete env t r)) [
  | inl bad ↦ absurd (ground arith)
  | inr good ↦
      (body_incomplete-IsFilled env t r h good, count_missing-IsFilled env t rs h (ground arith))
]

-- Where the checks pass, a template with variables in its body is approved and belongs to the
-- sending account, and every recipient has a value that is not blank for each of the variables.
pub guardrails_pass :
    (env : Env) (org template_id : ℕ) (account : Text) (templates : Map ℕ Template)
    (rs : List Recipient) {t : Template}
    → guardrails env org template_id account templates rs ≡ none
    → nat_eq template_id 0 ≡ false
    → lookup template_id templates ≡ some t
    → nat_eq (length (ext_param_names t.body_content)) 0 ≡ false
    → (env.equal_fold t.status (codes "APPROVED") ≡ true)
      × (env.equal_fold t.account account ≡ true)
      × All (IsFilled env t) rs
unfolding guardrails check_template check_variables
guardrails_pass env org id account templates rs {t} g h e b =
    (ground arith, ground arith, count_missing-IsFilled env t rs b (ground arith))

abbrev LacksHeader : Env → Template → Recipient → Type 0
LacksHeader env t r = header_value r (header_name env t) ≡ null

header_incomplete_nil :
    (env : Env) (t : Template) (r : Recipient)
    → nat_eq (length (ext_param_names t.body_content)) 0 ≡ true
    → blank (env.sprint null) ≡ false
    → LacksHeader env t r
    → is_incomplete env t r ≡ false
unfolding is_incomplete header_incomplete body_incomplete
header_incomplete_nil env t r b h e = rw (b, e) (rw h (ground arith))

count_missing_nil :
    (env : Env) (t : Template) (rs : List Recipient)
    → nat_eq (length (ext_param_names t.body_content)) 0 ≡ true
    → blank (env.sprint null) ≡ false
    → All (LacksHeader env t) rs
    → count_missing env t rs ≡ 0
unfolding count_missing
count_missing_nil env t [] b h l = refl
count_missing_nil env t (r ∷ rs) b h l =
    rw (header_incomplete_nil env t r b h l.0) (count_missing_nil env t rs b h l.1)

-- The checks pass for an approved template of the sending account without variables in its body
-- even if no recipient has a value for the header's variable, wherever the text that nil is
-- printed as is not blank.
pub guardrails_missing_header :
    (env : Env) (org template_id : ℕ) (account : Text) (templates : Map ℕ Template)
    (rs : List Recipient) {t : Template}
    → lookup template_id templates ≡ some t
    → t.org ≡ org
    → env.equal_fold t.status (codes "APPROVED") ≡ true
    → env.equal_fold t.account account ≡ true
    → nat_eq (length (ext_param_names t.body_content)) 0 ≡ true
    → blank (env.sprint null) ≡ false
    → All (LacksHeader env t) rs
    → guardrails env org template_id account templates rs ≡ none
unfolding guardrails check_template check_variables
guardrails_missing_header env org id account templates rs {t} e o a k b h l =
    ground (arith, count_missing_nil env t rs b h l)
