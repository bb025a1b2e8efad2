-- ===== src/TemplateUtil/Names.antt =====
-- internal/templateutil/templateutil.go: the names that ExtParamNames finds, and the validators.
use trt_whats.Common.{
  sym, ap, ◌∙◌, map, select, ◌≡◌, refl, inl, inr, Bool, true, false, not, ◌&&◌, ◌||◌, List, [], ◌∷◌,
  ◌++◌, Option, none, some, if◌then◌else◌, nat_eq, Text, length, Map, lookup, insert, lookup-insert,
  contains, contains-append, IsNodup, All, contains-select, any, ◌==◌, ==_refl, text_eq_on,
  nat_eq_on, text_eq_iff, arith, Bool-cases,
}
use mathlib.Core.Path.{fun_ext}
use mathlib.Core.List.{append-nil, append_assoc}
use trt_whats.Strconv.Trim.{trim_space, trim_space_idem, contains-trim_space}
use trt_whats.TemplateUtil.{
  find_all, ext_loop, ext_param_names, is_positional_param, validate_no_mixed_params, mixed_loop,
  TemplateError, mixed_params,
}

-- The first occurrence of each entry, in order.
abbrev pub firsts : List Text → List Text
firsts [] = []
firsts (n ∷ ns) = n ∷ select (λ m. not (m == n)) (firsts ns)

abbrev pub nonempty : Text → Bool
nonempty t = not (t == [])

-- What the placeholders of a content name: the trimmed captures that are not empty.
abbrev pub named : List Text → List Text
named ms = select nonempty (map trim_space ms)

abbrev absent : List Text → Text → Bool
absent names n = not (contains n names)

select-select :
    {A : Type 0} (p q : A → Bool) (xs : List A)
    → select p (select q xs) ≡ select (λ x. q x && p x) xs
select-select p q [] = refl
select-select p q (x ∷ xs) = ground (arith, select-select p q xs)

select_ext :
    {A : Type 0} (p q : A → Bool) (xs : List A) → ((x : A) → p x ≡ q x) → select p xs ≡ select q xs
select_ext p q xs h = rw (fun_ext h)

absent-snoc :
    (names : List Text) (n m : Text) → (not (m == n) && absent names m) ≡ absent (names ++ n ∷ []) m
absent-snoc names n m =
    ground (arith, contains-append m names (n ∷ []), text_eq_iff m n, text_eq_iff n m)

-- Dropping an entry that the names hold already changes nothing.
absent_member :
    (names : List Text) (n m : Text)
    → contains n names ≡ true
    → (not (m == n) && absent names m) ≡ absent names m
absent_member names n m h = elim (Bool-cases (m == n)) [
  | inl same ↦ rw same (rw ((text_eq_iff m n).0 same) (rw h refl))
  | inr other ↦ rw other
]

select-fresh :
    (names : List Text) (n : Text) (ns : List Text)
    → select (absent names) (select (λ m. not (m == n)) ns) ≡ select (absent (names ++ n ∷ [])) ns
select-fresh names n ns =
    select-select (absent names) (λ m. not (m == n)) ns ∙ select_ext _ _ ns (absent-snoc names n)

select-stale :
    (names : List Text) (n : Text) (ns : List Text)
    → contains n names ≡ true
    → select (absent names) (select (λ m. not (m == n)) ns) ≡ select (absent names) ns
select-stale names n ns h =
    select-select (absent names) (λ m. not (m == n)) ns
    ∙ select_ext _ _ ns (λ m. absent_member names n m h)

-- The map of names seen so far says what the list of names says.
abbrev Agrees : Map Text Bool → List Text → Type 0
Agrees seen names = (n : Text) → lookup n seen ≡ (if contains n names then some true else none)

insert-Agrees :
    (seen : Map Text Bool) (names : List Text) (n : Text)
    → Agrees seen names
    → Agrees (insert n true seen) (names ++ n ∷ [])
insert-Agrees seen names n h m =
    ground (arith, lookup-insert n m true seen, contains-append m names (n ∷ []), h m)

ext_loop-firsts :
    (seen : Map Text Bool) (names ms : List Text)
    → Agrees seen names
    → ext_loop seen names ms ≡ names ++ select (absent names) (firsts (named ms))
unfolding ext_loop
ext_loop-firsts seen names [] h = sym (append-nil names)
ext_loop-firsts seen names (m ∷ ms) h = elim (Bool-cases (trim_space m == [])) [
  | inl blank ↦ rw blank (ext_loop-firsts seen names ms h)
  | inr visible ↦ elim (Bool-cases (contains (trim_space m) names)) [
    | inl old ↦
        rw (visible, h (trim_space m), old)
          (ext_loop-firsts seen names ms h
            ∙ ap (◌++◌ names) (sym (select-stale names (trim_space m) (firsts (named ms)) old)))
    | inr new ↦
        rw (visible, h (trim_space m), new)
          (ext_loop-firsts (insert (trim_space m) true seen) (names ++ trim_space m ∷ []) ms
              (insert-Agrees seen names (trim_space m) h)
            ∙ append_assoc names (trim_space m ∷ []) _
            ∙ ap (λ r. names ++ trim_space m ∷ r)
                (sym (select-fresh names (trim_space m) (firsts (named ms)))))
  ]
]

-- The names are the trimmed, non-empty captures of the content's placeholders, each at its first
-- occurrence.
pub ext_param_names-firsts :
    (content : Text) → ext_param_names content ≡ firsts (named (find_all 0 content))
unfolding ext_param_names lookup
ext_param_names-firsts content =
    ext_loop-firsts [] [] (find_all 0 content) (λ n. refl)
    ∙ select_true (firsts (named (find_all 0 content)))
  where
    select_true : (ns : List Text) → select (absent []) ns ≡ ns
    select_true [] = refl
    select_true (n ∷ ns) = ap (◌∷◌ n) (select_true ns)

-- A name as the code takes it: trimmed, and not empty.
abbrev pub IsName : Text → Type 0
IsName n = (trim_space n ≡ n) × (nonempty n ≡ true)

All-select : (P : Text → Type 0) (p : Text → Bool) (xs : List Text) → All P xs → All P (select p xs)
All-select P p [] h = tt
All-select P p (x ∷ xs) h = elim (Bool-cases (p x)) [
  | inl e ↦ rw e ((h.0, All-select P p xs h.1))
  | inr e ↦ rw e (All-select P p xs h.1)
]

named-IsName : (ms : List Text) → All IsName (named ms)
named-IsName [] = tt
named-IsName (m ∷ ms) = elim (Bool-cases (trim_space m == [])) [
  | inl blank ↦ rw blank (named-IsName ms)
  | inr visible ↦ rw visible (((trim_space_idem m, rw visible), named-IsName ms))
]

firsts-All : (P : Text → Type 0) (ns : List Text) → All P ns → All P (firsts ns)
firsts-All P [] h = tt
firsts-All P (n ∷ ns) h = (h.0, All-select P _ (firsts ns) (firsts-All P ns h.1))

contains-select_dropped :
    (p : Text → Bool) (n : Text) (ns : List Text) → p n ≡ false → contains n (select p ns) ≡ false
contains-select_dropped p n [] h = refl
contains-select_dropped p n (m ∷ ns) h = elim (Bool-cases (p m)) [
  | inl kept ↦ ground (arith, text_eq_iff m n, contains-select_dropped p n ns h)
  | inr gone ↦ rw gone (contains-select_dropped p n ns h)
]

select-IsNodup : (p : Text → Bool) (ns : List Text) → IsNodup ns → IsNodup (select p ns)
select-IsNodup p [] d = tt
select-IsNodup p (n ∷ ns) d = ground (arith, contains-select p n ns, select-IsNodup p ns d.1)

firsts-IsNodup : (ns : List Text) → IsNodup (firsts ns)
firsts-IsNodup [] = tt
firsts-IsNodup (n ∷ ns) = (
  contains-select_dropped _ n (firsts ns) (rw (==_refl n)),
  select-IsNodup _ (firsts ns) (firsts-IsNodup ns),
)

-- No name is listed twice, and every name is trimmed and not empty.
pub ext_param_names-IsNodup :
    (content : Text) → IsNodup (ext_param_names content) × All IsName (ext_param_names content)
ext_param_names-IsNodup content = rw (ext_param_names-firsts content) (
    (
      firsts-IsNodup (named (find_all 0 content)),
      firsts-All IsName _ (named-IsName (find_all 0 content)),
    ))

mixed_loop_lem :
    (positional named : Bool) (ns : List Text)
    → (positional && named) ≡ false
    → mixed_loop positional named ns ≡ (
        if (any is_positional_param ns || positional)
          && (any (λ n. not (is_positional_param n)) ns || named)
        then some mixed_params
        else none)
unfolding mixed_loop
mixed_loop_lem true true ns h = cc
mixed_loop_lem true false [] h = refl
mixed_loop_lem false true [] h = refl
mixed_loop_lem false false [] h = refl
mixed_loop_lem p q (n ∷ ns) h =
    ground (arith, mixed_loop_lem true false ns refl, mixed_loop_lem false true ns refl)

no_mixed : List Text → Option TemplateError
no_mixed names = if nat_eq (length names) 0 then none else mixed_loop false false names

no_mixed_lem :
    (ns : List Text)
    → no_mixed ns ≡ (
        if any is_positional_param ns && any (λ n. not (is_positional_param n)) ns
        then some mixed_params
        else none)
unfolding no_mixed mixed_loop
no_mixed_lem [] = refl
no_mixed_lem (n ∷ ns) =
    ground (arith, mixed_loop_lem true false ns refl, mixed_loop_lem false true ns refl)

-- The content is refused exactly if it names both a positional and a named parameter.
pub validate_no_mixed_params_lem :
    (content : Text)
    → let names = ext_param_names content in
      validate_no_mixed_params content ≡ (
        if any is_positional_param names && any (λ n. not (is_positional_param n)) names
        then some mixed_params
        else none)
unfolding validate_no_mixed_params no_mixed
validate_no_mixed_params_lem content = no_mixed_lem (ext_param_names content)

abbrev Unclosed : Text → Type 0
Unclosed n = contains b'}' n ≡ false

named-Unclosed : (ms : List Text) → All Unclosed ms → All Unclosed (named ms)
named-Unclosed [] h = tt
named-Unclosed (m ∷ ms) h = elim (Bool-cases (trim_space m == [])) [
  | inl blank ↦ rw blank (named-Unclosed ms h.1)
  | inr visible ↦ rw visible ((contains-trim_space b'}' m h.0, named-Unclosed ms h.1))
]

-- Names of captures without a closing brace have none either.
pub ext_param_names-Unclosed :
    (content : Text) → All Unclosed (find_all 0 content) → All Unclosed (ext_param_names content)
ext_param_names-Unclosed content h =
    rw (ext_param_names-firsts content)
      (firsts-All Unclosed _ (named-Unclosed (find_all 0 content) h))
