-- ===== src/Contacts/Find.antt =====
-- internal/contactutil/contactutil.go: GetOrCreateContact and FindContact together.
use trt_whats.Common.{
  ℕ, ◌≡◌, refl, ap, ◌∙◌, sym, inl, inr, Bool, true, false, ◌&&◌, List, [], ◌∷◌, ◌++◌, Option, none,
  some, Text, ◌==◌, ==_refl, nat_eq_on, text_eq_on, arith, Bool-cases, Option-cases,
}
use trt_whats.Contacts.{
  Contact, normalized, plus, first_unscoped, first_live, refreshed, first_own, update_row, Found,
  new_contact, Insert, create_contact, get_or_create_contact, find_contact,
}

-- An update that keeps a row's key, organization and number, and makes the row live.
abbrev Revives : (Contact → Contact) → Type 0
Revives f =
    (c : Contact)
    → ((f c).id ≡ c.id)
      × ((f c).org ≡ c.org)
      × ((f c).phone_number ≡ c.phone_number)
      × ((f c).deleted ≡ false)

abbrev matches : ℕ → Text → Contact → Bool
matches org phone c = (c.org == org) && (c.phone_number == phone)

first_live-hit :
    (org : ℕ) (phone : Text) (c : Contact) (table : List Contact)
    → c.deleted ≡ false
    → matches org phone c ≡ true
    → first_live org phone (c ∷ table) ≡ some c
unfolding first_live
first_live-hit org phone c table live m = rw (live, m)

first_live-miss :
    (org : ℕ) (phone : Text) (c : Contact) (table : List Contact)
    → matches org phone c ≡ false
    → first_live org phone (c ∷ table) ≡ first_live org phone table
unfolding first_live
first_live-miss org phone c table m = ground arith

matches-Revives :
    (f : Contact → Contact) (org : ℕ) (phone : Text) (c : Contact)
    → Revives f
    → matches org phone (f c) ≡ matches org phone c
matches-Revives f org phone c r = rw ((r c).1, (r c).2)

first_unscoped-hit :
    (org : ℕ) (phone : Text) (c : Contact) (table : List Contact)
    → matches org phone c ≡ true
    → first_unscoped org phone (c ∷ table) ≡ some c
unfolding first_unscoped
first_unscoped-hit org phone c table m = rw m

first_unscoped-miss :
    (org : ℕ) (phone : Text) (c : Contact) (table : List Contact)
    → matches org phone c ≡ false
    → first_unscoped org phone (c ∷ table) ≡ first_unscoped org phone table
unfolding first_unscoped
first_unscoped-miss org phone c table m = rw m

-- The row found is the first live match after the update.
first_live-update_row :
    (f : Contact → Contact) (org : ℕ) (phone : Text) (c : Contact) (table : List Contact)
    → Revives f
    → first_unscoped org phone table ≡ some c
    → first_live org phone (update_row f c.id table) ≡ some (f c)
unfolding update_row
first_live-update_row f org phone c [] r e = unfold first_unscoped in cc
first_live-update_row f org phone c (d ∷ ds) r e = elim (Bool-cases (matches org phone d)) [
  | inl hit ↦
      let same : d ≡ c = cc (first_unscoped-hit org phone d ds hit, e) in
      rw (same, ==_refl c.id)
        (first_live-hit org phone (f c) _ (r c).3
          (matches-Revives f org phone c r ∙ rw (← same) hit))
  | inr miss ↦
      let later = sym (first_unscoped-miss org phone d ds miss) ∙ e in
      elim (Bool-cases (d.id == c.id)) [
        | inl e' ↦ rw e' (
            first_live-miss org phone (f d) _ (matches-Revives f org phone d r ∙ miss)
            ∙ first_live-update_row f org phone c ds r later)
        | inr e' ↦
            rw e'
              (first_live-miss org phone d _ miss ∙ first_live-update_row f org phone c ds r later)
      ]
]

-- No row of any kind: no live row, after an update that keeps organizations and numbers.
first_live-none :
    (f : Contact → Contact) (org id : ℕ) (phone : Text) (table : List Contact)
    → Revives f
    → first_unscoped org phone table ≡ none
    → first_live org phone (update_row f id table) ≡ none
unfolding first_unscoped first_live update_row
first_live-none f org id phone [] r e = refl
first_live-none f org id phone (d ∷ ds) r e = elim (Bool-cases (matches org phone d)) [
  | inl hit ↦ cc (e, first_unscoped-hit org phone d ds hit)
  | inr miss ↦
      let later = sym (first_unscoped-miss org phone d ds miss) ∙ e in
      elim (Bool-cases (d.id == id)) [
        | inl e' ↦ rw e' (
            first_live-miss org phone (f d) (update_row f id ds)
              (matches-Revives f org phone d r ∙ miss)
            ∙ first_live-none f org id phone ds r later)
        | inr e' ↦ rw e' (
            first_live-miss org phone d (update_row f id ds) miss
            ∙ first_live-none f org id phone ds r later)
      ]
]

first_live-append :
    (org : ℕ) (phone : Text) (table rest : List Contact)
    → first_unscoped org phone table ≡ none
    → first_live org phone (table ++ rest) ≡ first_live org phone rest
first_live-append org phone [] rest e = refl
first_live-append org phone (d ∷ ds) rest e = elim (Bool-cases (matches org phone d)) [
  | inl hit ↦ cc (e, first_unscoped-hit org phone d ds hit)
  | inr miss ↦
      first_live-miss org phone d (ds ++ rest) miss
      ∙ first_live-append org phone ds rest (sym (first_unscoped-miss org phone d ds miss) ∙ e)
]

-- Writes whose updates succeed.
abbrev pub updates : Option (List Contact) → Insert
updates inserted = record { inserted = inserted; restore_fails = false; rename_fails = false }

refreshed-Revives : (name : Text) → Revives (refreshed name)
refreshed-Revives name c = (refl, refl, refl, refl)

find_contact-normalized :
    (org : ℕ) (phone : Text) (table : List Contact) {c : Contact}
    → first_live org (normalized phone) table ≡ some c
    → find_contact org phone table ≡ some c
unfolding find_contact
find_contact-normalized org phone table e = rw (e, find_contact)

find_contact-plus :
    (org : ℕ) (phone : Text) (table : List Contact) {c : Contact}
    → first_live org (normalized phone) table ≡ none
    → first_live org (plus (normalized phone)) table ≡ some c
    → find_contact org phone table ≡ some c
unfolding find_contact
find_contact-plus org phone table e h = rw (e, find_contact) (rw (h, find_contact))

-- What the table after a call finds, where the call returns a contact.
abbrev Finds : ℕ → Text → Option Found × List Contact → Type 0
Finds org phone (none, table) = Unit
Finds org phone (some f, table) = find_contact org phone table ≡ some f.contact

-- A row of its own is no other row's, if ids are unique: the first match of the number is the one.
abbrev pub IsOwnOnly : ℕ → ℕ → Text → List Contact → Type 0
IsOwnOnly id org phone now =
    (c : Contact) → first_own id org phone now ≡ some c → first_unscoped org phone now ≡ some c

create_contact-Finds :
    (id : ℕ) (inserted : Option (List Contact)) (org : ℕ) (phone name : Text) (table : List Contact)
    → ((now : List Contact) → inserted ≡ some now → IsOwnOnly id org (normalized phone) now)
    → first_unscoped org (normalized phone) table ≡ none
    → Finds org phone (create_contact id (updates inserted) org (normalized phone) name table)
unfolding create_contact
create_contact-Finds id none org phone name table own e =
    let c = new_contact id org (normalized phone) name in
    find_contact-normalized org phone (table ++ c ∷ []) (
      first_live-append org (normalized phone) table (c ∷ []) e
      ∙ first_live-hit org (normalized phone) c [] refl
          (rw (==_refl org) (==_refl (normalized phone))))
create_contact-Finds id (some now) org phone name table own e =
    elim (Option-cases (first_own id org (normalized phone) now)) [
      | inl h ↦ rw (create_contact, h) tt
      | inr (c, h) ↦
          rw (create_contact, h)
            (find_contact-normalized org phone (update_row (refreshed []) c.id now) (
              first_live-update_row (refreshed []) org (normalized phone) c now
                (refreshed-Revives []) (own now refl c h)))
    ]

get_or_create_contact-Finds :
    (id : ℕ) (inserted : Option (List Contact)) (org : ℕ) (phone name : Text) (table : List Contact)
    → ((now : List Contact) → inserted ≡ some now → IsOwnOnly id org (normalized phone) now)
    → Finds org phone (get_or_create_contact id (updates inserted) org phone name table)
unfolding get_or_create_contact
get_or_create_contact-Finds id inserted org phone name table own =
    let norm = normalized phone in
    elim (Option-cases (first_unscoped org norm table)) [
      | inr (c, e) ↦
          rw (e, get_or_create_contact)
            (find_contact-normalized org phone (update_row (refreshed name) c.id table)
              (first_live-update_row (refreshed name) org norm c table (refreshed-Revives name) e))
      | inl e ↦ elim (Option-cases (first_unscoped org (plus norm) table)) [
        | inr (c, h) ↦
            rw (e, get_or_create_contact)
              (rw (h, get_or_create_contact)
                (find_contact-plus org phone (update_row (refreshed name) c.id table)
                  (first_live-none (refreshed name) org c.id norm table (refreshed-Revives name) e)
                  (first_live-update_row (refreshed name) org (plus norm) c table
                    (refreshed-Revives name) h)))
        | inl h ↦
            rw (e, get_or_create_contact)
              (rw (h, get_or_create_contact)
                (create_contact-Finds id inserted org phone name table own e))
      ]
    ]

-- Where the updates of a found row succeed, and a row that a failed insert has left behind is the
-- first of its number, the contact that is returned is live in the table, and is the one that a
-- lookup of the same number finds: found, restored or created.
pub find_contact-get_or_create_contact :
    (id : ℕ) (inserted : Option (List Contact)) (org : ℕ) (phone name : Text) (table : List Contact)
    {f : Found}
    → ((now : List Contact) → inserted ≡ some now → IsOwnOnly id org (normalized phone) now)
    → (get_or_create_contact id (updates inserted) org phone name table).0 ≡ some f
    → find_contact org phone (get_or_create_contact id (updates inserted) org phone name table).1
      ≡ some f.contact
find_contact-get_or_create_contact id inserted org phone name table own e =
    open_Finds (get_or_create_contact id (updates inserted) org phone name table)
      (get_or_create_contact-Finds id inserted org phone name table own) e
  where
    open_Finds :
        (r : Option Found × List Contact) {f : Found}
        → Finds org phone r
        → r.0 ≡ some f
        → find_contact org phone r.1 ≡ some f.contact
    open_Finds (none, t) h e = cc
    open_Finds (some g, t) h e = cc (h, ap contact_of e)
      where
        contact_of : Option Found → Option Contact
        contact_of none = none
        contact_of (some f) = some f.contact
