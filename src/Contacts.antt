-- ===== src/Contacts.antt =====
-- internal/contactutil/contactutil.go over the contacts table, whose rows the list holds in the
-- order of the primary key (the order of gorm's First). The columns kept are those that this code
-- and its callers read. What else happens to the table between two calls is the caller's argument.
pub mod Find
mod Samples
use trt_whats.Common.{
  ℕ, Bool, true, false, not, ◌&&◌, ◌||◌, List, [], ◌∷◌, ◌++◌, map, Option, none, some,
  if◌then◌else◌, nat_eq, Text, codes, ◌==◌, nat_eq_on, text_eq_on,
}

pub record Contact : Type 0 where
  pub id : ℕ
  pub org : ℕ
  pub phone_number : Text
  pub profile_name : Text
  pub deleted : Bool
  pub marketing_opt_out : Bool

-- Strips one leading plus sign.
abbrev pub normalized : Text → Text
normalized [] = []
normalized (c ∷ s) = if nat_eq c b'+' then s else c ∷ s

abbrev pub plus : Text → Text
plus s = b'+' ∷ s

-- First, of the unscoped query: the row may be soft-deleted.
unfoldable pub first_unscoped : ℕ → Text → List Contact → Option Contact
first_unscoped org phone [] = none
first_unscoped org phone (c ∷ cs) =
    if (c.org == org) && (c.phone_number == phone) then some c else first_unscoped org phone cs

-- First, of the plain query: live rows only.
unfoldable pub first_live : ℕ → Text → List Contact → Option Contact
first_live org phone [] = none
first_live org phone (c ∷ cs) =
    if not c.deleted && ((c.org == org) && (c.phone_number == phone))
    then some c
    else first_live org phone cs

-- What becomes of the writes: `inserted` is none if the insert succeeds, and else the table that the
-- second look finds; the errors of the two updates are ignored by the code.
pub record Insert : Type 0 where
  pub inserted : Option (List Contact)
  pub restore_fails : Bool
  pub rename_fails : Bool

abbrev pub renamed : Text → Contact → Text
renamed name c = if not (name == []) && not (c.profile_name == name) then name else c.profile_name

-- What a found contact is returned as: restored, and with the profile name given unless that is
-- empty.
abbrev pub refreshed : Text → Contact → Contact
refreshed name c = record c { profile_name = renamed name c; deleted = false }

-- What becomes of its row: the update of the name is scoped to live rows.
abbrev pub stored : Insert → Text → Contact → Contact
stored writes name c =
    let deleted = writes.restore_fails && c.deleted in
    record c {
      profile_name = if writes.rename_fails || deleted then c.profile_name else renamed name c;
      deleted = deleted;
    }

-- An update of the row with the contact's primary key.
unfoldable pub update_row : (Contact → Contact) → ℕ → List Contact → List Contact
update_row f id [] = []
update_row f id (c ∷ cs) = if c.id == id then f c ∷ update_row f id cs else c ∷ update_row f id cs

pub record Found : Type 0 where
  pub contact : Contact
  pub is_new : Bool

abbrev new_contact : ℕ → ℕ → Text → Text → Contact
new_contact id org phone name = record {
  id = id;
  org = org;
  phone_number = phone;
  profile_name = name;
  deleted = false;
  marketing_opt_out = false;
}

-- First, of the second query of a failed insert: the contact's fresh id is a condition too, since it
-- is set in the value that is searched into.
unfoldable pub first_own : ℕ → ℕ → Text → List Contact → Option Contact
first_own id org phone [] = none
first_own id org phone (c ∷ cs) =
    if (c.id == id) && ((c.org == org) && (c.phone_number == phone))
    then some c
    else first_own id org phone cs

unfoldable pub create_contact :
    ℕ → Insert → ℕ → Text → Text → List Contact → Option Found × List Contact
unfolding first_own update_row
create_contact id writes org phone name table =
    let c = new_contact id org phone name in
    elim writes.inserted [
      | none ↦ (some (record { contact = c; is_new = true }), table ++ c ∷ [])
      | some now ↦ elim (first_own id org phone now) [
        | some d ↦ (
          some (record { contact = refreshed [] d; is_new = false }),
          update_row (stored writes []) d.id now,
        )
        | none ↦ (none, now)
      ]
    ]

-- GetOrCreateContact: the contact, unless there is an error, and the table. `id` is the fresh id.
unfoldable pub get_or_create_contact :
    ℕ → Insert → ℕ → Text → Text → List Contact → Option Found × List Contact
unfolding create_contact
get_or_create_contact id writes org phone name table =
    elim (first_unscoped org (normalized phone) table) [
      | some c ↦ (
        some (record { contact = refreshed name c; is_new = false }),
        update_row (stored writes name) c.id table,
      )
      | none ↦ elim (first_unscoped org (plus (normalized phone)) table) [
        | some c ↦ (
          some (record { contact = refreshed name c; is_new = false }),
          update_row (stored writes name) c.id table,
        )
        | none ↦ create_contact id writes org (normalized phone) name table
      ]
    ]

-- FindContact
unfoldable pub find_contact : ℕ → Text → List Contact → Option Contact
unfolding first_live
find_contact org phone table = elim (first_live org (normalized phone) table) [
  | some c ↦ some c
  | none ↦ first_live org (plus (normalized phone)) table
]
