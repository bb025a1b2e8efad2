-- ===== src/Contacts/Samples.antt =====
-- internal/contactutil/contactutil.go: a contact whose number was stored with a plus sign and who
-- was deleted, and the theorem at it.
use trt_whats.Common.{◌≡◌, refl, true, false, List, [], ◌∷◌, none, some, codes, text_eq}
use trt_whats.Contacts.{Contact, first_unscoped, get_or_create_contact, find_contact}
use trt_whats.Contacts.Find.{updates, IsOwnOnly, find_contact-get_or_create_contact}

abbrev ann : Contact
ann = record {
  id = 3;
  org = 1;
  phone_number = codes "+491";
  profile_name = codes "Ann";
  deleted = true;
  marketing_opt_out = false;
}

no_row : (now : List Contact) → none ≡ some now → IsOwnOnly 9 1 (codes "491") now
no_row now e = cc

find_contact-get_or_create_contact_example :
    find_contact 1
      (codes "491")
      (get_or_create_contact 9 (updates none) 1 (codes "491") (codes "Anna") (ann ∷ [])).1
    ≡ some (record ann { profile_name = codes "Anna"; deleted = false })
unfolding get_or_create_contact first_unscoped text_eq
find_contact-get_or_create_contact_example =
    find_contact-get_or_create_contact 9 none 1 (codes "491") (codes "Anna") (ann ∷ []) no_row refl
