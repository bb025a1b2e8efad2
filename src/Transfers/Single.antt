-- ===== src/Transfers/Single.antt =====
-- internal/handlers/agent_transfers.go and sla_processor.go: the transfers that one contact holds.
use trt_whats.Common.{
  ℕ, Bool, true, false, List, [], ◌∷◌, map, Option, if◌then◌else◌, ◌≡◌, ◌⊎◌, ◌++◌, ◌==◌, text_eq_on,
  refl, arith, Bool-cases, inl, inr,
}
use trt_whats.Transfers.{
  AgentTransfer, Contact, Settings, World, Env, has_active, update_transfer, at_id, is_active,
}
use trt_whats.Transfers.Create.{
  unless_held, save_and_finalize_transfer, tracked, pin_manager, closed_message, is_closed,
}

-- No contact holds two active transfers in an organization.
abbrev pub IsSingle : List AgentTransfer → Type 0
IsSingle [] = Unit
IsSingle (t ∷ ts) =
    (is_active t.status ≡ true → has_active t.org t.contact_id ts ≡ false) × IsSingle ts

-- A change of a row that keeps its contact, and activates nothing.
abbrev pub Stays : (AgentTransfer → AgentTransfer) → Type 0
Stays f =
    (t : AgentTransfer)
    → ((f t).org ≡ t.org)
      × ((f t).contact_id ≡ t.contact_id)
      × (is_active (f t).status ≡ true → is_active t.status ≡ true)

has_active-map :
    (f : AgentTransfer → AgentTransfer) (org contact : ℕ) (ts : List AgentTransfer)
    → Stays f
    → has_active org contact ts ≡ false
    → has_active org contact (map f ts) ≡ false
unfolding has_active
has_active-map f org contact [] s h = refl
has_active-map f org contact (t ∷ ts) s h = ground (arith, s t, has_active-map f org contact ts s)

map-IsSingle :
    (f : AgentTransfer → AgentTransfer) (ts : List AgentTransfer)
    → Stays f
    → IsSingle ts
    → IsSingle (map f ts)
map-IsSingle f [] s h = tt
map-IsSingle f (t ∷ ts) s h = (
  λ on. rw ((s t).0, (s t).1) (has_active-map f t.org t.contact_id ts s (h.0 ((s t).2 on))),
  map-IsSingle f ts s h.1,
)

at_id-Stays : (id : ℕ) (f : AgentTransfer → AgentTransfer) → Stays f → Stays (at_id id f)
at_id-Stays id f s t = ground (arith, s t)

save-transfers :
    (env : Env) (settings : Option Settings) (ends_session : Bool) (c : Contact) (t : AgentTransfer)
    (w : World)
    → (save_and_finalize_transfer env settings ends_session c t w).transfers
      ≡ (if env.write_fails then w.transfers else tracked env settings t ∷ w.transfers)
unfolding save_and_finalize_transfer pin_manager
save-transfers env settings e c t w = ground arith

pub save-IsSingle :
    (env : Env) (settings : Option Settings) (ends_session : Bool) (c : Contact) (t : AgentTransfer)
    (w : World)
    → has_active t.org t.contact_id w.transfers ≡ false
    → IsSingle w.transfers
    → IsSingle (save_and_finalize_transfer env settings ends_session c t w).transfers
unfolding tracked
save-IsSingle env settings e c t w free h =
    rw (save-transfers env settings e c t w) (either env.write_fails)
  where
    either : (b : Bool) → IsSingle (if b then w.transfers else tracked env settings t ∷ w.transfers)
    either true = h
    either false = (λ on. free, h)

pub unless_held-IsSingle :
    (env : Env) (settings : Option Settings) (c : Contact) (go : World → World) (w : World)
    → (has_active c.org c.id w.transfers ≡ false → IsSingle (go w).transfers)
    → IsSingle w.transfers
    → IsSingle (unless_held env settings c go w).transfers
unfolding unless_held
unless_held-IsSingle env settings c go w k h =
    elim (Bool-cases (has_active c.org c.id w.transfers)) [
      | inl held ↦ rw (unless_held, held) h
      | inr free ↦ rw (unless_held, free) (told (is_closed env settings) (k free))
    ]
  where
    told :
        (b : Bool)
        → IsSingle (go w).transfers
        → IsSingle
            (if b
              then (if closed_message settings == []
                  then w
                  else record w { sent = w.sent ++ (c.id, closed_message settings) ∷ [] })
              else go w).transfers
    told true g = ground arith
    told false g = g

-- A step that leaves the table, or changes its rows.
abbrev pub Steps : World → World → Type 0
Steps w w' =
    (w'.transfers ≡ w.transfers)
    ⊎ ((f : AgentTransfer → AgentTransfer) × (w'.transfers ≡ map f w.transfers) × Stays f)

pub Steps-IsSingle : (w w' : World) → Steps w w' → IsSingle w.transfers → IsSingle w'.transfers
Steps-IsSingle w w' (inl e) h = rw e h
Steps-IsSingle w w' (inr (f, e, s)) h = rw e (map-IsSingle f w.transfers s h)

-- A step that writes at most the row of an id.
pub writes :
    (id : ℕ) (f : AgentTransfer → AgentTransfer) (w w' : World)
    → Stays f
    → (w'.transfers ≡ w.transfers) ⊎ (w'.transfers ≡ update_transfer id f w.transfers)
    → Steps w w'
unfolding update_transfer
writes id f w w' s (inl e) = inl e
writes id f w w' s (inr e) = inr ((at_id id f, e, at_id-Stays id f s))
