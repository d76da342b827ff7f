-- ===== src/Devloop/Fields.antt =====
-- Reading back what git prints.
use fund.Devloop.{changes_of, Change, letter}
use fund.Base.{[], ◌∷◌, refl, List, All, String, ◌≡◌}

-- The fields that git prints for changes, after the split at each NUL: the last one is empty.
unfoldable pub printed_fields : List Change → List String
printed_fields [] = "" ∷ []
printed_fields ((status, path) ∷ cs) = status ∷ path ∷ printed_fields cs

-- For any changes whose status is one letter, whatever the paths hold, reading the fields that git prints
-- for them gives back those changes, in order.
pub changes_of-printed_fields :
    (cs : List Change)
    → All (λ (c : Change). letter c.0 ≡ c.0) cs
    → changes_of (printed_fields cs) ≡ cs
unfolding changes_of printed_fields
changes_of-printed_fields [] h = refl
changes_of-printed_fields ((status, path) ∷ cs) h =
    rw (h.0, changes_of-printed_fields cs (h.1)) refl
