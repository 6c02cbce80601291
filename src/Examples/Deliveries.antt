-- ===== src/Examples/Deliveries.antt =====
-- The replay guard at concrete deliveries.
use coder_er.Base.{ℕ, ◌≡◌, refl, true, List, [], ◌∷◌, Text, codes}
use coder_er.Base.Dict
use coder_er.Publication.Replay.{accept}

abbrev first_id : Text
first_id = codes "delivery-1"

abbrev others : List (ℕ × Text)
others = (1500, codes "delivery-2") ∷ (3000, first_id) ∷ []

first_accepted : (accept 300 1000 first_id []).0 ≡ true
unfolding accept Dict.has
first_accepted = refl
