-- ===== src/Publication/Replay/Once.antt =====
-- A delivery is accepted once in a window.
use coder_er.Base.{
  refl, ◌==◌, ℕ, ◌+◌, ◌*◌, ◌≤◌, ◌≡◌, true, false, some, List, [], ◌∷◌, Text, All, arith,
  list_equality, nat_equality,
}
use coder_er.Base.Dict
use coder_er.Base.Dict.{Dict}
use coder_er.Base.Eq.{list_beq_iff}
use coder_er.Publication.Replay.{is_delivery_id, drop_old, accept, accept_all}

get-drop_old :
    (w now : ℕ) (m : Dict Text ℕ) (id : Text) (t : ℕ)
    → now ≤ t + w * 1000
    → Dict.get m id ≡ some t
    → Dict.get (drop_old w now m) id ≡ some t
unfolding Dict.get
get-drop_old w now [] id t near h = cc
get-drop_old w now ((j, u) ∷ m) id t near h = ground (arith, get-drop_old w now m id t near, h)

get-accept :
    (w now : ℕ) (other id : Text) (m : Dict Text ℕ) (t : ℕ)
    → now ≤ t + w * 1000
    → Dict.get m id ≡ some t
    → Dict.get (accept w now other m).1 id ≡ some t
unfolding accept
get-accept w now other id m t near h = ground (
  arith,
  get-drop_old w now m id t near h,
  Dict.get-set (drop_old w now m) other id now,
  Dict.has-get (drop_old w now m) other,
  list_beq_iff other id,
)

get-accept_all :
    (w : ℕ) (ds : List (ℕ × Text)) (id : Text) (m : Dict Text ℕ) (t : ℕ)
    → All (λ (d : ℕ × Text). d.0 ≤ t + w * 1000) ds
    → Dict.get m id ≡ some t
    → Dict.get (accept_all w ds m) id ≡ some t
unfolding accept_all
get-accept_all w [] id m t near h = h
get-accept_all w ((now, other) ∷ ds) id m t (here, near) h =
    get-accept_all w ds id (accept w now other m).1 t near (get-accept w now other id m t here h)

get-accepted :
    (w now : ℕ) (id : Text) (m : Dict Text ℕ)
    → (accept w now id m).0 ≡ true
    → Dict.get (accept w now id m).1 id ≡ some now
unfolding accept
get-accepted w now id m h =
    ground (arith, h, Dict.get-set (drop_old w now m) id id now, list_beq_iff id id)

-- Once a delivery is accepted, it is refused as long as its window lasts, whatever other deliveries
-- come between, none of them dated after the window.
pub accept-once :
    (w t now : ℕ) (id : Text) (m : Dict Text ℕ) (ds : List (ℕ × Text))
    → (accept w t id m).0 ≡ true
    → All (λ (d : ℕ × Text). d.0 ≤ t + w * 1000) ds
    → now ≤ t + w * 1000
    → (accept w now id (accept_all w ds (accept w t id m).1)).0 ≡ false
unfolding accept
accept-once w t now id m ds first near last =
    let seen = accept_all w ds (accept w t id m).1 in
    let found = get-accept_all w ds id (accept w t id m).1 t near (get-accepted w t id m first) in
    ground (arith, get-drop_old w now seen id t last found, Dict.has-get (drop_old w now seen) id)

has-drop_old :
    (w now : ℕ) (m : Dict Text ℕ) (id : Text)
    → Dict.has m id ≡ false
    → Dict.has (drop_old w now m) id ≡ false
unfolding Dict.has
has-drop_old w now [] id h = refl
has-drop_old w now ((j, u) ∷ m) id h = ground (arith, has-drop_old w now m id, h)

has-accept :
    (w now : ℕ) (other id : Text) (m : Dict Text ℕ)
    → (other == id) ≡ false
    → Dict.has m id ≡ false
    → Dict.has (accept w now other m).1 id ≡ false
unfolding accept
has-accept w now other id m apart h =
    ground (arith, apart, has-drop_old w now m id h, Dict.has-set (drop_old w now m) other id now)

has-accept_all :
    (w : ℕ) (ds : List (ℕ × Text)) (id : Text) (m : Dict Text ℕ)
    → All (λ (d : ℕ × Text). (d.1 == id) ≡ false) ds
    → Dict.has m id ≡ false
    → Dict.has (accept_all w ds m) id ≡ false
unfolding accept_all
has-accept_all w [] id m others h = h
has-accept_all w ((now, other) ∷ ds) id m (apart, others) h =
    has-accept_all w ds id (accept w now other m).1 others (has-accept w now other id m apart h)

-- A delivery with a well-formed id that a new guard has not been shown is accepted, whatever other
-- deliveries it has been shown.
pub accept-new :
    (w now : ℕ) (id : Text) (ds : List (ℕ × Text))
    → is_delivery_id id ≡ true
    → All (λ (d : ℕ × Text). (d.1 == id) ≡ false) ds
    → (accept w now id (accept_all w ds [])).0 ≡ true
unfolding accept Dict.has
accept-new w now id ds valid others = ground (
  arith,
  valid,
  has-drop_old w now (accept_all w ds []) id (has-accept_all w ds id [] others refl),
)
