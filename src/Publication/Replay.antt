-- ===== src/Publication/Replay.antt =====
-- The guard against webhook deliveries that are sent again (packages/publication/src/webhook.ts).
-- Times are milliseconds; the constructor's window is an argument.
pub mod Once
use coder_er.Base.{
  ℕ, ◌+◌, ◌*◌, Bool, true, false, not, ◌&&◌, ◌||◌, List, [], ◌∷◌, Text, ltb, leb, length, all, keep,
  nat_equality, list_equality, if◌then◌else◌,
}
use coder_er.Base.Dict
use coder_er.Base.Dict.{Dict}

-- `[A-Za-z0-9-]`
abbrev is_id_code : ℕ → Bool
is_id_code c =
    (leb 65 c && leb c 90)
    || ((leb 97 c && leb c 122) || ((leb 48 c && leb c 57) || leb 45 c && leb c 45))

-- `/^[A-Za-z0-9-]{8,128}$/`
abbrev pub is_delivery_id : Text → Bool
is_delivery_id id = all is_id_code id && (leb 8 (length id) && leb (length id) 128)

-- `timestamp < current - replayWindowSeconds * 1000` does not hold.
abbrev pub in_window : ℕ → ℕ → Text × ℕ → Bool
in_window window_seconds now entry = not (ltb (entry.1 + window_seconds * 1000) now)

abbrev pub drop_old : ℕ → ℕ → Dict Text ℕ → Dict Text ℕ
drop_old window_seconds now seen = keep (in_window window_seconds now) seen

unfoldable pub accept : ℕ → ℕ → Text → Dict Text ℕ → Bool × Dict Text ℕ
accept window_seconds now id seen =
    let kept = drop_old window_seconds now seen in
    if not (is_delivery_id id)
    then (false, seen)
    else if Dict.has kept id
    then (false, kept)
    else (true, Dict.set kept id now)

-- Deliveries in turn, each with its time.
unfoldable pub accept_all : ℕ → List (ℕ × Text) → Dict Text ℕ → Dict Text ℕ
unfolding accept
accept_all window_seconds [] seen = seen
accept_all window_seconds ((now, id) ∷ later) seen =
    accept_all window_seconds later (accept window_seconds now id seen).1
