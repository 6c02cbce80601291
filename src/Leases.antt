-- ===== src/Leases.antt =====
-- The execution lease of a run: the conditions that the stores' statements put on the columns
-- "leaseOwner" and "leaseExpiresAt" (packages/database/src/publication-store.ts, recovery-store.ts,
-- investigation-store.ts), and the protocol that they are meant to follow, as a lock with an expiry.
pub mod Columns
pub mod Histories
use coder_er.Base.{
  ℕ, ◌+◌, Bool, true, false, not, ◌&&◌, ◌||◌, String, Option, none, some, ltb, min, max, ◌==◌,
  string_equality, if◌then◌else◌, Result, ok, err,
}

-- `COALESCE(a, b)`.
abbrev pub coalesce {ℓ} : {A : Type ℓ} → Option A → A → Option A
coalesce none b = some b
coalesce (some a) b = some a

abbrev pub owned_by : Option String → String → Bool
owned_by none worker = false
owned_by (some owner) worker = owner == worker

abbrev pub runs_after : Option ℕ → ℕ → Bool
runs_after none now = false
runs_after (some t) now = ltb now t

abbrev pub ran_out : Option ℕ → ℕ → Bool
ran_out none now = false
ran_out (some t) now = ltb t now

abbrev pub is_free : Option String → Bool
is_free none = true
is_free (some owner) = false

abbrev pub clamp_lease : ℕ → ℕ
clamp_lease seconds = min (max seconds 15) 900

-- The lease as the protocol sees it: nobody's, or a worker's until a time.
pub data Lease : Type 0 where
  free : Lease
  held : String → ℕ → Lease

-- What an operation asks of the lease: to take it, renew it, write under it or give it up, in the
-- name of a worker; to clear it, to clear it once it has run out, or to leave it alone, in nobody's
-- name.
pub data LeaseAction : Type 0 where
  claim renew : String → ℕ → LeaseAction
  write give_up : String → LeaseAction
  clear expire leave : LeaseAction

abbrev pub is_live : String → ℕ → Lease → Bool
is_live worker now free = false
is_live worker now (held owner expires) = owner == worker && ltb now expires

abbrev pub is_takeable : String → ℕ → Lease → Bool
is_takeable worker now free = true
is_takeable worker now (held owner expires) = owner == worker || ltb expires now

abbrev pub is_past : ℕ → Lease → Bool
is_past now free = false
is_past now (held owner expires) = ltb expires now

-- The protocol: `none` where the action is refused.
unfoldable pub lease_step : LeaseAction → ℕ → Lease → Option Lease
lease_step (claim worker seconds) now l =
    if is_takeable worker now l then some (held worker (now + seconds)) else none
lease_step (renew worker seconds) now l =
    if is_live worker now l then some (held worker (now + seconds)) else none
lease_step (write worker) now l = if is_live worker now l then some l else none
lease_step (give_up worker) now l = if is_live worker now l then some free else none
lease_step clear now l = some free
lease_step expire now l = if is_past now l then some free else none
lease_step leave now l = some l

-- Whether an action is in the name of a worker other than `a`.
abbrev pub is_other : String → LeaseAction → Bool
is_other a (claim worker seconds) = not (worker == a)
is_other a (renew worker seconds) = not (worker == a)
is_other a (write worker) = not (worker == a)
is_other a (give_up worker) = not (worker == a)
is_other a clear = false
is_other a expire = false
is_other a leave = false

abbrev pub frees : LeaseAction → Bool
frees (give_up worker) = true
frees clear = true
frees _ = false

abbrev pub lasts : ℕ → LeaseAction → Bool
lasts minimum (claim worker seconds) = not (ltb seconds minimum)
lasts minimum (renew worker seconds) = not (ltb seconds minimum)
lasts minimum _ = true

-- The value of an operation that does not throw.
abbrev pub accepted {ℓ κ} : {E : Type ℓ} {A : Type κ} → Result E A → Option A
accepted (ok a) = some a
accepted (err e) = none
