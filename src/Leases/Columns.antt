-- ===== src/Leases/Columns.antt =====
-- The two columns of a lease read as a lease of the protocol, and the stores' conditions on them.
use coder_er.Base.{
  Bool, not, subst, if◌then◌else◌, ok, err, Result, throw_if, ◌>>=◌, refl, false, ℕ, ◌≡◌, true,
  ◌&&◌, ◌||◌, String, Option, none, some, arith, string_equality,
}
use coder_er.Leases.{
  is_past, accepted, Lease, free, held, owned_by, runs_after, ran_out, is_free, is_live,
  is_takeable,
}

-- `none` where only one of the two columns is set.
abbrev pub lease_of : Option String → Option ℕ → Option Lease
lease_of none none = some free
lease_of (some owner) (some expires) = some (held owner expires)
lease_of none (some expires) = none
lease_of (some owner) none = none

module _ (worker : String) (now : ℕ) (l : Lease) where
  pub live_columns :
      (owner : Option String) (expires : Option ℕ)
      → lease_of owner expires ≡ some l
      → (owned_by owner worker && runs_after expires now) ≡ true
      → is_live worker now l ≡ true
  live_columns none none e h = cc
  live_columns none (some t) e h = cc
  live_columns (some o) none e h = cc
  live_columns (some o) (some t) e h = ground (arith, e, h)

  pub takeable_columns :
      (owner : Option String) (expires : Option ℕ)
      → lease_of owner expires ≡ some l
      → (is_free owner || ran_out expires now || owned_by owner worker) ≡ true
      → is_takeable worker now l ≡ true
  takeable_columns none none e h = ground (arith, e)
  takeable_columns none (some t) e h = cc
  takeable_columns (some o) none e h = cc
  takeable_columns (some o) (some t) e h = ground (arith, e, h)

  pub past_columns :
      (owner : Option String) (expires : Option ℕ)
      → lease_of owner expires ≡ some l
      → ran_out expires now ≡ true
      → is_past now l ≡ true
  past_columns none none e h = cc
  past_columns none (some t) e h = cc
  past_columns (some o) none e h = cc
  past_columns (some o) (some t) e h = ground (arith, e, h)

  pub renewed_columns :
      (owner : Option String) (expires : Option ℕ) (t : ℕ)
      → lease_of owner expires ≡ some l
      → is_live worker now l ≡ true
      → lease_of owner (some t) ≡ some (held worker t)
  renewed_columns none none t e h = ground (arith, e, h)
  renewed_columns none (some _) t e h = cc
  renewed_columns (some o) none t e h = cc
  renewed_columns (some o) (some u) t e h = ground (arith, e, h, string_equality.beq_iff o worker)

-- What a statement `if (test) throw e;` tells of an operation that returns.
pub accepted-throw_if {ℓ κ} :
    {E : Type ℓ} {A : Type κ} (test : Bool) (e : E) (next : Result E A) {a : A}
    → accepted (throw_if test e >>= λ _. next) ≡ some a
    → (test ≡ false) × (accepted next ≡ some a)
accepted-throw_if true e next h = cc
accepted-throw_if false e next h = (refl, h)

pub accepted->>= {ℓ κ μ} :
    {E : Type ℓ} {A : Type κ} {B : Type μ} (first : Result E A) (next : A → Result E B) {b : B}
    → accepted (first >>= next) ≡ some b
    → (a : A) × ((first ≡ ok a) × (accepted (next a) ≡ some b))
accepted->>= (err e) next h = cc
accepted->>= (ok a) next h = (a, (refl, h))

-- An update that finds its row.
pub updated {ℓ} :
    {A : Type ℓ} (test : Bool) (a : A) {b : A}
    → (if test then some a else none) ≡ some b
    → (test ≡ true) × (some a ≡ some b)
updated true a h = (refl, h)
updated false a h = cc

pub accepted-ok {ℓ κ} :
    {E : Type ℓ} {A : Type κ} (m : Result E A) {a : A} → accepted m ≡ some a → m ≡ ok a
accepted-ok (err e) h = cc
accepted-ok (ok a) h = cc

-- What an operation that asserts the lease tells of it.
pub asserted_live {ℓ κ} :
    {E : Type ℓ} {A : Type κ} (worker : String) (now : ℕ) (l : Lease) (owner : Option String)
    (expires : Option ℕ) (lost : E) (next : Result E A) {a : A}
    → lease_of owner expires ≡ some l
    → accepted (throw_if (not (owned_by owner worker && runs_after expires now)) lost >>= λ _. next)
      ≡ some a
    → (is_live worker now l ≡ true) × (accepted next ≡ some a)
asserted_live worker now l owner expires lost next e h =
    let (asserted, rest) =
      accepted-throw_if (not (owned_by owner worker && runs_after expires now)) lost next h in
    (live_columns worker now l owner expires e (ground (arith, asserted)), rest)

-- The lease of the run that an operation returns.
pub lease_left :
    {S : Type 0} (lease : S → Option Lease) (s s' : S) (l : Lease)
    → ◌≡◌ {A = Option S} (some s) (some s')
    → lease s ≡ some l
    → lease s' ≡ some l
lease_left lease s s' l done e = let same : s ≡ s' = cc in subst (λ v. lease v ≡ some l) same e
