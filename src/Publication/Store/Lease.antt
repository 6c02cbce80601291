-- ===== src/Publication/Store/Lease.antt =====
-- Who may work on a run: one worker at a time, and a next one when the lease has run out.
use coder_er.Base.{
  false, ℕ, ◌+◌, ◌<◌, ◌≤◌, ◌≡◌, refl, ◌≢◌, true, String, none, some, err, arith, contains, ◌==◌,
  string_equality, ne-==,
}
use coder_er.Leases.{clamp_lease}
use coder_er.Publication.Status.{publication_status_equality}
use coder_er.Publication.Store.{
  claimed, PublicationRunState, lease_lost, executable_publication_statuses, holds_lease,
  claim_publication,
}
use coder_er.Publication.Store.Workers.{WorkerWrite, perform, perform-lease_lost}

-- Once a worker has claimed a run, then until its lease has run out no other worker can claim it,
-- and every write that another worker makes to it throws that the lease is lost.
pub claim_publication-exclusive :
    (a b : String) (seconds other_seconds now later : ℕ) (r r' : PublicationRunState)
    → claim_publication a seconds now r ≡ some r'
    → a ≢ b
    → later ≤ now + clamp_lease seconds
    → (claim_publication b other_seconds later r' ≡ none)
      × ((w : WorkerWrite) → perform b later w r' ≡ err lease_lost)
unfolding claim_publication
claim_publication-exclusive a b seconds other_seconds now later r r' h other within =
    let distinct : (a == b) ≡ false = ne-== a b other in
    (
      ground (arith, h, distinct),
      λ w. perform-lease_lost b later w r' (ground (arith, h, distinct)),
    )

-- A worker that stops renewing its lease does not block the run: when the lease has run out, any
-- worker can claim a run whose status is executable, it then holds the lease, and the attempt is
-- counted.
pub claim_publication-takeover :
    (worker : String) (seconds now expired : ℕ) (r : PublicationRunState)
    → r.lease_expires ≡ some expired
    → expired < now
    → contains executable_publication_statuses r.status ≡ true
    → (r' : PublicationRunState) × (claim_publication worker seconds now r ≡ some r')
      × (holds_lease worker now r' ≡ true)
      × (r'.attempt_count ≡ r.attempt_count + 1)
      × (r'.status ≡ r.status)
unfolding claim_publication
claim_publication-takeover worker seconds now expired r lease past executable = (
  claimed worker seconds now r,
  ground arith,
  ground (arith, string_equality.beq_iff worker worker),
  refl,
  refl,
)
