-- ===== src/Recovery/Store/Requests/Decisions.antt =====
-- What a publication decision that is accepted says: every guard of it passed.
use coder_er.Base.{
  ℕ, ◌≡◌, true, false, not, contains, ◌==◌, nat_equality, string_equality, ok, arith,
  throw_if-passed,
}
use coder_er.Approvals.{StoreActorContext, is_human}
use coder_er.Recovery.Status.{recovery_run_status_equality}
use coder_er.Recovery.Store.{
  PublicationDecision, RecoveryRunState, not_human, version_conflict, not_decidable,
  duties_not_separated, no_patch, gate_statuses,
}
use coder_er.Recovery.Store.Requests.{
  DecisionContext, decide_publication, decided, mixes_duties, is_missing,
}

pub record IsDecided (d : DecisionContext) (actor : StoreActorContext)
    (decision : PublicationDecision) (expected : ℕ) (r r' : RecoveryRunState) : Type 0 where
  pub human : is_human actor ≡ true
  pub current : r.version ≡ expected
  pub at_gate : contains gate_statuses r.status ≡ true
  pub duties : mixes_duties d actor decision ≡ false
  pub patched : is_missing r.current_patch_version ≡ false
  pub result : decided d actor decision r ≡ r'

pub decide_publication-IsDecided :
    (d : DecisionContext) (actor : StoreActorContext) (decision : PublicationDecision)
    (expected : ℕ) (r r' : RecoveryRunState)
    → decide_publication d actor decision expected r ≡ ok r'
    → IsDecided d actor decision expected r r'
unfolding decide_publication
decide_publication-IsDecided d actor decision expected r r' h =
    let (human, h1) = throw_if-passed (not (is_human actor)) not_human _ h in
    let (current, h2) = throw_if-passed (not (r.version == expected)) version_conflict _ h1 in
    let (gate, h3) = throw_if-passed (not (contains gate_statuses r.status)) not_decidable _ h2 in
    let (duties, h4) = throw_if-passed (mixes_duties d actor decision) duties_not_separated _ h3 in
    let (patched, h5) = throw_if-passed (is_missing r.current_patch_version) no_patch _ h4 in
    record {
      human = ground (arith, human);
      current = ground (arith, current);
      at_gate = ground (arith, gate);
      duties = duties;
      patched = patched;
      result = cc;
    }
