-- ===== src/Examples/Lifecycles.antt =====
-- The four tables of status changes at concrete paths.
use coder_er.Base.{◌≡◌, refl, true, List, [], ◌∷◌, contains, ok, All}
use coder_er.Base.Machine.{run}
use coder_er.Publication.Status.{PublicationStatus, publication_status_equality}
use coder_er.Publication.Lifecycle.{assert_publication_transition, is_terminal_publication_status}
use coder_er.Publication.Lifecycle.Milestones.{run-merged_milestones, merge_milestones}
use coder_er.Publication.Lifecycle.Terminal.{run-way_out, way_out}
use coder_er.Recovery.Status.{RecoveryRunStatus, recovery_run_status_equality}
use coder_er.Investigation.Status.{InvestigationStatus, investigation_status_equality}
use coder_er.Incident.Status.{IncidentStatus, incident_status_equality}

abbrev revised_path : List PublicationStatus
revised_path =
    PublicationStatus.revision_required ∷ PublicationStatus.policy_check
    ∷ PublicationStatus.commit_materializing ∷ PublicationStatus.branch_publishing
    ∷ PublicationStatus.push_failed ∷ PublicationStatus.branch_publishing
    ∷ PublicationStatus.draft_pr_creating ∷ PublicationStatus.ci_monitoring
    ∷ PublicationStatus.review_monitoring ∷ PublicationStatus.awaiting_review
    ∷ PublicationStatus.ready_for_human_merge ∷ PublicationStatus.merged ∷ []

run-merged_milestones_example : All (λ gate. contains revised_path gate ≡ true) merge_milestones
unfolding run assert_publication_transition
run-merged_milestones_example =
    run-merged_milestones PublicationStatus.changes_requested revised_path refl refl

run-way_out_example :
    (t : PublicationStatus) × (run assert_publication_transition
        PublicationStatus.ready_for_human_merge
        (way_out PublicationStatus.ready_for_human_merge)
      ≡ ok t)
    × (is_terminal_publication_status t ≡ true)
run-way_out_example = run-way_out PublicationStatus.ready_for_human_merge

abbrev published_path : List RecoveryRunStatus
published_path =
    RecoveryRunStatus.patch_planning ∷ RecoveryRunStatus.patch_generating
    ∷ RecoveryRunStatus.patch_validating ∷ RecoveryRunStatus.security_review
    ∷ RecoveryRunStatus.verifying ∷ RecoveryRunStatus.package_building
    ∷ RecoveryRunStatus.awaiting_publication_approval ∷ RecoveryRunStatus.ready_to_publish
    ∷ RecoveryRunStatus.published ∷ []

abbrev approved_path : List InvestigationStatus
approved_path =
    InvestigationStatus.policy_check ∷ InvestigationStatus.context_building
    ∷ InvestigationStatus.triage ∷ InvestigationStatus.mapping ∷ InvestigationStatus.hypothesis
    ∷ InvestigationStatus.validation ∷ InvestigationStatus.security_review
    ∷ InvestigationStatus.plan_composition ∷ InvestigationStatus.critic_review
    ∷ InvestigationStatus.revision_requested ∷ InvestigationStatus.plan_composition
    ∷ InvestigationStatus.critic_review ∷ InvestigationStatus.awaiting_approval
    ∷ InvestigationStatus.approved ∷ []

abbrev verified_path : List IncidentStatus
verified_path =
    IncidentStatus.triaging ∷ IncidentStatus.investigating ∷ IncidentStatus.recovering
    ∷ IncidentStatus.verifying ∷ IncidentStatus.recovering ∷ IncidentStatus.verifying
    ∷ IncidentStatus.verified ∷ []
