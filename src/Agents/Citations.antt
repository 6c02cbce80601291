-- ===== src/Agents/Citations.antt =====
-- The evidence that a diagnosis and a treatment plan cite (packages/ai/src/citations.ts). A problem
-- is a constructor with the key or the identifier of its message. The records hold the fields that
-- the checks read. A confidence is a double, and with it the literal 0.8; either is the fraction that
-- is its exact value.
pub mod Grounded
pub mod Diagnoses
pub mod Plans
use coder_er.Base.{
  ℕ, zero, suc, ◌+◌, ◌*◌, ◌/◌, ◌%◌, Bool, true, false, not, ◌&&◌, ◌||◌, Option, none, some, List,
  [], ◌∷◌, ◌++◌, map, any, length, ltb, contains, Text, codes, ◌==◌, nat_equality, list_equality,
  if◌then◌else◌,
}
use coder_er.Base.Integers.{ℤ, ◌+ℤ◌, minus}
use coder_er.Security.Requests.{trim}

pub data CitationSourceType : Type 0 where
  incident_evidence incident_event reproduction sandbox_log sandbox_artifact repository_file
        repository_health :
      CitationSourceType

abbrev pub source_type_name : CitationSourceType → Text
source_type_name incident_evidence = codes "INCIDENT_EVIDENCE"
source_type_name incident_event = codes "INCIDENT_EVENT"
source_type_name reproduction = codes "REPRODUCTION"
source_type_name sandbox_log = codes "SANDBOX_LOG"
source_type_name sandbox_artifact = codes "SANDBOX_ARTIFACT"
source_type_name repository_file = codes "REPOSITORY_FILE"
source_type_name repository_health = codes "REPOSITORY_HEALTH"

pub record InvestigationCitation : Type 0 where
  pub source_type : CitationSourceType
  pub source_id : Text
  pub digest : Text
  pub path : Option Text
  pub line_start : Option ℕ
  pub line_end : Option ℕ

pub record ContextItem : Type 0 where
  pub source_type : CitationSourceType
  pub source_id : Text
  pub digest : Text
  pub path : Option Text
  pub line_start : Option ℕ
  pub line_end : Option ℕ

pub data HypothesisDisposition : Type 0 where
  primary alternative rejected : HypothesisDisposition

pub record RootCauseHypothesis : Type 0 where
  pub disposition : HypothesisDisposition
  pub supporting_evidence : List InvestigationCitation
  pub contradicting_evidence : List InvestigationCitation

pub record Fraction : Type 0 where
  pub numerator : ℕ
  pub denominator : ℕ

pub record Diagnosis : Type 0 where
  pub confidence : Fraction
  pub hypotheses : List RootCauseHypothesis
  pub unknowns : List Text
  pub citations : List InvestigationCitation

pub record TreatmentPlanStep : Type 0 where
  pub sequence : ℕ
  pub citations : List InvestigationCitation

pub record TreatmentPlan : Type 0 where
  pub steps : List TreatmentPlanStep
  pub rollback_strategy : Text

pub data Problem : Type 0 where
  not_committed other_path begins_outside ends_outside duplicate undeclared : Text → Problem
  no_primary overconfident repeated_sequence not_contiguous no_rollback : Problem

pub record CitationValidationResult : Type 0 where
  pub valid : Bool
  pub errors : List Problem
  pub validated_count : ℤ

-- A number in a template string; a number has at most as many digits as the number above it.
abbrev pub digits : ℕ → ℕ → Text
digits zero n = []
digits (suc fuel) n =
    let rest = digits fuel (n / 10) in (if ltb n 10 then [] else rest) ++ (48 + n % 10) ∷ []

abbrev pub decimal : ℕ → Text
decimal n = digits (suc n) n

-- `join(':')`
abbrev pub join : List Text → Text
join [] = []
join (t ∷ []) = t
join (t ∷ u ∷ ts) = t ++ 58 ∷ join (u ∷ ts)

abbrev pub source_key : CitationSourceType → Text → Text → Text
source_key type id digest = join (source_type_name type ∷ id ∷ digest ∷ [])

abbrev pub text_or_empty : Option Text → Text
text_or_empty none = []
text_or_empty (some t) = t

abbrev pub line_or_empty : Option ℕ → Text
line_or_empty none = []
line_or_empty (some n) = decimal n

unfoldable pub citation_key : InvestigationCitation → Text
citation_key c = join (
    source_type_name c.source_type
    ∷ c.source_id
    ∷ c.digest
    ∷ text_or_empty c.path
    ∷ line_or_empty c.line_start
    ∷ line_or_empty c.line_end
    ∷ [])

-- The map of the items by key: of two items with one key the later is kept.
unfoldable pub item_of : List ContextItem → Text → Option ContextItem
item_of [] key = none
item_of (item ∷ items) key = elim (item_of items key) [
  | some later ↦ some later
  | none ↦ if source_key item.source_type item.source_id item.digest == key then some item else none
]

abbrev pub problem_if : Bool → Problem → List Problem
problem_if true problem = problem ∷ []
problem_if false problem = []

-- Two paths, both present and not empty, that are not the same.
abbrev pub differ : Option Text → Option Text → Bool
differ none q = false
differ (some p) none = false
differ (some []) (some q) = false
differ (some (c ∷ p)) (some []) = false
differ (some (c ∷ p)) (some (d ∷ q)) = not ((c ∷ p) == (d ∷ q))

-- Two lines, both present, the first above the second.
abbrev pub above : Option ℕ → Option ℕ → Bool
above none b = false
above (some a) none = false
above (some a) (some b) = ltb a b

unfoldable pub item_problems : ContextItem → InvestigationCitation → List Problem
item_problems item c =
    problem_if (differ c.path item.path) (other_path c.source_id)
    ++ problem_if (above c.line_start item.line_start) (begins_outside c.source_id)
    ++ problem_if (above item.line_end c.line_end) (ends_outside c.source_id)

unfoldable pub check_citations :
    List ContextItem → List Text → List InvestigationCitation → List Problem
check_citations items seen [] = []
check_citations items seen (c ∷ cs) =
    elim (item_of items (source_key c.source_type c.source_id c.digest)) [
      | none ↦
          not_committed (source_key c.source_type c.source_id c.digest)
          ∷ check_citations items seen cs
      | some item ↦
          item_problems item c
          ++ problem_if (contains seen (citation_key c)) (duplicate (citation_key c))
          ++ check_citations items (citation_key c ∷ seen) cs
    ]

-- `errors.length === 0`
abbrev pub is_empty : List Problem → Bool
is_empty [] = true
is_empty (problem ∷ problems) = false

unfoldable pub validate_citations :
    List InvestigationCitation → List ContextItem → CitationValidationResult
validate_citations citations items =
    let errors = check_citations items [] citations in
    record {
      valid = is_empty errors;
      errors = errors;
      validated_count = minus (length citations) (length errors);
    }

abbrev pub evidence : RootCauseHypothesis → List InvestigationCitation
evidence h = h.supporting_evidence ++ h.contradicting_evidence

abbrev pub undeclared_problems : List Text → List InvestigationCitation → List Problem
undeclared_problems declared [] = []
undeclared_problems declared (c ∷ cs) =
    problem_if (not (contains declared (citation_key c))) (undeclared (citation_key c))
    ++ undeclared_problems declared cs

-- What the hypotheses add to the result.
unfoldable pub check_hypotheses :
    List ContextItem
    → List Text
    → List RootCauseHypothesis
    → CitationValidationResult
    → CitationValidationResult
check_hypotheses items declared [] result = result
check_hypotheses items declared (h ∷ hs) result =
    let hypothesis_result = validate_citations (evidence h) items in
    check_hypotheses items declared hs (record result {
      errors =
          result.errors ++ hypothesis_result.errors ++ undeclared_problems declared (evidence h);
      validated_count = result.validated_count +ℤ hypothesis_result.validated_count;
    })

-- The double nearest to 0.8, over 2 to the power 53.
abbrev pub high_confidence : Fraction
high_confidence = record { numerator = 7205759403792794; denominator = 9007199254740992 }

-- `left > right`
abbrev pub exceeds : Fraction → Fraction → Bool
exceeds left right = ltb (right.numerator * left.denominator) (left.numerator * right.denominator)

abbrev pub is_primary : HypothesisDisposition → Bool
is_primary primary = true
is_primary _ = false

unfoldable pub validate_diagnosis_grounding :
    Diagnosis → List ContextItem → CitationValidationResult
validate_diagnosis_grounding diagnosis items =
    let result =
      check_hypotheses items (map citation_key diagnosis.citations) diagnosis.hypotheses
        (validate_citations diagnosis.citations items) in
    let errors =
      result.errors
      ++ problem_if (not (any (λ h. is_primary h.disposition) diagnosis.hypotheses)) no_primary
      ++ problem_if
          (exceeds diagnosis.confidence high_confidence && ltb 10 (length diagnosis.unknowns))
          overconfident in
    record result { valid = is_empty errors; errors = errors }

abbrev pub step_citations : List TreatmentPlanStep → List InvestigationCitation
step_citations [] = []
step_citations (step ∷ steps) = step.citations ++ step_citations steps

-- `new Set(sequences)`
abbrev pub set_of : List ℕ → List ℕ
set_of [] = []
set_of (n ∷ ns) = let rest = set_of ns in if contains ns n then rest else n ∷ rest

abbrev pub out_of_place : ℕ → List ℕ → Bool
out_of_place i [] = false
out_of_place i (n ∷ ns) = not (n == i + 1) || out_of_place (suc i) ns

unfoldable pub validate_treatment_plan_grounding :
    TreatmentPlan → List ContextItem → CitationValidationResult
validate_treatment_plan_grounding plan items =
    let result = validate_citations (step_citations plan.steps) items in
    let sequences = map (λ s. TreatmentPlanStep.sequence s) plan.steps in
    let errors =
      result.errors
      ++ problem_if (not (length (set_of sequences) == length sequences)) repeated_sequence
      ++ problem_if (out_of_place 0 sequences) not_contiguous
      ++ problem_if (trim plan.rollback_strategy == []) no_rollback in
    record result { valid = is_empty errors; errors = errors }
