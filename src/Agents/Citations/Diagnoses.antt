-- ===== src/Agents/Citations/Diagnoses.antt =====
-- Diagnoses whose hypotheses rest on declared evidence of the context.
use coder_er.Base.{
  ℕ, ◌*◌, ◌<◌, ◌≤◌, ◌≡◌, ◌↔◌, refl, sym, ◌∙◌, Bool, true, not, ◌&&◌, List, [], ◌∷◌, ◌++◌, map, any,
  length, ltb, &&_parts, &&_intro, contains, Text, nat_equality, list_equality, All, arith,
}
use coder_er.Agents.Citations.{
  InvestigationCitation, ContextItem, CitationValidationResult, Problem, RootCauseHypothesis,
  exceeds, high_confidence, Diagnosis, citation_key, validate_citations, problem_if, is_empty,
  evidence, is_primary, undeclared, undeclared_problems, check_hypotheses,
  validate_diagnosis_grounding,
}
use coder_er.Agents.Citations.Grounded.{
  IsGrounded, IsDistinct, is_empty-append, is_empty-problem_if, validate_citations-errors,
  validate_citations_iff,
}
use coder_er.Base.Integers.{◌+ℤ◌}

-- A hypothesis cites evidence of the context that the index of the diagnosis declares, none twice.
pub record IsSupported (items : List ContextItem) (declared : List Text) (h : RootCauseHypothesis)
    : Type 0 where
  pub citations : All (IsGrounded items) (evidence h)
  pub distinct : IsDistinct (map citation_key (evidence h))
  pub indexed : All (λ c. contains declared (citation_key c) ≡ true) (evidence h)

pub record IsGroundedDiagnosis (items : List ContextItem) (d : Diagnosis) : Type 0 where
  pub citations : All (IsGrounded items) d.citations
  pub distinct : IsDistinct (map citation_key d.citations)
  pub supported : All (IsSupported items (map citation_key d.citations)) d.hypotheses
  pub has_primary : any (λ h. is_primary h.disposition) d.hypotheses ≡ true
  pub modest :
      high_confidence.numerator * d.confidence.denominator
        < d.confidence.numerator * high_confidence.denominator
      → length d.unknowns ≤ 10

module _ (items : List ContextItem) (declared : List Text) where
  indexed_lem :
      (cs : List InvestigationCitation)
      → (is_empty (undeclared_problems declared cs) ≡ true)
        ↔ All (λ c. contains declared (citation_key c) ≡ true) cs
  indexed_lem [] = (λ h. tt, λ h. refl)
  indexed_lem (c ∷ cs) = ground (
    arith,
    indexed_lem cs,
    is_empty-append
        (problem_if (not (contains declared (citation_key c))) (undeclared (citation_key c)))
        (undeclared_problems declared cs),
    is_empty-problem_if (not (contains declared (citation_key c))) (undeclared (citation_key c)),
  )

  supported_iff :
      (h : RootCauseHypothesis)
      → (((validate_citations (evidence h) items).valid
            && is_empty (undeclared_problems declared (evidence h)))
          ≡ true)
        ↔ IsSupported items declared h
  supported_iff h = (
    λ v.
        let (cited, listed) = &&_parts _ _ v in
        let both = (validate_citations_iff (evidence h) items).0 cited in
        record {
          citations = both.0;
          distinct = both.1;
          indexed = (indexed_lem (evidence h)).0 listed;
        },
    λ g.
        &&_intro _ _ ((validate_citations_iff (evidence h) items).1 (g.citations, g.distinct))
          ((indexed_lem (evidence h)).1 g.indexed),
  )

  errors_of_hypothesis :
      (h : RootCauseHypothesis) (errors : List Problem)
      → is_empty (
          errors
          ++ (validate_citations (evidence h) items).errors
          ++ undeclared_problems declared (evidence h))
        ≡ (is_empty errors
            && (validate_citations (evidence h) items).valid
            && is_empty (undeclared_problems declared (evidence h)))
  errors_of_hypothesis h errors = simp (is_empty-append, validate_citations-errors)

  check_hypotheses_iff :
      (hs : List RootCauseHypothesis) (result : CitationValidationResult)
      → (is_empty (check_hypotheses items declared hs result).errors ≡ true)
        ↔ ((is_empty result.errors ≡ true) × All (IsSupported items declared) hs)
  unfolding check_hypotheses
  check_hypotheses_iff [] result = ground arith
  check_hypotheses_iff (h ∷ hs) result = ground (
    arith,
    supported_iff h,
    errors_of_hypothesis h result.errors,
    check_hypotheses_iff hs (record result {
      errors =
          result.errors
          ++ (validate_citations (evidence h) items).errors
          ++ undeclared_problems declared (evidence h);
      validated_count =
          result.validated_count +ℤ (validate_citations (evidence h) items).validated_count;
    }),
  )

-- The index, the hypotheses, the primary one, the confidence.
diagnosis_valid :
    (d : Diagnosis) (items : List ContextItem)
    → (validate_diagnosis_grounding d items).valid ≡ (
        is_empty
          (check_hypotheses items
            (map citation_key d.citations)
            d.hypotheses
            (validate_citations d.citations items)).errors
        && not (not (any (λ h. is_primary h.disposition) d.hypotheses))
        && not (exceeds d.confidence high_confidence && ltb 10 (length d.unknowns)))
unfolding validate_diagnosis_grounding
diagnosis_valid d items = simp (is_empty-append, is_empty-problem_if)

modest_iff : (a b n : ℕ) → (not (ltb a b && ltb 10 n) ≡ true) ↔ (a < b → n ≤ 10)
modest_iff a b n = ground arith

three : (a b c : Bool) → (a && not (not b) && c) ≡ true → (a ≡ true) × (b ≡ true) × (c ≡ true)
three a b c h = ground arith

of_three : (a b c : Bool) → a ≡ true → b ≡ true → c ≡ true → (a && not (not b) && c) ≡ true
of_three a b c p q r = ground arith

-- A diagnosis is valid exactly when its index of citations is grounded in the context and has no
-- key twice, each hypothesis cites grounded evidence of the index and none of it twice, one
-- hypothesis is primary, and a confidence over 0.8 comes with at most ten unknowns.
pub validate_diagnosis_grounding_iff :
    (d : Diagnosis) (items : List ContextItem)
    → ((validate_diagnosis_grounding d items).valid ≡ true) ↔ IsGroundedDiagnosis items d
validate_diagnosis_grounding_iff d items =
    let keys = map citation_key d.citations in
    let index = validate_citations d.citations items in
    let hypotheses = check_hypotheses_iff items keys d.hypotheses index in
    let cited = validate_citations_iff d.citations items in
    let kept = validate_citations-errors d.citations items in
    let modest =
      modest_iff (high_confidence.numerator * d.confidence.denominator)
        (d.confidence.numerator * high_confidence.denominator) (length d.unknowns) in
    (
      λ h.
          let (e, p, m) = three _ _ _ (sym (diagnosis_valid d items) ∙ h) in
          let both = cited.0 (sym kept ∙ (hypotheses.0 e).0) in
          record {
            citations = both.0;
            distinct = both.1;
            supported = (hypotheses.0 e).1;
            has_primary = p;
            modest = modest.0 m;
          },
      λ g.
          diagnosis_valid d items
          ∙ of_three _ _ _ (hypotheses.1 (kept ∙ cited.1 (g.citations, g.distinct), g.supported))
              g.has_primary (modest.1 g.modest),
    )
