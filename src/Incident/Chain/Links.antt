-- ===== src/Incident/Chain/Links.antt =====
-- When a log verifies, and where one that does not is reported to break.
use coder_er.Base.Eq.{list_beq_iff}
use coder_er.Base.{
  subst, inl, inr, take, suc, ◌-◌, ◌⊎◌, ◌↔◌, ◌∙◌, sym, ℕ, ◌+◌, ◌≡◌, refl, Bool, true, false, Option,
  none, some, Text, List, [], ◌∷◌, length, arith, ap, nat_equality, list_equality, ◌==◌,
}
use coder_er.Incident.Json.{Json}
use coder_er.Incident.Chain.{
  IncidentEventIntegrity, IncidentEvent, option_text_beq, sort_events, hash_input,
  build_incident_event_hash, check_events, verify_incident_event_chain,
}

pub text_beq_iff : (a b : Text) → ((a == b) ≡ true) ↔ (a ≡ b)
text_beq_iff a b = list_beq_iff a b

option_text_beq_iff : (a b : Option Text) → (option_text_beq a b ≡ true) ↔ (a ≡ b)
option_text_beq_iff none none = (λ h. refl, λ h. refl)
option_text_beq_iff none (some b) = (λ h. cc, λ h. cc)
option_text_beq_iff (some a) none = (λ h. cc, λ h. cc)
option_text_beq_iff (some a) (some b) = ground (arith, text_beq_iff a b)

module _ (stringify : Json → Text) (sha256 : Text → Text) (not_after : Text → Text → Bool) where
  -- The events are numbered on from `k`, each names the hash before it, and each hash is right.
  abbrev pub IsChain : Option Text → ℕ → List IncidentEvent → Type 0
  IsChain previous k [] = Unit
  IsChain previous k (e ∷ es) =
      (e.sequence ≡ k)
      × (e.previous_hash ≡ previous)
      × (build_incident_event_hash stringify sha256 not_after (hash_input previous e)
          ≡ e.event_hash)
      × IsChain (some e.event_hash) (k + 1) es

  pub check_events-IsChain :
      (total : ℕ) (previous : Option Text) (k : ℕ) (es : List IncidentEvent)
      → (check_events stringify sha256 not_after total previous k es).valid ≡ true
      → IsChain previous k es
  unfolding check_events
  check_events-IsChain total previous k [] h = tt
  check_events-IsChain total previous k (e ∷ es) h = ground (
    arith,
    h,
    nat_equality.beq_iff e.sequence k,
    option_text_beq_iff e.previous_hash previous,
    text_beq_iff (build_incident_event_hash stringify sha256 not_after (hash_input previous e))
        e.event_hash,
    check_events-IsChain total (some e.event_hash) (k + 1) es,
  )

  IsChain-check_events :
      (total : ℕ) (previous : Option Text) (k : ℕ) (es : List IncidentEvent)
      → IsChain previous k es
      → (check_events stringify sha256 not_after total previous k es).valid ≡ true
  unfolding check_events
  IsChain-check_events total previous k [] h = refl
  IsChain-check_events total previous k (e ∷ es) (numbered, named, hashed, later) = ground (
    arith,
    numbered,
    named,
    hashed,
    nat_equality.beq_iff e.sequence k,
    option_text_beq_iff e.previous_hash previous,
    text_beq_iff (build_incident_event_hash stringify sha256 not_after (hash_input previous e))
        e.event_hash,
    IsChain-check_events total (some e.event_hash) (k + 1) es later,
  )

  abbrev Link : Option Text → ℕ → IncidentEvent → Type 0
  Link previous k e =
      (e.sequence ≡ k)
      × (e.previous_hash ≡ previous)
      × (build_incident_event_hash stringify sha256 not_after (hash_input previous e)
          ≡ e.event_hash)

  check_events-cons :
      (total : ℕ) (previous : Option Text) (k : ℕ) (e : IncidentEvent) (es : List IncidentEvent)
      → (Link previous k e
          × (check_events stringify sha256 not_after total previous k (e ∷ es)
              ≡ check_events stringify sha256 not_after total (some e.event_hash) (k + 1) es))
        ⊎ (¬ (Link previous k e)
            × ((check_events stringify sha256 not_after total previous k (e ∷ es)).checked_events
                ≡ k - 1))
  unfolding check_events
  check_events-cons total previous k e es = ground (
    arith,
    text_beq_iff (build_incident_event_hash stringify sha256 not_after (hash_input previous e))
        e.event_hash,
    nat_equality.beq_iff e.sequence k,
    option_text_beq_iff e.previous_hash previous,
  )

  -- An invalid chain is reported at the first event that breaks it.
  check_events-reports :
      (total : ℕ) (previous : Option Text) (k : ℕ) (es : List IncidentEvent)
      → (check_events stringify sha256 not_after total previous (k + 1) es).valid ≡ false
      → (i : ℕ) × ((check_events stringify sha256 not_after total previous
            (k + 1)
            es).checked_events
          ≡ k + i)
        × IsChain previous (k + 1) (take i es)
        × ¬ (IsChain previous (k + 1) (take (suc i) es))
  unfolding check_events
  check_events-reports total previous k [] h = cc
  check_events-reports total previous k (e ∷ es) h =
      elim (check_events-cons total previous (k + 1) e es) [
        | inl (link, same) ↦
            let (i, checked, good, bad) =
              check_events-reports total (some e.event_hash) (k + 1) es
                (ap (λ (v : IncidentEventIntegrity). v.valid) (sym same) ∙ h) in
            (
              suc i,
              omega (arith, checked, ap (λ (v : IncidentEventIntegrity). v.checked_events) same),
              (link.0, link.1, link.2, good),
              λ c. bad c.3,
            )
        | inr (no_link, checked) ↦ (0, omega (arith, checked), tt, λ c. no_link (c.0, c.1, c.2))
      ]

  -- A log verifies exactly when its events, in the order of their numbers, are numbered from one,
  -- each names the hash of the one before, and each carries the hash of what it says.
  pub verify_incident_event_chain_iff :
      (es : List IncidentEvent)
      → ((verify_incident_event_chain stringify sha256 not_after es).valid ≡ true)
        ↔ IsChain none 1 (sort_events es)
  unfolding verify_incident_event_chain
  verify_incident_event_chain_iff es = (
    check_events-IsChain (length es) none 1 (sort_events es),
    IsChain-check_events (length es) none 1 (sort_events es),
  )

  -- A log that does not verify is reported at its first flaw: the events that were checked form a
  -- chain, and with the next one they do not.
  pub verify_incident_event_chain-reports :
      (es : List IncidentEvent)
      → (verify_incident_event_chain stringify sha256 not_after es).valid ≡ false
      → IsChain none 1 (
          take
            (verify_incident_event_chain stringify sha256 not_after es).checked_events
            (sort_events es))
        × ¬ (
            IsChain none 1 (
              take
                (suc (verify_incident_event_chain stringify sha256 not_after es).checked_events)
                (sort_events es)))
  unfolding verify_incident_event_chain
  verify_incident_event_chain-reports es h =
      let (i, checked, good, bad) = check_events-reports (length es) none 0 (sort_events es) h in
      let here : i ≡ (verify_incident_event_chain stringify sha256 not_after es).checked_events =
        omega (arith, checked) in
      subst
        (λ n.
          IsChain none 1 (take n (sort_events es))
          × ¬ (IsChain none 1 (take (suc n) (sort_events es))))
        here (good, bad)
