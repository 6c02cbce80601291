-- ===== src/Approvals.antt =====
-- The approval tables of treatment plans and of publications (packages/database/src/
-- investigation-store.ts, recovery-store.ts): who may decide, the rows, and how they are counted.
pub mod Counting
use coder_er.Base.{
  ℕ, ◌+◌, Bool, true, false, not, ◌&&◌, ◌||◌, String, List, [], ◌∷◌, any, length, contains, ◌==◌,
  nat_equality, string_equality, if◌then◌else◌, Equality,
}
pub use coder_er.Security.Actors.{ActorType, ActorRole}

pub record StoreActorContext : Type 0 where
  pub actor_id : String
  pub actor_type : ActorType
  pub actor_roles : List ActorRole

abbrev pub is_user : ActorType → Bool
is_user ActorType.user = true
is_user _ = false

abbrev pub is_service_role : ActorRole → Bool
is_service_role ActorRole.service = true
is_service_role _ = false

-- An authenticated human user.
abbrev pub is_human : StoreActorContext → Bool
is_human context = not (not (is_user context.actor_type) || any is_service_role context.actor_roles)

-- A row: the version of the plan or of the patch that is decided, the decision and who made it.
pub record Approval (D : Type 0) : Type 0 where
  pub round : ℕ
  pub decision : D
  pub actor_id : String

module _ {D : Type 0} ⦃e : Equality D⦄ where
  abbrev pub same_key : Approval D → Approval D → Bool
  same_key a b = a.round == b.round && a.actor_id == b.actor_id && a.decision == b.decision

  -- `INSERT … ON CONFLICT … DO NOTHING`.
  unfoldable pub record_approval : Approval D → List (Approval D) → List (Approval D)
  record_approval a rows = if any (same_key a) rows then rows else a ∷ rows

  -- `DISTINCT "actorId"` among the rows of a round and a decision.
  unfoldable pub approvers : D → ℕ → List (Approval D) → List String
  approvers decision round [] = []
  approvers decision round (a ∷ rows) =
      let rest = approvers decision round rows in
      if a.round == round && a.decision == decision && not (contains rest a.actor_id)
      then a.actor_id ∷ rest
      else rest

  abbrev pub count_approvers : D → ℕ → List (Approval D) → ℕ
  count_approvers decision round rows = length (approvers decision round rows)
