-- ===== src/Incident/Json/Order.antt =====
-- The canonical form of an object does not depend on the order of its entries.
use coder_er.Base.{◌≡◌, refl, Bool, true, false, ◌&&◌, ◌||◌, Text, ap, arith, ◌∙◌}
use coder_er.Incident.Json.{
  canonical_json, Json, object, Members, member, no_members, insert_member, canonicalize,
  canonicalize_members, digest_payload,
}

module _ (not_after : Text → Text → Bool) where
  -- What the collation of `localeCompare` promises.
  pub record IsCollation : Type 0 where
    pub total : (a b : Text) → (not_after a b || not_after b a) ≡ true
    pub trans : (a b c : Text) → not_after a b ≡ true → not_after b c ≡ true → not_after a c ≡ true

  -- The entries in another order, where the collation tells the keys that change places apart.
  pub data Reordered : Members → Members → Type 0 where
    same : (m : Members) → Reordered m m
    below :
        (k : Text) (v : Json) (m n : Members)
        → Reordered m n
        → Reordered (member k v m) (member k v n)
    swap :
        (k j : Text) (v w : Json) (m : Members)
        → (not_after k j && not_after j k) ≡ false
        → Reordered (member k v (member j w m)) (member j w (member k v m))
    then : (m n p : Members) → Reordered m n → Reordered n p → Reordered m p

  insert_member_comm :
      (c : IsCollation) (k j : Text) (v w : Json) (m : Members)
      → (not_after k j && not_after j k) ≡ false
      → insert_member not_after k v (insert_member not_after j w m)
        ≡ insert_member not_after j w (insert_member not_after k v m)
  unfolding insert_member
  insert_member_comm c k j v w no_members apart = ground (arith, c.total k j)
  insert_member_comm c k j v w (member l u rest) apart =
      ground
        (arith, c.total k j, c.trans k j l, c.trans j k l, insert_member_comm c k j v w rest apart)

  canonicalize_members-Reordered :
      (c : IsCollation) (m n : Members)
      → Reordered m n
      → canonicalize_members not_after m ≡ canonicalize_members not_after n
  unfolding canonicalize
  canonicalize_members-Reordered c _ _ (same m) = refl
  canonicalize_members-Reordered c _ _ (below k v m n r) =
      ap (insert_member not_after k (canonicalize not_after v))
        (canonicalize_members-Reordered c m n r)
  canonicalize_members-Reordered c _ _ (swap k j v w m apart) =
      insert_member_comm c k j (canonicalize not_after v) (canonicalize not_after w)
        (canonicalize_members not_after m) apart
  canonicalize_members-Reordered c _ _ (then m n p r s) =
      canonicalize_members-Reordered c m n r ∙ canonicalize_members-Reordered c n p s

-- The digest of a payload does not depend on the order in which an object's entries were written:
-- two objects that differ only in it have the same digest, if the collation is a total order whose
-- ties are not between the keys that change places.
pub digest_payload-Reordered :
    (stringify : Json → Text) (sha256 : Text → Text) (not_after : Text → Text → Bool)
    (m n : Members)
    → IsCollation not_after
    → Reordered not_after m n
    → digest_payload stringify sha256 not_after (object m)
      ≡ digest_payload stringify sha256 not_after (object n)
unfolding digest_payload canonical_json canonicalize
digest_payload-Reordered stringify sha256 not_after m n c r =
    ap (λ e. sha256 (stringify (object e))) (canonicalize_members-Reordered not_after c m n r)
