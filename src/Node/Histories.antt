-- ===== src/Node/Histories.antt =====
-- How the term and the vote of a node may change (raft/node.cpp).
use sim_kv.Prelude.{◌<◌, ◌≡◌, refl, true, Option, none, some, ◌⊎◌, inl, inr, arith}
use sim_kv.Types.{NodeId}
use sim_kv.Node.{Node}
use sim_kv.Node.Persistence.{persist}
use sim_kv.Node.Election.{can_vote}
use sim_kv.Node.Kept.{IsClosed}

-- The term has risen, or it is the same and a vote that was cast still stands.
pub record IsLater (s t : Node) : Type 0 where
  pub order :
      (s.current_term < t.current_term)
      ⊎ ((t.current_term ≡ s.current_term) × ((s.voted_for ≡ none) ⊎ (t.voted_for ≡ s.voted_for)))

pub IsLater-refl : (s : Node) → IsLater s s
IsLater-refl s = record { order = inr (refl, inr refl) }

pub IsLater-trans : {r s t : Node} → IsLater r s → IsLater s t → IsLater r t
IsLater-trans h k = ground (arith, h.order, k.order)

cast_once :
    (vote : Option NodeId) (c : NodeId) → can_vote vote c ≡ true → (vote ≡ none) ⊎ (some c ≡ vote)
cast_once none c h = inl refl
cast_once (some v) c h = inr (ground arith)

pub IsLater-IsClosed : (r : Node) → IsClosed (IsLater r)
unfolding persist
IsLater-IsClosed r = record {
  frame = λ s t same h. ground (arith, h.order, same.term, same.vote);
  adopted = λ term s newer h. ground (arith, h.order);
  voted = λ c s able h. ground (arith, h.order, cast_once s.voted_for c able);
  stood = λ c s room h. ground (arith, h.order);
  relogged = λ l s h. ground (arith, h.order);
}
