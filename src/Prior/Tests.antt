-- ===== src/Prior/Tests.antt =====
-- Recommendations from two groups.
use honeypot_fyp.Prelude.{ℕ, String, List, [], ◌∷◌, ◌≡◌, refl, All}
use honeypot_fyp.Common.Dict.{get_or, put, get}
use honeypot_fyp.Common.Iterables.{dedupe_preserve}
use honeypot_fyp.Common.Floats.{micro_floats}
use honeypot_fyp.Common.Text.Order.{text_lt}
use honeypot_fyp.Prior.Groups.{Group}
use honeypot_fyp.Common.Sorting.{insert_by, sort_by}
use honeypot_fyp.Prior.Recommend.{
  observed_set, recommend, dice_similarity, wknn_weight, add_weight, candidate_scores, normalized,
  neighbors, nearer, ranked_before, similar,
}
use honeypot_fyp.Prior.Unseen.{IsUnseen, recommend-IsUnseen}

abbrev groups : List Group
groups =
    record { group_id = "g-1"; name = "Example"; techniques = "T1059" ∷ "T1190" ∷ [] }
    ∷ record { group_id = "g-2"; name = "Other"; techniques = "T1033" ∷ [] }
    ∷ []

recommends : recommend {F = ℕ} groups ("T1190" ∷ []) 3 100000 ≡ ("T1059", 999998) ∷ []
unfolding recommend observed_set insert_by sort_by dice_similarity wknn_weight add_weight
    candidate_scores normalized neighbors get_or get put text_lt dedupe_preserve nearer
    ranked_before similar
recommends = refl

recommend-IsUnseen_example :
    All
      (λ (e : String × ℕ). IsUnseen groups (observed_set ("T1190" ∷ [])) e.0)
      (recommend {F = ℕ} groups ("T1190" ∷ []) 3 100000)
recommend-IsUnseen_example = recommend-IsUnseen groups ("T1190" ∷ []) 3 100000
