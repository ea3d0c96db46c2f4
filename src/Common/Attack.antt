-- ===== src/Common/Attack.antt =====
-- libs/common/attack.py: the parent technique of an ATT&CK id is what stands before its first dot.
use honeypot_fyp.Prelude.{String, Bool, ◌≡◌, ◌==◌, string_eq}
use honeypot_fyp.Common.Text.{before, before-before}

unfoldable pub technique_family : String → String
technique_family technique = before b'.' technique

unfoldable pub same_technique_family : String → String → Bool
same_technique_family left right = technique_family left == technique_family right

-- The family of a family is itself.
pub technique_family_idem :
    (t : String) → technique_family (technique_family t) ≡ technique_family t
unfolding technique_family
technique_family_idem t = before-before b'.' t
