-- ===== src/Common/Clock.antt =====
-- `parse_iso_datetime` of libs/common/clock.py.
use Prim.Native.Char.{code}
use honeypot_fyp.Prelude.{ℕ, String, Option, some, none, nat_beq, if◌then◌else◌}
use honeypot_fyp.Common.Json.{Json, text}
use honeypot_fyp.Common.Text.{concat, is_blank, strip}

-- `value.replace("Z", "+00:00")`
unfoldable pub with_offset : String → String
with_offset String.[] = String.[]
with_offset (String.◌∷◌ c s) =
    let rest = with_offset s in
    if nat_beq (code c) b'Z' then concat "+00:00" rest else String.◌∷◌ c rest

module _ {F : Type 0} where
  -- `from_iso` is `datetime.fromisoformat` and then `utc_aware`; none where it raises.
  unfoldable pub parse_iso_datetime : (String → Option ℕ) → Option (Json F) → Option ℕ
  unfolding with_offset strip
  parse_iso_datetime from_iso (some (text s)) =
      if is_blank (strip s) then none else from_iso (with_offset s)
  parse_iso_datetime from_iso _ = none
