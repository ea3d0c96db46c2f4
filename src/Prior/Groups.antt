-- ===== src/Prior/Groups.antt =====
-- `_load` of `FileAttackGroupTechniquePriorRepository` in services/controller/repository.py: the groups
-- of a JSON document, and why they are missing. A group whose `techniques` are no list counts as one
-- without techniques; the code iterates over a text or an object there, and raises at a number.
use Prim.Native.String.{◌++◌ as concat}
use honeypot_fyp.Prelude.{
  String, List, [], map, Option, none, some, is_empty, if◌then◌else◌, string_eq,
}
use honeypot_fyp.Common.Dict.{Dict, get, get_or}
use honeypot_fyp.Common.Iterables.{dedupe_preserve}
use honeypot_fyp.Common.Json.{Json, text, arr, obj, items, fields, dict_items, Host, text_of}
use honeypot_fyp.Common.Text.Order.{sorted}
use honeypot_fyp.Controller.Settings.{techniques_in}

pub record Group : Type 0 where
  pub group_id : String
  pub name : String
  pub techniques : List String

-- What reading the file gives.
pub data Content (F : Type 0) : Type 0 where
  missing : Content F
  unreadable : String → Content F
  payload : Json F → Content F

pub record Prior : Type 0 where
  pub groups : List Group
  pub degraded_reason : Option String

listed : String → Option (List Group) → Prior
listed path none = record {
  groups = [];
  degraded_reason = some (concat "attack group prior has no groups list: " path);
}
listed path (some groups) = record {
  groups = groups;
  degraded_reason =
      if is_empty groups then some "attack group prior has no usable groups" else none;
}

module _ {F : Type 0} where
  group_of : Host F → Dict (Json F) → Group
  unfolding techniques_in text_of get get_or sorted
  group_of host fields = record {
    group_id = text_of host (get_or "group_id" fields (text ""));
    name = text_of host (get_or "name" fields (text ""));
    techniques = sorted (dedupe_preserve (techniques_in (get "techniques" fields)));
  }

  groups_of : Host F → Option (Json F) → Option (List Group)
  unfolding group_of dict_items
  groups_of host (some (arr vs)) = some (map (group_of host) (dict_items (items vs)))
  groups_of host _ = none

  groups_in : Host F → Json F → Option (List Group)
  unfolding groups_of get
  groups_in host (obj fs) = groups_of host (get "groups" (fields fs))
  groups_in host _ = none

  unfoldable pub load : Host F → String → Content F → Prior
  unfolding listed groups_in
  load host path missing = record {
    groups = [];
    degraded_reason = some (concat "attack group prior file missing: " path);
  }
  load host path (unreadable why) = record {
    groups = [];
    degraded_reason =
        some (concat "could not load attack group prior " (concat path (concat ": " why)));
  }
  load host path (payload json) = listed path (groups_in host json)
