-- ===== src/Binding/Repository.antt =====
-- services/binding_service/repository.py: `FileBindingRepository`. The state is the `records` list
-- of its JSON document, each item as the record that it validates to.
use honeypot_fyp.Prelude.{String, Bool, List, map, Option, ◌==◌, string_eq}
use honeypot_fyp.Common.Dict
use honeypot_fyp.Common.Dict.{Dict, of_pairs, values}
use honeypot_fyp.Common.JsonStore.{upsert_items}
use honeypot_fyp.Contracts.Bindings.{BindingRecord}

abbrev pub Records : Type 0
Records = List BindingRecord

abbrev pub by_binding : BindingRecord → String × BindingRecord
by_binding r = (r.binding_id, r)

abbrev pub by_attacker : BindingRecord → String × BindingRecord
by_attacker r = (r.attacker_key, r)

-- `_records_by_binding`: a dict comprehension, so the last record of an id counts
unfoldable pub records_by_binding : Records → Dict BindingRecord
records_by_binding records = of_pairs (map by_binding records)

-- `_records_by_attacker`
unfoldable pub records_by_attacker : Records → Dict BindingRecord
unfolding records_by_binding
records_by_attacker records = of_pairs (map by_attacker (values (records_by_binding records)))

unfoldable pub get_by_attacker : String → Records → Option BindingRecord
unfolding records_by_attacker
get_by_attacker attacker_key records = Dict.get attacker_key (records_by_attacker records)

unfoldable pub get_by_binding : String → Records → Option BindingRecord
unfolding records_by_binding
get_by_binding binding_id records = Dict.get binding_id (records_by_binding records)

abbrev pub same_id : BindingRecord → BindingRecord → Bool
same_id record' existing = existing.binding_id == record'.binding_id

-- `upsert`: the record, and the list with the record in the place of its id
unfoldable pub upsert : BindingRecord → Records → BindingRecord × Records
unfolding upsert_items
upsert r records = (r, upsert_items (same_id r) r records)

unfoldable pub list_all : Records → List BindingRecord
unfolding records_by_binding
list_all records = values (records_by_binding records)
