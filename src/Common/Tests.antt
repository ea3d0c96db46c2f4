-- ===== src/Common/Tests.antt =====
-- The helpers at concrete values.
use honeypot_fyp.Prelude.{
  length, ◌++◌, ℕ, String, false, List, [], ◌∷◌, none, some, filter, ◌≡◌, refl, ◌==◌, string_eq,
  if◌then◌else◌, Bool-cases, inl, inr,
}
use honeypot_fyp.Common.Dict.{Dict, get}
use honeypot_fyp.Common.Json.{Json, text, arr, obj, items_of, fields_of, as_list}
use honeypot_fyp.Common.JsonStore.Buckets.{stored_object, extend_list_in_object-stored}
use honeypot_fyp.Common.JsonStore.{
  extend_list_in_object, Store, read_unlocked, write_unlocked, has_text, upsert_list_item,
}
use honeypot_fyp.Common.JsonStore.Upsert.{find, keeps}
use honeypot_fyp.Common.JsonStore.Writes.{stored_list, upsert_list_item-stored}
use honeypot_fyp.Common.JsonStore.Cycles.{
  Phase, waiting, locked, changed, written, finished, Owns, World, move, acquire, load, save,
  release, Run, start, then_step, replay, run-serial,
}

abbrev observations : List (String × String)
observations = ("ev-1", "T1213") ∷ ("ev-2", "T1083") ∷ ("ev-1", "T1552") ∷ []

abbrev evidence_id : String × String → String
evidence_id e = e.0

abbrev entry : String → String → Json ℕ
entry id status = obj (fields_of (("binding_id", text id) ∷ ("status", text status) ∷ []))

abbrev file : Store ℕ
file = record {
  content =
      some (("records", arr (items_of (entry "b-1" "active" ∷ entry "b-2" "active" ∷ []))) ∷ []);
  default_data = ("records", arr (items_of [])) ∷ [];
}

upsert_list_item-stored_example :
    let matches = has_text "binding_id" "b-1" in
    let after = upsert_list_item "records" "binding_id" "b-1" (entry "b-1" "idle") file in
    (find matches (stored_list "records" after) ≡ some (entry "b-1" "idle"))
    × (filter (keeps matches) (stored_list "records" after)
        ≡ filter (keeps matches) (stored_list "records" file))
    × (length (stored_list "records" after) ≡ length (stored_list "records" file))
    × ((j : String)
        → ("records" == j) ≡ false
        → get j (read_unlocked after) ≡ get j (read_unlocked file))
unfolding has_text get read_unlocked
upsert_list_item-stored_example =
    upsert_list_item-stored "records" "binding_id" "b-1" (entry "b-1" "idle") file refl

abbrev note : String → Dict (Json ℕ) → Dict (Json ℕ)
note id payload = (id, text "seen") ∷ payload

abbrev phases : String → Phase ℕ
phases p =
    if p == "a" then waiting (note "a") else if p == "b" then waiting (note "b") else finished

abbrev world : World ℕ
world = record { store = file; holder = none; phase = phases }

outside : (p : String) → Owns file none p (phases p)
outside p = elim (Bool-cases (p == "a")) [
  | inl first ↦ rw first tt
  | inr other ↦
      rw other
        (elim (Bool-cases (p == "b")) [ inl second ↦ rw second tt | inr third ↦ rw third tt ])
]

-- "b" takes the lock first, then "a"
abbrev after : World ℕ → String → (Dict (Json ℕ) → Dict (Json ℕ)) → World ℕ
after w p body = record {
  store = write_unlocked (body (read_unlocked w.store)) w.store;
  holder = none;
  phase = move p finished (
      move p written
        (move p (changed body (body (read_unlocked w.store))) (move p (locked body) w.phase)));
}

interleaved :
    Run world (note "b" ∷ note "a" ∷ []) (after (after world "b" (note "b")) "a" (note "a"))
unfolding read_unlocked write_unlocked
interleaved =
    then_step none
      (then_step (some (note "a"))
        (then_step none
          (then_step none
            (then_step none
              (then_step (some (note "b"))
                (then_step none (then_step none start (acquire "b" (note "b") refl refl))
                  (load "b" (note "b") refl))
                (save "b" (note "b") _ refl))
              (release "b" refl))
            (acquire "a" (note "a") refl refl))
          (load "a" (note "a") refl))
        (save "a" (note "a") _ refl))
      (release "a" refl)

run-serial_example :
    read_unlocked (after (after world "b" (note "b")) "a" (note "a")).store
    ≡ replay (note "b" ∷ note "a" ∷ []) (read_unlocked world.store)
run-serial_example = run-serial (record { owns = outside }) interleaved

abbrev evidence : Store ℕ
evidence = record {
  content = some (
      ("records", obj (fields_of (("198.51.100.10", arr (items_of (text "ev-1" ∷ []))) ∷ [])))
      ∷ []);
  default_data = ("records", obj (fields_of [])) ∷ [];
}

extend_list_in_object-stored_example :
    let after = extend_list_in_object "records" "198.51.100.10" (text "ev-2" ∷ []) evidence in
    (as_list (get "198.51.100.10" (stored_object "records" after))
      ≡ as_list (get "198.51.100.10" (stored_object "records" evidence)) ++ text "ev-2" ∷ [])
    × ((b : String)
        → ("198.51.100.10" == b) ≡ false
        → get b (stored_object "records" after) ≡ get b (stored_object "records" evidence))
    × ((k : String)
        → ("records" == k) ≡ false
        → get k (read_unlocked after) ≡ get k (read_unlocked evidence))
extend_list_in_object-stored_example =
    extend_list_in_object-stored "records" "198.51.100.10" (text "ev-2" ∷ []) evidence
