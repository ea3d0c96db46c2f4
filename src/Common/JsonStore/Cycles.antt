-- ===== src/Common/JsonStore/Cycles.antt =====
-- Read-modify-write cycles of several processes on one file of libs/common/json_store.py, step by
-- step: `flock`, `_read_unlocked` and the body, `_write_unlocked`, and the release of the lock. What is
-- taken from `flock` is that an exclusive lock has one holder. A body that raises releases the lock and
-- writes nothing.
use mathlib.Core.Option.{some-injective, some-ne-none}
use honeypot_fyp.Prelude.{
  String, false, List, [], ◌∷◌, ◌++◌, Option, none, some, ◌≡◌, ◌≢◌, refl, sym, ap, ◌∙◌, arith, ◌==◌,
  string_eq, eq_iff, if◌then◌else◌, Bool-cases, inl, inr,
}
use honeypot_fyp.Common.JsonStore.{Payload, Store, read_unlocked, write_unlocked}

module _ (F : Type 0) where
  abbrev pub Body : Type 0
  Body = Payload F → Payload F

  -- Where a process stands in its cycle.
  pub data Phase : Type 0 where
    waiting : (Payload F → Payload F) → Phase
    locked : (Payload F → Payload F) → Phase
    changed : (Payload F → Payload F) → Payload F → Phase
    written : Phase
    finished : Phase

  pub record World : Type 0 where
    pub store : Store F
    pub holder : Option String
    pub phase : String → Phase

nobody : (h : Option String) → h ≡ none → (q : String) → h ≢ some q
nobody h free q held = some-ne-none q (sym held ∙ free)

only : (h : Option String) (p : String) → h ≡ some p → (q : String) → (q == p) ≡ false → h ≢ some q
only h p mine q different held =
    let same : q ≡ p = some-injective q p (sym held ∙ mine) in
    ground (arith, eq_iff q p, same, different)

module _ {F : Type 0} where
  abbrev pub move : String → Phase F → (String → Phase F) → String → Phase F
  move p ph phase q = if q == p then ph else phase q

  -- One step of one process; the body that it writes, if it writes.
  pub data Step : World F → Option (Payload F → Payload F) → World F → Type 0 where
    acquire :
        {w : World F} (p : String) (body : Payload F → Payload F)
        → w.phase p ≡ waiting body
        → w.holder ≡ none
        → Step w none
            (record { store = w.store; holder = some p; phase = move p (locked body) w.phase })
    load :
        {w : World F} (p : String) (body : Payload F → Payload F)
        → w.phase p ≡ locked body
        → Step w none
            (record w { phase = move p (changed body (body (read_unlocked w.store))) w.phase })
    fail :
        {w : World F} (p : String) (body : Payload F → Payload F)
        → w.phase p ≡ locked body
        → Step w none (record w { holder = none; phase = move p finished w.phase })
    save :
        {w : World F} (p : String) (body : Payload F → Payload F) (payload : Payload F)
        → w.phase p ≡ changed body payload
        → Step w
            (some body)
            (record w { store = write_unlocked payload w.store; phase = move p written w.phase })
    release :
        {w : World F} (p : String)
        → w.phase p ≡ written
        → Step w none (record w { holder = none; phase = move p finished w.phase })

  abbrev pub append_body :
      List (Payload F → Payload F) → Option (Payload F → Payload F) → List (Payload F → Payload F)
  append_body bodies none = bodies
  append_body bodies (some body) = bodies ++ body ∷ []

  -- Any interleaving of steps, with the bodies that were written, in order.
  pub data Run (w : World F) : List (Payload F → Payload F) → World F → Type 0 where
    start : Run w [] w
    then_step :
        {bodies : List (Payload F → Payload F)} {v u : World F}
        (wrote : Option (Payload F → Payload F))
        → Run w bodies v
        → Step v wrote u
        → Run w (append_body bodies wrote) u

  -- The same bodies one after the other, on a payload of their own.
  unfoldable pub replay : List (Payload F → Payload F) → Payload F → Payload F
  replay [] payload = payload
  replay (body ∷ rest) payload = replay rest (body payload)

  -- A process that is inside its cycle holds the lock, and what it is to write is made of what is stored.
  abbrev pub Owns : Store F → Option String → String → Phase F → Type 0
  Owns s holder p (waiting body) = Unit
  Owns s holder p (locked body) = holder ≡ some p
  Owns s holder p (changed body payload) = (holder ≡ some p) × (payload ≡ body (read_unlocked s))
  Owns s holder p written = holder ≡ some p
  Owns s holder p finished = Unit

  pub record IsExclusive (w : World F) : Type 0 where
    pub owns : (p : String) → Owns w.store w.holder p (w.phase p)

  -- a process that is not the holder is outside its cycle, so it stays right when the holder moves
  bystander :
      (s t : Store F) (h k : Option String) (q : String) (ph : Phase F)
      → h ≢ some q
      → Owns s h q ph
      → Owns t k q ph
  bystander s t h k q (waiting body) other o = tt
  bystander s t h k q (locked body) other o = elim (other o) [ ]
  bystander s t h k q (changed body payload) other o = elim (other o.0) [ ]
  bystander s t h k q written other o = elim (other o) [ ]
  bystander s t h k q finished other o = tt

  moved :
      (s t : Store F) (h k : Option String) (p : String) (ph : Phase F) (phase : String → Phase F)
      → ((q : String) → (q == p) ≡ false → h ≢ some q)
      → ((q : String) → Owns s h q (phase q))
      → Owns t k p ph
      → (q : String) → Owns t k q (move p ph phase q)
  moved s t h k p ph phase other o mine q = elim (Bool-cases (q == p)) [
    | inl same ↦ rw same (rw ((eq_iff q p).0 same) mine)
    | inr different ↦ rw different (bystander s t h k q (phase q) (other q different) (o q))
  ]

  -- what a process owns at the phase that it is in
  at_phase :
      (w : World F)
      → IsExclusive w
      → (p : String) (ph : Phase F) → w.phase p ≡ ph
      → Owns w.store w.holder p ph
  at_phase w e p ph h = rw (sym h) (e.owns p)

  Step-IsExclusive :
      {w u : World F} {wrote : Option (Payload F → Payload F)}
      → Step w wrote u
      → IsExclusive w
      → IsExclusive u
  Step-IsExclusive {w} (acquire p body h free) e = record {
    owns =
        moved w.store w.store w.holder (some p) p (locked body) w.phase
          (λ q different. nobody w.holder free q) e.owns refl;
  }
  Step-IsExclusive {w} (load p body h) e =
      let mine = at_phase w e p (locked body) h in
      record {
        owns =
            moved w.store w.store w.holder w.holder p (changed body (body (read_unlocked w.store)))
              w.phase (only w.holder p mine) e.owns (mine, refl);
      }
  Step-IsExclusive {w} (fail p body h) e =
      let mine = at_phase w e p (locked body) h in
      record {
        owns =
            moved w.store w.store w.holder none p finished w.phase (only w.holder p mine) e.owns tt;
      }
  Step-IsExclusive {w} (save p body payload h) e =
      let mine = (at_phase w e p (changed body payload) h).0 in
      record {
        owns =
            moved w.store (write_unlocked payload w.store) w.holder w.holder p written w.phase
              (only w.holder p mine) e.owns mine;
      }
  Step-IsExclusive {w} (release p h) e =
      let mine = at_phase w e p written h in
      record {
        owns =
            moved w.store w.store w.holder none p finished w.phase (only w.holder p mine) e.owns tt;
      }

  run-IsExclusive :
      {w u : World F} {bodies : List (Payload F → Payload F)}
      → IsExclusive w
      → Run w bodies u
      → IsExclusive u
  run-IsExclusive e start = e
  run-IsExclusive e (then_step wrote run step) = Step-IsExclusive step (run-IsExclusive e run)

  replay-append :
      (bodies : List (Payload F → Payload F)) (body : Payload F → Payload F) (payload : Payload F)
      → replay (bodies ++ body ∷ []) payload ≡ body (replay bodies payload)
  unfolding replay
  replay-append [] body payload = refl
  replay-append (b ∷ rest) body payload = replay-append rest body (b payload)

  -- a step that writes applies its body to what is stored; any other leaves the file as it is
  Step-stored :
      {w u : World F} {wrote : Option (Payload F → Payload F)}
      (bodies : List (Payload F → Payload F)) (payload : Payload F)
      → Step w wrote u
      → IsExclusive w
      → read_unlocked w.store ≡ replay bodies payload
      → read_unlocked u.store ≡ replay (append_body bodies wrote) payload
  unfolding write_unlocked read_unlocked
  Step-stored bodies payload (acquire p body h free) e k = k
  Step-stored bodies payload (load p body h) e k = k
  Step-stored bodies payload (fail p body h) e k = k
  Step-stored {w} bodies payload (save p body changed_payload h) e k =
      (at_phase w e p (changed body changed_payload) h).1
      ∙ ap body k
      ∙ sym (replay-append bodies body payload)
  Step-stored bodies payload (release p h) e k = k

  -- From a state in which every process inside its cycle holds the lock and what it is to write is
  -- made of what is stored, any interleaving of steps of read-modify-write cycles leaves the file
  -- as the bodies that were written leave it one after the other, in the order of the writes: no
  -- update is lost.
  pub run-serial :
      {w u : World F} {bodies : List (Payload F → Payload F)}
      → IsExclusive w
      → Run w bodies u
      → read_unlocked u.store ≡ replay bodies (read_unlocked w.store)
  unfolding replay
  run-serial e start = refl
  run-serial {w} e (then_step {bodies} wrote run step) =
      Step-stored bodies (read_unlocked w.store) step (run-IsExclusive e run) (run-serial e run)
