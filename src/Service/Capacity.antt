-- ===== src/Service/Capacity.antt =====
-- How many runs there are, and how many of them are live.
use tauri_connector.Map
use tauri_connector.Map.{Map}
use tauri_connector.Outcome.Facts.{WorkflowError}
use tauri_connector.Workflow.Spec.{WorkflowSpec}
use tauri_connector.Service.Drive.{record_run}
use tauri_connector.Service.Registry.{
  Printing, Prints, prints, Entry, Registry, no_runs, Creation, Created, live, register, admit,
  bind, create_with, create, Change, creates, changes, apply, apply_all, go_on,
}
use tauri_connector.Prelude.{
  ◌+◌, ◌≤◌, String, ◌≡◌, ◌⊎◌, refl, not, Option, none, some, List, [], ◌∷◌, length, leb, Result, ok,
  err, arith, inl, inr, if_holds, if_cases,
}

module _ {ℓ} {V : Type ℓ} where
  length-remove : (k : String) (m : Map V) → length (Map.remove k m) ≤ length m
  unfolding Map.remove
  length-remove k [] = omega arith
  length-remove k ((j, v) ∷ m) = ground (arith, length-remove k m)

  length-place : (k : String) (v : V) (m : Map V) → length (Map.place k v m) ≡ length m + 1
  unfolding Map.place
  length-place k v [] = refl
  length-place k v ((j, w) ∷ m) = ground (arith, length-place k v m)

  length-insert : (k : String) (v : V) (m : Map V) → length (Map.insert k v m) ≤ length m + 1
  unfolding Map.insert
  length-insert k v m = omega (arith, length-place k v (Map.remove k m), length-remove k m)

  length-modify : (k : String) (f : V → V) (m : Map V) → length (Map.modify k f m) ≡ length m
  unfolding Map.modify
  length-modify k f [] = refl
  length-modify k f ((j, v) ∷ m) = ground (arith, length-modify k f m)

live-remove : (k : String) (m : Map Entry) → live (Map.remove k m) ≤ live m
unfolding Map.remove live
live-remove k [] = omega arith
live-remove k ((j, e) ∷ m) = ground (arith, live-remove k m)

live-place : (k : String) (e : Entry) (m : Map Entry) → live (Map.place k e m) ≤ live m + 1
unfolding Map.place live
live-place k e [] = ground arith
live-place k e ((j, d) ∷ m) = ground (arith, live-place k e m)

live-insert : (k : String) (e : Entry) (m : Map Entry) → live (Map.insert k e m) ≤ live m + 1
unfolding Map.insert
live-insert k e m = omega (arith, live-place k e (Map.remove k m), live-remove k m)

-- the capacity after a request
abbrev Fits : Registry → Created × Registry → Type 0
Fits r s =
    (length r.runs ≤ 1000 → length s.1.runs ≤ 1000)
    × ((live s.1.runs ≤ live r.runs) ⊎ (live s.1.runs ≤ 20))

admit-Fits :
    (app : String) (c : Creation) (ps : Prints) (spec : WorkflowSpec) (r : Registry)
    → Fits r (admit app c ps spec r)
unfolding admit register
admit-Fits app c ps spec r =
    let e : Entry = record { run = record_run app c.ack spec; prints = ps } in
    let more = length-insert c.run_id e r.runs in
    let lives = live-insert c.run_id e r.runs in
    if_cases (Fits r) (leb 1000 (length r.runs)) _ _ (λ _. (λ h. h, inl (omega arith)))
      (λ room.
        if_cases (Fits r) (leb 20 (live r.runs)) _ _ (λ _. (λ h. h, inl (omega arith)))
          (λ idle.
            if_holds (Fits r) (not c.reserved) _ _ (λ h. h, inl (omega arith))
              (λ _. ground arith, inr (ground arith))))

bind-Fits :
    (app : String) (c : Creation) (ps : Prints) (spec : WorkflowSpec) (r : Registry)
    (o : Option String)
    → Fits r (bind app c ps spec r o)
unfolding bind
bind-Fits app c ps spec r none = admit-Fits app c ps spec r
bind-Fits app c ps spec r (some j) = (λ h. h, inl (omega arith))

create_with-Fits :
    (app : String) (c : Creation) (ps : Result WorkflowError Prints) (spec : WorkflowSpec)
    (r : Registry)
    → Fits r (create_with app c ps spec r)
unfolding create_with
create_with-Fits app c (err e) spec r = (λ h. h, inl (omega arith))
create_with-Fits app c (ok ps) spec r = bind-Fits app c ps spec r (Map.get ps.run_key_hash r.by_key)

create-Fits :
    (p : Printing) (app : String) (c : Creation) (principal : String) (spec : WorkflowSpec)
    (r : Registry)
    → Fits r (create p app c principal spec r)
unfolding create
create-Fits p app c principal spec r =
    if_holds (Fits r) c.journal _ _ (create_with-Fits app c (prints p principal spec) spec r)
      (λ h. h, inl (omega arith))

apply-length :
    (p : Printing) (app : String) (change : Change) (r : Registry)
    → length r.runs ≤ 1000
    → length (apply p app change r).runs ≤ 1000
unfolding apply
apply-length p app (creates c principal spec) r h =
    let fits = create-Fits p app c principal spec r in fits.0 h
apply-length p app (changes id f) r h = omega (arith, length-modify id (go_on f) r.runs)

apply_all-length :
    (p : Printing) (app : String) (cs : List Change) (r : Registry)
    → length r.runs ≤ 1000
    → length (apply_all p app cs r).runs ≤ 1000
unfolding apply_all
apply_all-length p app [] r h = h
apply_all-length p app (c ∷ cs) r h =
    apply_all-length p app cs (apply p app c r) (apply-length p app c r h)

-- Whatever is requested and however the runs go on, at most 1000 are kept, and a request leaves no
-- more runs executing than there were, or at most 20.
pub create-capacity :
    (p : Printing) (app : String) (cs : List Change) (c : Creation) (principal : String)
    (spec : WorkflowSpec)
    → (let before = apply_all p app cs no_runs in
        let after = (create p app c principal spec before).1 in
        (length after.runs ≤ 1000)
        × ((live after.runs ≤ live before.runs) ⊎ (live after.runs ≤ 20)))
create-capacity p app cs c principal spec =
    let before = apply_all p app cs no_runs in
    let fits = create-Fits p app c principal spec before in
    (fits.0 (apply_all-length p app cs no_runs (omega arith)), fits.1)
