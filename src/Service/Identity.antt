-- ===== src/Service/Identity.antt =====
-- A run key stays bound to its run.
use tauri_connector.Map
use tauri_connector.Map.{get-insert, get-modify}
use tauri_connector.Outcome.Facts.{WorkflowError}
use tauri_connector.Workflow.Spec.{WorkflowSpec}
use tauri_connector.Service.Drive.{record_run}
use tauri_connector.Service.Registry.{
  Printing, Prints, prints, Entry, Registry, Creation, Created, refused, answered, live, register,
  admit, existing, bind, create_with, create, Change, creates, changes, apply, apply_all, go_on,
  run_key_conflict,
}
use tauri_connector.Prelude.{
  String, ◌≡◌, refl, true, false, not, Option, none, some, List, [], ◌∷◌, length, leb, Result, ok,
  err, str_eq, eq_iff, eq_refl, if◌then◌else◌, arith, Bool-cases, inl, inr, if_holds,
}

-- The key is bound to a run that was created from a spec with this hash.
pub record IsBound (key id hash : String) (r : Registry) : Type 0 where
  pub bound : Map.get key r.by_key ≡ some id
  pub entry : (e : Entry) × (Map.get id r.runs ≡ some e) × (e.prints.spec_hash ≡ hash)

-- a new id is the id of no run yet
abbrev pub IsFresh : Change → Registry → Type 0
IsFresh (creates c principal spec) r = Map.get c.run_id r.runs ≡ none
IsFresh (changes id f) r = Unit

unfoldable pub AreFresh : Printing → String → List Change → Registry → Type 0
AreFresh p app [] r = Unit
AreFresh p app (c ∷ cs) r = IsFresh c r × AreFresh p app cs (apply p app c r)

differ {ℓ} :
    {A : Type ℓ} (get_it : String → Option A) (j k : String) (a : A)
    → get_it j ≡ none
    → get_it k ≡ some a
    → str_eq j k ≡ false
differ get_it j k a h g = elim (Bool-cases (str_eq j k)) [
  | inr other ↦ other
  | inl same ↦ let e : j ≡ k = ground (arith, eq_iff j k) in absurd (cc)
]

register-IsBound :
    (app : String) (c : Creation) (ps : Prints) (spec : WorkflowSpec) (r : Registry)
    (key id hash : String)
    → Map.get c.run_id r.runs ≡ none
    → Map.get ps.run_key_hash r.by_key ≡ none
    → IsBound key id hash r
    → IsBound key id hash (register app c ps spec r)
unfolding register
register-IsBound app c ps spec r key id hash fresh unbound h =
    let (e, there, same) = h.entry in
    let other_key = differ (λ k. Map.get k r.by_key) ps.run_key_hash key id unbound h.bound in
    let other_id = differ (λ k. Map.get k r.runs) c.run_id id e fresh there in
    record {
      bound = rw (get-insert, other_key) h.bound;
      entry = (e, rw (get-insert, other_id) there, same);
    }

register-binds :
    (app : String) (c : Creation) (ps : Prints) (spec : WorkflowSpec) (r : Registry)
    → IsBound ps.run_key_hash c.run_id ps.spec_hash (register app c ps spec r)
unfolding register
register-binds app c ps spec r = record {
  bound = rw (get-insert, eq_refl) refl;
  entry = (
    record { run = record_run app c.ack spec; prints = ps },
    rw (get-insert, eq_refl) refl,
    refl,
  );
}

admit-Keeps :
    (app : String) (c : Creation) (ps : Prints) (spec : WorkflowSpec) (r : Registry)
    (key id hash : String)
    → Map.get c.run_id r.runs ≡ none
    → Map.get ps.run_key_hash r.by_key ≡ none
    → IsBound key id hash r
    → IsBound key id hash (admit app c ps spec r).1
unfolding admit
admit-Keeps app c ps spec r key id hash fresh unbound h =
    let holds = λ (s : Created × Registry). IsBound key id hash s.1 in
    if_holds holds (leb 1000 (length r.runs)) _ _ h (
      if_holds holds (leb 20 (live r.runs)) _ _ h (
        if_holds holds (not c.reserved) _ _ h
          (register-IsBound app c ps spec r key id hash fresh unbound h)))

bind-Keeps :
    (app : String) (c : Creation) (ps : Prints) (spec : WorkflowSpec) (r : Registry)
    (o : Option String) (key id hash : String)
    → Map.get ps.run_key_hash r.by_key ≡ o
    → Map.get c.run_id r.runs ≡ none
    → IsBound key id hash r
    → IsBound key id hash (bind app c ps spec r o).1
unfolding bind
bind-Keeps app c ps spec r none key id hash e fresh h =
    admit-Keeps app c ps spec r key id hash fresh e h
bind-Keeps app c ps spec r (some j) key id hash e fresh h = h

create_with-Keeps :
    (app : String) (c : Creation) (ps : Result WorkflowError Prints) (spec : WorkflowSpec)
    (r : Registry) (key id hash : String)
    → Map.get c.run_id r.runs ≡ none
    → IsBound key id hash r
    → IsBound key id hash (create_with app c ps spec r).1
unfolding create_with
create_with-Keeps app c (err e) spec r key id hash fresh h = h
create_with-Keeps app c (ok ps) spec r key id hash fresh h =
    bind-Keeps app c ps spec r (Map.get ps.run_key_hash r.by_key) key id hash refl fresh h

apply-Keeps :
    (p : Printing) (app : String) (change : Change) (r : Registry) (key id hash : String)
    → IsFresh change r
    → IsBound key id hash r
    → IsBound key id hash (apply p app change r)
unfolding apply create
apply-Keeps p app (creates c principal spec) r key id hash fresh h =
    if_holds (λ (s : Created × Registry). IsBound key id hash s.1) c.journal _ _
      (create_with-Keeps app c (prints p principal spec) spec r key id hash fresh h) h
apply-Keeps p app (changes j f) r key id hash fresh h =
    let (e, there, same) = h.entry in
    elim (Bool-cases (str_eq j id)) [
      | inl it ↦ record {
        bound = h.bound;
        entry = (go_on f e, rw (get-modify, it, there) refl, same);
      }
      | inr other ↦ record { bound = h.bound; entry = (e, rw (get-modify, other) there, same) }
    ]

apply_all-Keeps :
    (p : Printing) (app : String) (cs : List Change) (r : Registry) (key id hash : String)
    → AreFresh p app cs r
    → IsBound key id hash r
    → IsBound key id hash (apply_all p app cs r)
unfolding apply_all AreFresh
apply_all-Keeps p app [] r key id hash fresh h = h
apply_all-Keeps p app (c ∷ cs) r key id hash fresh h =
    apply_all-Keeps p app cs (apply p app c r) key id hash fresh.1
      (apply-Keeps p app c r key id hash fresh.0 h)

-- What an answer says of the registry that is left.
abbrev Answers : Prints → Created × Registry → Type 0
Answers ps s = (id : String) → s.0 ≡ answered id → IsBound ps.run_key_hash id ps.spec_hash s.1

admit-Answers :
    (app : String) (c : Creation) (ps : Prints) (spec : WorkflowSpec) (r : Registry)
    → Answers ps (admit app c ps spec r)
unfolding admit
admit-Answers app c ps spec r =
    if_holds (Answers ps) (leb 1000 (length r.runs)) _ _ (λ id e. absurd (cc))
      (if_holds (Answers ps) (leb 20 (live r.runs)) _ _ (λ id e. absurd (cc))
        (if_holds (Answers ps) (not c.reserved) _ _ (λ id e. absurd (cc))
          (λ id e. let same : c.run_id ≡ id = cc in rw (← same) (register-binds app c ps spec r))))

existing-Answers :
    (ps : Prints) (j : String) (o : Option Entry) (r : Registry)
    → Map.get ps.run_key_hash r.by_key ≡ some j
    → Map.get j r.runs ≡ o
    → Answers ps (existing ps j o, r)
unfolding existing
existing-Answers ps j none r bound there id e = absurd (cc)
existing-Answers ps j (some entry) r bound there id e =
    elim (Bool-cases (str_eq entry.prints.spec_hash ps.spec_hash)) [
      | inr other ↦ let impossible = rw other at e in absurd (cc)
      | inl same ↦
          let it = rw same at e in
          let is_it : j ≡ id = cc in
          rw (← is_it) (record {
            bound = bound;
            entry = (entry, there, ground (arith, eq_iff entry.prints.spec_hash ps.spec_hash));
          })
    ]

bind-Answers :
    (app : String) (c : Creation) (ps : Prints) (spec : WorkflowSpec) (r : Registry)
    (o : Option String)
    → Map.get ps.run_key_hash r.by_key ≡ o
    → Answers ps (bind app c ps spec r o)
unfolding bind
bind-Answers app c ps spec r none e = admit-Answers app c ps spec r
bind-Answers app c ps spec r (some j) e = existing-Answers ps j (Map.get j r.runs) r e refl

create-Answers :
    (p : Printing) (app : String) (c : Creation) (principal : String) (spec : WorkflowSpec)
    (r : Registry) (ps : Prints)
    → prints p principal spec ≡ ok ps
    → Answers ps (create p app c principal spec r)
unfolding create create_with
create-Answers p app c principal spec r ps printed =
    if_holds (Answers ps) c.journal _ _
      (rw printed (bind-Answers app c ps spec r (Map.get ps.run_key_hash r.by_key) refl))
      (λ id e. absurd (cc))

create-bound :
    (p : Printing) (app : String) (c : Creation) (principal : String) (spec : WorkflowSpec)
    (r : Registry) (ps : Prints) (key id hash : String)
    → prints p principal spec ≡ ok ps
    → ps.run_key_hash ≡ key
    → c.journal ≡ true
    → IsBound key id hash r
    → create p app c principal spec r
      ≡ (if str_eq hash ps.spec_hash then answered id else refused run_key_conflict, r)
unfolding create create_with bind existing
create-bound p app c principal spec r ps key id hash printed same_key ready h =
    let (e, there, same) = h.entry in rw (ready, printed, same_key, h.bound, there, same) refl

-- Once a request has been answered with a run, every later request under the same run key is
-- answered with this run where its specification has the same fingerprint, and is refused as a
-- conflict where it has not, and either way starts nothing and changes nothing.
pub create-again :
    (p : Printing) (app : String) (c again : Creation) (principal claimant : String)
    (spec other : WorkflowSpec) (r : Registry) (ps qs : Prints) (id : String) (cs : List Change)
    → prints p principal spec ≡ ok ps
    → (create p app c principal spec r).0 ≡ answered id
    → AreFresh p app cs (create p app c principal spec r).1
    → prints p claimant other ≡ ok qs
    → qs.run_key_hash ≡ ps.run_key_hash
    → again.journal ≡ true
    → (let later = apply_all p app cs (create p app c principal spec r).1 in
        create p app again claimant other later ≡ (
          if str_eq ps.spec_hash qs.spec_hash then answered id else refused run_key_conflict,
          later,
        ))
create-again p app c again principal claimant spec other r ps qs id cs printed granted fresh
      printed_other same_key ready =
    let created = create p app c principal spec r in
    let bound = create-Answers p app c principal spec r ps printed id granted in
    create-bound p app again claimant other (apply_all p app cs created.1) qs ps.run_key_hash id
      ps.spec_hash printed_other same_key ready
      (apply_all-Keeps p app cs created.1 ps.run_key_hash id ps.spec_hash fresh bound)
