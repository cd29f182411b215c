-- ===== src/Service/RegistryTests.antt =====
-- A run key that is asked for again while its run goes on, and after it has ended.
use tauri_connector.Json
use tauri_connector.Json.{Value, null, bool, str, obj, end, field}
use tauri_connector.Workflow.Spec.{WorkflowSpec}
use tauri_connector.Service.State.{stop}
use tauri_connector.Service.Calls.{answered}
use tauri_connector.Json.Reads.{at}
use tauri_connector.Json.Edit.{remove_field}
use tauri_connector.Map
use tauri_connector.Service.Registry.{
  Printing, text_of, Prints, prints, check_tools, canonical_value, fingerprint, normalize, Registry,
  no_runs, Creation, Created, refused, answered, create, create_with, bind, admit, register, live,
  Change, creates, changes, apply, apply_all, run_key_conflict,
}
use tauri_connector.Service.Identity.{AreFresh, create-again}
use tauri_connector.Service.Capacity.{create-capacity}
use tauri_connector.Service.Tests.{written, two_clicks}
use tauri_connector.Prelude.{
  ◌≡◌, refl, ◌≤◌, ◌⊎◌, length, String, true, none, some, List, [], ◌∷◌, ok,
}

-- the first of the texts that the program takes fingerprints of
abbrev text_in_value : Value → String
text_in_value v = elim (Json.get v "logicalKey") [
  | some k ↦ text_of k
  | none ↦ elim (Json.get v "principal") [ some k ↦ text_of k | none ↦ text_of (at v "windowId") ]
]

abbrev plain_printing : Printing
plain_printing = record {
  encode_step = λ step. some (obj (field "op" (str "click") end));
  encode = λ spec.
      some (obj (field "runKey" (str spec.run_key) (field "windowId" (str spec.window_id) end)));
  hmac = λ v. some (text_in_value v);
}

abbrev creation : String → Creation
creation id = record { journal = true; reserved = true; run_id = id; ack = written }

abbrev elsewhere : WorkflowSpec
elsewhere = record two_clicks { window_id = "other" }

abbrev first_request : Created × Registry
first_request = create plain_printing "app" (creation "a") "me" two_clicks no_runs

-- in between the run ends, and another is created
abbrev meanwhile : List Change
meanwhile =
    changes "a" (λ m. stop "completed" none none written m)
    ∷ creates (creation "b") "me" (record two_clicks { run_key = "run-3" })
    ∷ []

abbrev later : Registry
later = apply_all plain_printing "app" meanwhile first_request.1

abbrev printed : WorkflowSpec → Prints
printed spec = record {
  spec_hash = spec.window_id;
  principal_hash = "me";
  run_key_hash = spec.run_key;
}

first_prints : prints plain_printing "me" two_clicks ≡ ok (printed two_clicks)
unfolding prints check_tools canonical_value fingerprint normalize Json.get Json.as_str remove_field
first_prints = refl

other_prints : prints plain_printing "me" elsewhere ≡ ok (printed elsewhere)
unfolding prints check_tools canonical_value fingerprint normalize Json.get Json.as_str remove_field
other_prints = refl

first_answer : first_request.0 ≡ answered "a"
unfolding create create_with prints check_tools canonical_value fingerprint normalize Json.get
    Json.as_str remove_field bind admit live Map.get
first_answer = refl

later_AreFresh : AreFresh plain_printing "app" meanwhile first_request.1
unfolding AreFresh apply create create_with prints check_tools canonical_value fingerprint normalize
    Json.get Json.as_str remove_field bind admit register live Map.get Map.insert Map.place
    Map.remove Map.modify
later_AreFresh = (tt, (refl, tt))

abbrev later_all : Registry
later_all =
    apply_all plain_printing "app" (creates (creation "a") "me" two_clicks ∷ meanwhile) no_runs

create-again_example :
    create plain_printing "app" (creation "c") "me" elsewhere later
    ≡ (refused run_key_conflict, later)
create-again_example =
    create-again plain_printing "app" (creation "a") (creation "c") "me" "me" two_clicks elsewhere
      no_runs (printed two_clicks) (printed elsewhere) "a" meanwhile first_prints first_answer
      later_AreFresh other_prints refl refl

create-capacity_example :
    (length (create plain_printing "app" (creation "c") "me" elsewhere later_all).1.runs ≤ 1000)
    × ((live (create plain_printing "app" (creation "c") "me" elsewhere later_all).1.runs
          ≤ live later_all.runs)
        ⊎ (live (create plain_printing "app" (creation "c") "me" elsewhere later_all).1.runs ≤ 20))
create-capacity_example =
    create-capacity plain_printing "app" (creates (creation "a") "me" two_clicks ∷ meanwhile)
      (creation "c") "me" elsewhere
