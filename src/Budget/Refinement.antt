-- ===== src/Budget/Refinement.antt =====
-- The budget refines its ledger: the read or the exchange that decides a request is the moment at
-- which the ledger answers it.
use tauri_connector.Budget.Charges.{
  word, Thread, idle, charging, reserved, exhausted, MemoryBudget, Event, enter, exchange, release,
  thread_at, enter_charge, exchange_round, drop_reservation, step, run,
}
use tauri_connector.Budget.Accounting.{IsCharged, step-IsCharged}
use tauri_connector.Budget.Ledger.{
  asking, Ledger, taken, client_at, may_ask, is_holding, Fits, Overflows, Call, asks, goes_on,
  gives_back, Answers, ask, refuse, occupied, grant, wait, deny, tell, no_request, give,
  nothing_held, AnswersAll, stays, answers,
}
use tauri_connector.Prelude.{
  ℕ, ◌+◌, ◌-◌, ◌%◌, ◌≤◌, ◌≡◌, refl, Bool, true, false, not, ◌&&◌, ◌∙◌, List, [], ◌∷◌, arith, ltb,
  ◌==◌, Bool-cases, inl, inr, map, set,
}
use tauri_connector.Budget.View.{client, ledger, client_at-ledger, silent, ledger-put, taken-ledger}

-- the call of the ledger that an atomic access is a part of
abbrev pub call_of : Event → Call
call_of (enter i bytes) = asks i bytes
call_of (exchange i spurious) = goes_on i
call_of (release i) = gives_back i

no_change : (c : Call) (k l : Ledger) → k ≡ l → Answers c k k → Answers c k l
no_change c k l e h = rw (← e) h

-- what a reading of the counter says of the bytes is so
no_room :
    (b : MemoryBudget) (bytes : ℕ)
    → IsCharged b
    → ltb (b.limit - b.used) bytes ≡ true
    → Overflows bytes (ledger b)
no_room b bytes h full =
    rw (taken-ledger b h) (let small = h.within in unfold ledger in ground arith)

room_left :
    (b : MemoryBudget) (bytes : ℕ)
    → IsCharged b
    → ltb (b.limit - b.used) bytes ≡ false
    → Fits bytes (ledger b)
room_left b bytes h room =
    rw (taken-ledger b h) (let small = h.within in unfold ledger in ground arith)

-- a thread that enters `try_reserve`
enters :
    (i bytes : ℕ) (b : MemoryBudget)
    → IsCharged b
    → may_ask (client_at i (ledger b)) ≡ true
    → Answers
        (asks i bytes)
        (ledger b)
        (ledger (record b { threads = set b.threads i (charging bytes b.used) }))
enters i bytes b charged may =
    rw (ledger-put b b.used i (charging bytes b.used))
      (elim (Bool-cases (ltb (b.limit - b.used) bytes)) [
        | inl full ↦ rw full (refuse (ledger b) i bytes may (no_room b bytes charged full))
        | inr room ↦ rw room (ask (ledger b) i bytes may (room_left b bytes charged room))
      ])

may_ask-charging : (limit bytes seen : ℕ) → may_ask (client limit (charging bytes seen)) ≡ false
may_ask-charging limit bytes seen = elim (Bool-cases (ltb (limit - seen) bytes)) [
  | inl full ↦ rw full refl
  | inr room ↦ rw room refl
]

is_holding-charging :
    (limit bytes seen : ℕ) → is_holding (client limit (charging bytes seen)) ≡ false
is_holding-charging limit bytes seen = elim (Bool-cases (ltb (limit - seen) bytes)) [
  | inl full ↦ rw full refl
  | inr room ↦ rw room refl
]

enters_charge :
    (i bytes : ℕ) (t : Thread) (b : MemoryBudget)
    → IsCharged b
    → thread_at i b ≡ t
    → Answers (asks i bytes) (ledger b) (ledger (enter_charge i bytes t b))
unfolding enter_charge
enters_charge i bytes idle b h e = enters i bytes b h (rw (client_at-ledger b i idle e) refl)
enters_charge i bytes exhausted b h e =
    enters i bytes b h (rw (client_at-ledger b i exhausted e) refl)
enters_charge i bytes (charging old seen) b h e =
    occupied (ledger b) i bytes
      (rw (client_at-ledger b i (charging old seen) e) (may_ask-charging b.limit old seen))
enters_charge i bytes (reserved old) b h e =
    occupied (ledger b) i bytes (rw (client_at-ledger b i (reserved old) e) refl)

asks_of_room :
    (i bytes seen : ℕ) (b : MemoryBudget)
    → thread_at i b ≡ charging bytes seen
    → ltb (b.limit - seen) bytes ≡ false
    → client_at i (ledger b) ≡ asking bytes
asks_of_room i bytes seen b e room = client_at-ledger b i (charging bytes seen) e ∙ rw room refl

-- an exchange that failed, with the new reading of the counter
reads_again :
    (i bytes seen : ℕ) (b : MemoryBudget)
    → IsCharged b
    → thread_at i b ≡ charging bytes seen
    → ltb (b.limit - seen) bytes ≡ false
    → Answers
        (goes_on i)
        (ledger b)
        (ledger (record b { threads = set b.threads i (charging bytes b.used) }))
reads_again i bytes seen b charged e room =
    let asked = asks_of_room i bytes seen b e room in
    let next = charging bytes b.used in
    rw (ledger-put b b.used i next) (elim (Bool-cases (ltb (b.limit - b.used) bytes)) [
      | inl full ↦ rw full (deny (ledger b) i bytes asked (no_room b bytes charged full))
      | inr still ↦
          no_change (goes_on i) (ledger b) _
            (silent b i (charging bytes seen) next e (rw (room, still) refl))
            (wait (ledger b) i bytes asked (room_left b bytes charged still))
    ])

-- one round of the loop, by a thread whose bytes fitted beside its last reading
exchanges_in_room :
    (i : ℕ) (spurious : Bool) (bytes seen : ℕ) (b : MemoryBudget)
    → IsCharged b
    → thread_at i b ≡ charging bytes seen
    → ltb (b.limit - seen) bytes ≡ false
    → Answers (goes_on i) (ledger b) (ledger (exchange_round i spurious (charging bytes seen) b))
unfolding exchange_round
exchanges_in_room i spurious bytes seen b charged e room =
    elim (Bool-cases (b.used == seen && not spurious)) [
      | inl now ↦
          let fits : taken (ledger b).clients + bytes ≤ b.limit =
            rw (taken-ledger b charged) (ground arith) in
          rw (room, now)
            (rw (ledger-put b ((seen + bytes) % word) i (reserved bytes)) (
              grant (ledger b) i bytes (asks_of_room i bytes seen b e room)
                (unfold ledger in fits)))
      | inr later ↦ rw (room, later) (reads_again i bytes seen b charged e room)
    ]

exchanges :
    (i : ℕ) (spurious : Bool) (t : Thread) (b : MemoryBudget)
    → IsCharged b
    → thread_at i b ≡ t
    → Answers (goes_on i) (ledger b) (ledger (exchange_round i spurious t b))
unfolding exchange_round
exchanges i spurious idle b charged e =
    no_request (ledger b) i (rw (client_at-ledger b i idle e) refl)
exchanges i spurious (reserved bytes) b charged e =
    no_request (ledger b) i (rw (client_at-ledger b i (reserved bytes) e) refl)
exchanges i spurious exhausted b charged e =
    no_request (ledger b) i (rw (client_at-ledger b i exhausted e) refl)
exchanges i spurious (charging bytes seen) b charged e =
    elim (Bool-cases (ltb (b.limit - seen) bytes)) [
      | inl full ↦ rw full (
          rw (ledger-put b b.used i exhausted)
            (tell (ledger b) i (client_at-ledger b i (charging bytes seen) e ∙ rw full refl)))
      | inr room ↦ exchanges_in_room i spurious bytes seen b charged e room
    ]

drops :
    (i : ℕ) (t : Thread) (b : MemoryBudget)
    → thread_at i b ≡ t
    → Answers (gives_back i) (ledger b) (ledger (drop_reservation i t b))
unfolding drop_reservation
drops i idle b e = nothing_held (ledger b) i (rw (client_at-ledger b i idle e) refl)
drops i exhausted b e = nothing_held (ledger b) i (rw (client_at-ledger b i exhausted e) refl)
drops i (charging bytes seen) b e =
    nothing_held (ledger b) i
      (rw (client_at-ledger b i (charging bytes seen) e) (is_holding-charging b.limit bytes seen))
drops i (reserved bytes) b e =
    rw (ledger-put b ((b.used + word - bytes) % word) i idle)
      (give (ledger b) i bytes (client_at-ledger b i (reserved bytes) e))

step-refines :
    (e : Event) (b : MemoryBudget)
    → IsCharged b
    → Answers (call_of e) (ledger b) (ledger (step e b))
unfolding step
step-refines (enter i bytes) b h = enters_charge i bytes (thread_at i b) b h refl
step-refines (exchange i spurious) b h = exchanges i spurious (thread_at i b) b h refl
step-refines (release i) b h = drops i (thread_at i b) b refl

-- From a budget that is charged with its reservations, whatever the threads do in whatever order,
-- each atomic access is one answer of the ledger to the same client: on entry the bytes are refused
-- exactly when they do not fit beside all that is reserved then; in a round of the loop a request
-- is granted only while its bytes fit, refused exactly when they no longer do, and otherwise goes
-- on; a drop frees what its client held and nothing else changes. At the end the bytes that the
-- ledger has given out are those in use.
pub run-refines :
    (es : List Event) (b : MemoryBudget)
    → IsCharged b
    → AnswersAll (map call_of es) (ledger b) (ledger (run es b))
      × (taken (ledger (run es b)).clients ≡ (run es b).used)
unfolding run
run-refines [] b h = (stays (ledger b), taken-ledger b h)
run-refines (e ∷ es) b h =
    let (rest, counted) = run-refines es (step e b) (step-IsCharged e b h) in
    (
      answers (call_of e) (map call_of es) (ledger b) (ledger (step e b))
          (ledger (run es (step e b))) (step-refines e b h) rest,
      counted,
    )
