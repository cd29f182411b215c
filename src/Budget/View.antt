-- ===== src/Budget/View.antt =====
-- What the ledger shows of the budget, thread by thread.
use tauri_connector.Budget.Charges.{
  Thread, idle, charging, reserved, exhausted, MemoryBudget, thread_at,
}
use tauri_connector.Budget.Accounting.{IsCharged, total}
use tauri_connector.Budget.Ledger.{
  Client, free, asking, holding, refused, denied, Ledger, taken, client_at, put,
}
use tauri_connector.Prelude.{
  ℕ, zero, suc, ◌+◌, ◌-◌, ◌≡◌, refl, ap, ◌∙◌, none, some, List, [], ◌∷◌, arith, if◌then◌else◌, ltb,
  map, get_elem?, set,
}

-- A thread whose last reading leaves no room for its bytes is refused already; it is told in the
-- next round of its loop.
abbrev pub client : ℕ → Thread → Client
client limit idle = free
client limit (charging bytes seen) = if ltb (limit - seen) bytes then refused else asking bytes
client limit (reserved bytes) = holding bytes
client limit exhausted = denied

unfoldable pub ledger : MemoryBudget → Ledger
ledger b = record { limit = b.limit; clients = map (client b.limit) b.threads }

map-set :
    (limit : ℕ) (ts : List Thread) (i : ℕ) (t : Thread)
    → map (client limit) (set ts i t) ≡ set (map (client limit) ts) i (client limit t)
map-set limit [] i t = refl
map-set limit (x ∷ ts) zero t = refl
map-set limit (x ∷ ts) (suc i) t = ap (◌∷◌ (client limit x)) (map-set limit ts i t)

get_elem?-map :
    (limit : ℕ) (ts : List Thread) (i : ℕ)
    → (elim (get_elem? (map (client limit) ts) i) [ none ↦ free | some c ↦ c ])
      ≡ client limit (elim (get_elem? ts i) [ none ↦ idle | some t ↦ t ])
get_elem?-map limit [] i = refl
get_elem?-map limit (x ∷ ts) zero = refl
get_elem?-map limit (x ∷ ts) (suc i) = get_elem?-map limit ts i

taken-total : (limit : ℕ) (ts : List Thread) → taken (map (client limit) ts) ≡ total ts
unfolding taken total
taken-total limit [] = refl
taken-total limit (idle ∷ ts) = omega (arith, taken-total limit ts)
taken-total limit (exhausted ∷ ts) = omega (arith, taken-total limit ts)
taken-total limit (reserved bytes ∷ ts) = ap (◌+◌ bytes) (taken-total limit ts)
taken-total limit (charging bytes seen ∷ ts) = ground (arith, taken-total limit ts)

set_same :
    (cs : List Client) (i : ℕ) (c : Client)
    → (elim (get_elem? cs i) [ none ↦ free | some d ↦ d ]) ≡ c
    → set cs i c ≡ cs
set_same [] i c h = refl
set_same (x ∷ cs) zero c h = ap (λ d. d ∷ cs) (cc)
set_same (x ∷ cs) (suc i) c h = ap (◌∷◌ x) (set_same cs i c h)

pub client_at-ledger :
    (b : MemoryBudget) (i : ℕ) (t : Thread)
    → thread_at i b ≡ t
    → client_at i (ledger b) ≡ client b.limit t
unfolding ledger
client_at-ledger b i t e = rw (get_elem?-map, e) refl

-- a thread that moves without a change in the eyes of the ledger
pub silent :
    (b : MemoryBudget) (i : ℕ) (t u : Thread)
    → thread_at i b ≡ t
    → client b.limit t ≡ client b.limit u
    → ledger b ≡ record (ledger b) { clients = set (ledger b).clients i (client b.limit u) }
silent b i t u e same =
    let now : set (ledger b).clients i (client b.limit u) ≡ (ledger b).clients =
      set_same (ledger b).clients i (client b.limit u) (client_at-ledger b i t e ∙ same) in
    rw now refl

pub ledger-put :
    (b : MemoryBudget) (used : ℕ) (i : ℕ) (t : Thread)
    → ledger (record { used = used; limit = b.limit; threads = set b.threads i t })
      ≡ put i (client b.limit t) (ledger b)
unfolding ledger
ledger-put b used i t = rw map-set refl

pub taken-ledger : (b : MemoryBudget) → IsCharged b → taken (ledger b).clients ≡ b.used
unfolding ledger
taken-ledger b h = let counted = h.counted in rw taken-total (cc)
