-- ===== src/Budget/Ledger.antt =====
-- What the budget promises: a ledger in which each call of a client is answered by what fits at that
-- moment. It knows nothing of the counter, of the words that it wraps at, or of the exchange.
use tauri_connector.Prelude.{
  ℕ, ◌+◌, ◌≤◌, ◌<◌, ◌≡◌, Bool, true, false, none, some, List, [], ◌∷◌, get_elem?, set,
}

-- A client that is refused has not been told yet.
pub data Client : Type 0 where
  free : Client
  asking : ℕ → Client
  holding : ℕ → Client
  refused : Client
  denied : Client

pub record Ledger : Type 0 where
  pub limit : ℕ
  pub clients : List Client

abbrev pub share : Client → ℕ
share (holding bytes) = bytes
share free = 0
share (asking _) = 0
share refused = 0
share denied = 0

unfoldable pub taken : List Client → ℕ
taken [] = 0
taken (c ∷ cs) = share c + taken cs

abbrev pub client_at : ℕ → Ledger → Client
client_at i l = elim (get_elem? l.clients i) [ none ↦ free | some c ↦ c ]

abbrev pub put : ℕ → Client → Ledger → Ledger
put i c l = record l { clients = set l.clients i c }

abbrev pub Fits : ℕ → Ledger → Type 0
Fits bytes l = taken l.clients + bytes ≤ l.limit

abbrev pub Overflows : ℕ → Ledger → Type 0
Overflows bytes l = l.limit < taken l.clients + bytes

-- the client is in no request and holds nothing
abbrev pub may_ask : Client → Bool
may_ask free = true
may_ask denied = true
may_ask (asking _) = false
may_ask (holding _) = false
may_ask refused = false

abbrev pub is_in_request : Client → Bool
is_in_request (asking _) = true
is_in_request refused = true
is_in_request free = false
is_in_request (holding _) = false
is_in_request denied = false

abbrev pub is_holding : Client → Bool
is_holding (holding _) = true
is_holding free = false
is_holding (asking _) = false
is_holding refused = false
is_holding denied = false

-- what client i does: it asks for bytes, goes on with its request, or gives back what it holds
pub data Call : Type 0 where
  asks : ℕ → ℕ → Call
  goes_on : ℕ → Call
  gives_back : ℕ → Call

-- What the ledger may do at each call. Bytes that fit are never refused, and bytes that do not fit
-- are refused at once; a request whose bytes fit is granted or goes on asking.
pub data Answers : Call → Ledger → Ledger → Type 0 where
  ask :
      (l : Ledger) (i bytes : ℕ)
      → may_ask (client_at i l) ≡ true
      → Fits bytes l
      → Answers (asks i bytes) l (put i (asking bytes) l)
  refuse :
      (l : Ledger) (i bytes : ℕ)
      → may_ask (client_at i l) ≡ true
      → Overflows bytes l
      → Answers (asks i bytes) l (put i refused l)
  occupied :
      (l : Ledger) (i bytes : ℕ) → may_ask (client_at i l) ≡ false → Answers (asks i bytes) l l
  grant :
      (l : Ledger) (i bytes : ℕ)
      → client_at i l ≡ asking bytes
      → Fits bytes l
      → Answers (goes_on i) l (put i (holding bytes) l)
  wait :
      (l : Ledger) (i bytes : ℕ)
      → client_at i l ≡ asking bytes
      → Fits bytes l
      → Answers (goes_on i) l l
  deny :
      (l : Ledger) (i bytes : ℕ)
      → client_at i l ≡ asking bytes
      → Overflows bytes l
      → Answers (goes_on i) l (put i refused l)
  tell : (l : Ledger) (i : ℕ) → client_at i l ≡ refused → Answers (goes_on i) l (put i denied l)
  no_request :
      (l : Ledger) (i : ℕ) → is_in_request (client_at i l) ≡ false → Answers (goes_on i) l l
  give :
      (l : Ledger) (i bytes : ℕ)
      → client_at i l ≡ holding bytes
      → Answers (gives_back i) l (put i free l)
  nothing_held :
      (l : Ledger) (i : ℕ) → is_holding (client_at i l) ≡ false → Answers (gives_back i) l l

-- the ledger after a list of calls, with one answer for each
pub data AnswersAll : List Call → Ledger → Ledger → Type 0 where
  stays : (l : Ledger) → AnswersAll [] l l
  answers :
      (c : Call) (cs : List Call) (k l m : Ledger)
      → Answers c k l
      → AnswersAll cs l m
      → AnswersAll (c ∷ cs) k m
