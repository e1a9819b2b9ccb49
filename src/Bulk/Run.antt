-- ===== src/Bulk/Run.antt =====
-- `runBulk`: its variables, and what happens at each point where JavaScript may switch tasks.
-- Between two such points the code runs undisturbed, so one settled request is one step.
use Prim.Native.Nat.{min}
use ldapwarden.Prelude.{
  JsString, length, get_elem?, remove_at, ℕ, zero, suc, ◌≡◌, Option, none, some, List, [], ◌∷◌,
  ◌++◌,
}

pub record BulkFailure (A : Type 0) : Type 0 where
  pub item : A
  pub error : JsString

pub record BulkResult (A : Type 0) : Type 0 where
  pub succeeded : ℕ
  pub failed : List (BulkFailure A)

-- What a worker's promise can be rejected with: an `Error`, or a value with its `String(e)`.
pub data Thrown : Type 0 where
  error_object : JsString → Thrown
  other_value : JsString → Thrown

abbrev pub message_of : Thrown → JsString
message_of (error_object message) = message
message_of (other_value shown) = shown

pub data Settled : Type 0 where
  fulfilled : Settled
  rejected : Thrown → Settled

-- The variables, the items whose requests are in flight, and two records of what the callers see:
-- the items that the worker was called on, and the calls of `onProgress`.
pub record Run (A : Type 0) : Type 0 where
  pub index : ℕ
  pub succeeded : ℕ
  pub settled : ℕ
  pub failed : List (BulkFailure A)
  pub in_flight : List A
  pub called : List A
  pub progress : List (ℕ × ℕ)

module _ {A : Type 0} (items : List A) where
  -- `next` up to its `await`; past the last item it only advances `index`.
  unfoldable pub next : Run A → Run A
  next r = elim (get_elem? items r.index) [
    | none ↦ record r { index = suc r.index }
    | some x ↦ record r {
      index = suc r.index;
      in_flight = r.in_flight ++ x ∷ [];
      called = r.called ++ x ∷ [];
    }
  ]

  -- The calls of `next` by `Array.from`.
  unfoldable pub launch : ℕ → Run A → Run A
  launch zero r = r
  launch (suc n) r = launch n (next r)

  -- The variables as they are declared.
  abbrev pub untouched : Run A
  untouched = record {
    index = 0;
    succeeded = 0;
    settled = 0;
    failed = [];
    in_flight = [];
    called = [];
    progress = [];
  }

  unfoldable pub start : ℕ → Run A
  start concurrency = launch (min concurrency (length items)) untouched

  -- The `try` and its `catch`.
  unfoldable pub count : A → Settled → Run A → Run A
  count x fulfilled r = record r { succeeded = suc r.succeeded }
  count x (rejected e) r = record r {
    failed = r.failed ++ record { item = x; error = message_of e } ∷ [];
  }

  unfoldable pub report : Run A → Run A
  report r = record r {
    settled = suc r.settled;
    progress = r.progress ++ (suc r.settled, length items) ∷ [];
  }

  -- The request at a place among those in flight is settled, and its worker goes on.
  unfoldable pub resume : ℕ → A → Settled → Run A → Run A
  resume p x o r = next (report (count x o (record r { in_flight = remove_at p r.in_flight })))

  -- The runs with the given number of workers, by what was settled, the last first.
  pub data Trace (concurrency : ℕ) : List (A × Settled) → Run A → Type 0 where
    started : Trace concurrency [] (start concurrency)
    settles :
        {h : List (A × Settled)} {r : Run A}
        → Trace concurrency h r
        → (p : ℕ) (x : A) (o : Settled) → get_elem? r.in_flight p ≡ some x
        → Trace concurrency ((x, o) ∷ h) (resume p x o r)

-- `Promise.all` is fulfilled once no worker waits.
abbrev pub result_of : {A : Type 0} → Run A → Option (BulkResult A)
result_of r = elim r.in_flight [
  | [] ↦ some (record { succeeded = r.succeeded; failed = r.failed })
  | x ∷ xs ↦ none
]
