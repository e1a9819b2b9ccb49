-- ===== src/Outcome.antt =====
-- web/src/lib/outcome.ts: what an operation left for the operator to do, one at a time.
mod Tests
use mathlib.Core.List.{append-nil, append_assoc}
use ldapwarden.Prelude.{
  ◌==◌, if◌then◌else◌, Bool-cases, JsString, text, is_empty, length, get_elem?, drop, filter, any,
  All, All-append, ℕ, suc, ◌+◌, ◌<◌, ◌≡◌, sym, ap, ◌∙◌, inl, inr, not, Option, List, [], ◌∷◌, ◌++◌,
  map, arith,
}

pub data Tone : Type 0 where
  warning error : Tone

pub record Outcome : Type 0 where
  pub title : JsString
  pub description : Option JsString
  pub items : List JsString
  pub tone : Option Tone

-- The module's variables: the queue, the listeners by a number each (the set keeps the order in
-- which they were added), and the calls of listeners so far.
pub record Store : Type 0 where
  pub queue : List Outcome
  pub listeners : List ℕ
  pub calls : List ℕ

unfoldable pub emit : Store → Store
emit s = record s { calls = s.calls ++ s.listeners }

unfoldable pub show_outcome : Outcome → Store → Store
unfolding emit
show_outcome o s = if length o.items == 0 then s else emit (record s { queue = s.queue ++ o ∷ [] })

unfoldable pub dismiss_outcome : Store → Store
unfolding emit
dismiss_outcome s = emit (record s { queue = drop 1 s.queue })

unfoldable pub subscribe : ℕ → Store → Store
subscribe l s =
    if any (λ k. k == l) s.listeners then s else record s { listeners = s.listeners ++ l ∷ [] }

-- What `subscribe` returns.
unfoldable pub unsubscribe : ℕ → Store → Store
unsubscribe l s = record s { listeners = filter (λ k. not (k == l)) s.listeners }

unfoldable pub current_outcome : Store → Option Outcome
current_outcome s = get_elem? s.queue 0

-- `parts.join('\n')`.
abbrev pub join_lines : List JsString → JsString
join_lines [] = []
join_lines (s ∷ []) = s
join_lines (s ∷ t ∷ rest) = s ++ (10 ∷ join_lines (t ∷ rest))

unfoldable pub outcome_text : Outcome → JsString
outcome_text o = join_lines (o.title ∷ [] ∷ map (λ item. text "- " ++ item) o.items)

-- The operations that other modules call.
pub data Call : Type 0 where
  shows : Outcome → Call
  dismisses : Call
  subscribes unsubscribes : ℕ → Call

unfoldable pub step : Store → Call → Store
unfolding show_outcome dismiss_outcome subscribe unsubscribe
step s (shows o) = show_outcome o s
step s dismisses = dismiss_outcome s
step s (subscribes l) = subscribe l s
step s (unsubscribes l) = unsubscribe l s

unfoldable pub run : Store → List Call → Store
run s [] = s
run s (c ∷ cs) = run (step s c) cs

-- The outcomes with something to do, in the order in which they were shown, and the number of
-- dismissals that found one on screen.
abbrev pub shown : List Call → List Outcome
shown [] = []
shown (shows o ∷ cs) = if length o.items == 0 then shown cs else o ∷ shown cs
shown (_ ∷ cs) = shown cs

abbrev pub dismissals : Store → List Call → ℕ
dismissals s [] = 0
dismissals s (dismisses ∷ cs) =
    (if is_empty s.queue then 0 else 1) + dismissals (step s dismisses) cs
dismissals s (c ∷ cs) = dismissals (step s c) cs

drop_step :
    (q : List Outcome) (rest : List Outcome) (n : ℕ)
    → drop n (drop 1 q ++ rest) ≡ drop ((if is_empty q then 0 else 1) + n) (q ++ rest)
drop_step [] rest n = let e : n ≡ 0 + n = omega arith in ap (λ k. drop k rest) e
drop_step (x ∷ q) rest n =
    let e : suc n ≡ 1 + n = omega arith in ap (λ k. drop k (x ∷ (q ++ rest))) e

show_queue :
    (o : Outcome) (s : Store) (cs : List Call)
    → (show_outcome o s).queue ++ shown cs ≡ s.queue ++ shown (shows o ∷ cs)
unfolding show_outcome
show_queue o s cs = elim (Bool-cases (length o.items == 0)) [
  | inl e ↦ rw e
  | inr e ↦ rw e (append_assoc s.queue (o ∷ []) (shown cs))
]

subscribe_queue : (l : ℕ) (s : Store) → (subscribe l s).queue ≡ s.queue
unfolding subscribe
subscribe_queue l s = ground arith

-- Nothing that is shown is lost or overtaken: the queue is what was in it and what has been shown
-- with something to do since, in that order, less one from the front for each dismissal that found
-- an outcome on screen.
pub queue-run :
    (s : Store) (cs : List Call) → (run s cs).queue ≡ drop (dismissals s cs) (s.queue ++ shown cs)
unfolding run step
queue-run s [] = sym (append-nil s.queue)
queue-run s (shows o ∷ cs) =
    queue-run (show_outcome o s) cs
    ∙ ap (drop (dismissals (show_outcome o s) cs)) (show_queue o s cs)
queue-run s (dismisses ∷ cs) =
    queue-run (dismiss_outcome s) cs
    ∙ drop_step s.queue (shown cs) (dismissals (dismiss_outcome s) cs)
queue-run s (subscribes l ∷ cs) =
    queue-run (subscribe l s) cs
    ∙ ap (λ q. drop (dismissals (subscribe l s) cs) (q ++ shown cs)) (subscribe_queue l s)
queue-run s (unsubscribes l ∷ cs) = queue-run (unsubscribe l s) cs

-- An outcome in the queue always has something to do.
abbrev pub HasItems : Outcome → Type 0
HasItems o = 0 < length o.items

HasItems-drop : (q : List Outcome) → All HasItems q → All HasItems (drop 1 q)
HasItems-drop [] h = tt
HasItems-drop (o ∷ q) (_, h) = h

step-HasItems : (s : Store) (c : Call) → All HasItems s.queue → All HasItems (step s c).queue
unfolding step
step-HasItems s (shows o) h = elim (Bool-cases (length o.items == 0)) [
  | inl e ↦ rw (e, show_outcome) h
  | inr e ↦ rw (e, show_outcome) (All-append HasItems s.queue (o ∷ []) h (ground arith, tt))
]
step-HasItems s dismisses h = HasItems-drop s.queue h
step-HasItems s (subscribes l) h = rw (subscribe_queue l s) h
step-HasItems s (unsubscribes l) h = h

-- So whatever is on screen has something for the operator to do, after any calls.
pub run-HasItems :
    (s : Store) (cs : List Call) → All HasItems s.queue → All HasItems (run s cs).queue
unfolding run
run-HasItems s [] h = h
run-HasItems s (c ∷ cs) h = run-HasItems (step s c) cs (step-HasItems s c h)
