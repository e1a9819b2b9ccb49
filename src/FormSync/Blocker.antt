-- ===== src/FormSync/Blocker.antt =====
-- Leaving a form with unsaved changes: useUnsavedChangesBlocker of web/src/lib/form-sync.ts and
-- web/src/components/unsaved-changes-guard.tsx. The router holds a navigation for which
-- shouldBlockFn says so, and lets it go by `proceed` or `reset`. `json` is JSON.stringify of the
-- parameters of a route.
use ldapwarden.Prelude.{
  if◌then◌else◌, Bool-cases, JsString, text, ◌===◌, ◌≡◌, refl, inl, inr, Bool, true, false, not,
  ◌&&◌, Option, none, some, List, [], ◌∷◌,
}

module _ {Params : Type 0} (json : Params → JsString) where
  pub record Location : Type 0 where
    pub route_id : JsString
    pub params : Params

  unfoldable pub is_same_page : Location → Location → Bool
  is_same_page current next =
      current.route_id === next.route_id && json current.params === json next.params

  -- Where the app is, the navigation that is held, and `lastBlockWasSamePage`.
  pub record Blocker : Type 0 where
    pub current : Location
    pub held : Option Location
    pub last_same_page : Bool

  pub data Move : Type 0 where
    navigates : Bool → Location → Move
    proceeds resets : Move

  -- `blocker.proceed?.()`.
  unfoldable pub proceed : Option Location → Blocker → Blocker
  proceed none s = s
  proceed (some next) s = record s { current = next; held = none }

  -- A navigation while the form is clean or edited, and the two buttons of the dialog.
  unfoldable pub blocker_step : Blocker → Move → Blocker
  unfolding is_same_page proceed
  blocker_step s (navigates when next) =
      if when
      then record s { held = some next; last_same_page = is_same_page s.current next }
      else record s { current = next; held = none }
  blocker_step s proceeds = proceed s.held s
  blocker_step s resets = record s { held = none }

  unfoldable pub blocker_run : Blocker → List Move → Blocker
  unfolding blocker_step
  blocker_run s [] = s
  blocker_run s (m ∷ moves) = blocker_run (blocker_step s m) moves

  unfoldable pub leaving_page : Blocker → Bool
  leaving_page s = not s.last_same_page

  -- The title of the dialog, while one is open.
  unfoldable pub guard_title : Blocker → Option JsString
  unfolding leaving_page
  guard_title s = elim s.held [
    | none ↦ none
    | some next ↦
        some (if leaving_page s then text "Leave without saving?" else text "Discard your changes?")
  ]

  -- What the dialog says of the navigation that it holds.
  abbrev IsTold : Blocker → Type 0
  IsTold s = elim s.held [
    | none ↦ Unit {0}
    | some next ↦ s.last_same_page ≡ is_same_page s.current next
  ]

  proceed-IsTold : (o : Option Location) (s : Blocker) → IsTold s → IsTold (proceed o s)
  unfolding proceed
  proceed-IsTold none s t = t
  proceed-IsTold (some next) s t = tt

  blocker_step-IsTold : (s : Blocker) (m : Move) → IsTold s → IsTold (blocker_step s m)
  unfolding blocker_step
  blocker_step-IsTold s (navigates true next) t = refl
  blocker_step-IsTold s (navigates false next) t = tt
  blocker_step-IsTold s resets t = tt
  blocker_step-IsTold s proceeds t = proceed-IsTold s.held s t

  blocker_run-IsTold : (s : Blocker) (moves : List Move) → IsTold s → IsTold (blocker_run s moves)
  unfolding blocker_run
  blocker_run-IsTold s [] t = t
  blocker_run-IsTold s (m ∷ moves) t =
      blocker_run-IsTold (blocker_step s m) moves (blocker_step-IsTold s m t)

  -- Whatever moves an operator has made, the dialog that holds a navigation speaks of leaving
  -- exactly if the navigation is to another route or to other parameters.
  pub guard_title-blocker_run :
      (s : Blocker) (moves : List Move) (next : Location)
      → s.held ≡ none
      → (blocker_run s moves).held ≡ some next
      → guard_title (blocker_run s moves)
        ≡ some (
            if is_same_page (blocker_run s moves).current next
            then text "Discard your changes?"
            else text "Leave without saving?")
  unfolding guard_title
  guard_title-blocker_run s moves next h e =
      title_of (blocker_run s moves) next e (blocker_run-IsTold s moves (rw h tt))
    where
      title_of :
          (b : Blocker) (n : Location)
          → b.held ≡ some n
          → IsTold b
          → guard_title b
            ≡ some (
                if is_same_page b.current n
                then text "Discard your changes?"
                else text "Leave without saving?")
      title_of b n q told =
          let same : b.last_same_page ≡ is_same_page b.current n = rw q at told in
          elim (Bool-cases (is_same_page b.current n)) [
            | inl f ↦ rw (q, same, f) refl
            | inr f ↦ rw (q, same, f) refl
          ]
