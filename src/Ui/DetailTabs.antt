-- ===== src/Ui/DetailTabs.antt =====
-- The tab of a detail page: validateSearch and activeTab of web/src/routes/users/$dn.tsx and
-- web/src/routes/groups/$dn.tsx. A tab is its name.
use ldapwarden.Prelude.{
  if◌then◌else◌, Bool-cases, or_default, JsString, ◌===◌, ===_refl, ===_eq, includes, any, All, ◌≡◌,
  refl, sym, ◌∙◌, subst, inl, inr, Bool, true, false, ◌&&◌, Option, none, some, List, [], ◌∷◌,
}
use ldapwarden.Values.{Value, string}
use ldapwarden.Ui.Tabs.{shown_panels}

-- `typeof raw.tab === 'string' && TABS.includes(raw.tab) ? raw.tab : undefined`.
unfoldable pub validate_tab : List JsString → Value → Option JsString
validate_tab tabs (string s) = if includes s tabs then some s else none
validate_tab tabs _ = none

unfoldable pub active_tab : List JsString → JsString → Value → JsString
unfolding validate_tab
active_tab tabs default_tab raw = or_default (validate_tab tabs raw) default_tab

-- The panels in the markup, each under its condition.
unfoldable pub rendered : List (Bool × JsString) → List JsString
rendered [] = []
rendered ((shown, name) ∷ panels) =
    let rest = rendered panels in if shown then name ∷ rest else rest

abbrev pub is_rendered : JsString → List (Bool × JsString) → Bool
is_rendered tab panels = any (λ p. p.0 && tab === p.1) panels

abbrev pub AreNamedApart : List (Bool × JsString) → Type 0
AreNamedApart [] = Unit {0}
AreNamedApart ((_, name) ∷ panels) = All (λ p. (name === p.1) ≡ false) panels × AreNamedApart panels

none_shown :
    (tab : JsString) (panels : List (Bool × JsString))
    → All (λ p. (tab === p.1) ≡ false) panels
    → (shown_panels tab (rendered panels) ≡ []) × (is_rendered tab panels ≡ false)
unfolding shown_panels rendered
none_shown tab [] h = (refl, refl)
none_shown tab ((true, name) ∷ panels) (h, hs) =
    let (a, b) = none_shown tab panels hs in rw h (a, b)
none_shown tab ((false, name) ∷ panels) (h, hs) = none_shown tab panels hs

-- The selected tab shows its panel and no other, if it is rendered, and no panel at all if not.
pub shown_lem :
    (tab : JsString) (panels : List (Bool × JsString))
    → AreNamedApart panels
    → shown_panels tab (rendered panels) ≡ (if is_rendered tab panels then tab ∷ [] else [])
unfolding shown_panels rendered
shown_lem tab [] h = refl
shown_lem tab ((true, name) ∷ panels) (a, h) = elim (Bool-cases (tab === name)) [
  | inl e ↦
      let same : tab ≡ name = ===_eq tab name e in
      let (none_left, _) =
        none_shown tab panels (subst (λ t. All (λ p. (t === p.1) ≡ false) panels) (sym same) a) in
      rw (e, none_left) (rw same refl)
  | inr e ↦ rw e (shown_lem tab panels h)
]
shown_lem tab ((false, name) ∷ panels) (a, h) = shown_lem tab panels h

-- The first panel that is rendered.
unfoldable pub first_of : List (Bool × JsString) → JsString
first_of [] = []
first_of ((shown, name) ∷ panels) = let rest = first_of panels in if shown then name else rest

pub first_of-IsFirst :
    (panels : List (Bool × JsString))
    → any (λ p. p.0) panels ≡ true
    → ((rest : List JsString) × (rendered panels ≡ first_of panels ∷ rest))
      × (is_rendered (first_of panels) panels ≡ true)
unfolding first_of rendered
first_of-IsFirst [] h = cc
first_of-IsFirst ((true, name) ∷ panels) h = ((rendered panels, refl), rw (===_refl name) refl)
first_of-IsFirst ((false, name) ∷ panels) h = first_of-IsFirst panels h

-- Without a tab of the page in the URL the active tab is the default one.
pub active_tab-default :
    (tabs : List JsString) (default_tab : JsString) (raw : Value)
    → validate_tab tabs raw ≡ none
    → active_tab tabs default_tab raw ≡ default_tab
unfolding active_tab
active_tab-default tabs default_tab raw e = rw e refl

pub shown_or_default :
    (tabs : List JsString) (default_tab : JsString) (panels : List (Bool × JsString)) (raw : Value)
    → AreNamedApart panels
    → any (λ p. p.0) panels ≡ true
    → default_tab ≡ first_of panels
    → let active = active_tab tabs default_tab raw in
      (shown_panels active (rendered panels)
        ≡ (if is_rendered active panels then active ∷ [] else []))
      × (validate_tab tabs raw ≡ none
          → ((rest : List JsString) × (rendered panels ≡ active ∷ rest))
            × (shown_panels active (rendered panels) ≡ active ∷ []))
shown_or_default tabs default_tab panels raw apart some_panel d =
    let active = active_tab tabs default_tab raw in
    (
      shown_lem active panels apart,
      λ e.
          let same : active ≡ first_of panels = active_tab-default tabs default_tab raw e ∙ d in
          let (first, it) = first_of-IsFirst panels some_panel in
          rw same (first, shown_lem (first_of panels) panels apart ∙ rw it refl),
    )
