-- ===== src/Display/Theme.antt =====
-- The theme of the app: web/src/lib/theme.tsx, where there is a window.
use mathlib.Core.Bool.{false≢true}
use ldapwarden.Prelude.{
  if◌then◌else◌, Bool-cases, Option-cases, or_default, is_some, JsString, text, ◌===◌, ===_refl,
  look_up, ◌≡◌, refl, sym, ap, ◌∙◌, inl, inr, Bool, true, false, Option, none, some, List, [], ◌∷◌,
}

pub data Theme : Type 0 where
  light dark system : Theme

abbrev pub storage_key : JsString
storage_key = text "ldapwarden-theme"

-- The storage of the site, `none` where it is blocked, and what the system prefers.
pub record Browser : Type 0 where
  pub stored : Option (List (JsString × JsString))
  pub prefers_dark : Bool

unfoldable pub theme_name : Theme → JsString
theme_name light = text "light"
theme_name dark = text "dark"
theme_name system = text "system"

-- The test of a stored text.
unfoldable pub theme_named : JsString → Theme
theme_named s = if s === text "light" then light else if s === text "dark" then dark else system

unfoldable pub get_stored_theme : Browser → Theme
unfolding theme_named
get_stored_theme b = elim b.stored [
  | none ↦ system
  | some items ↦ theme_named (or_default (look_up storage_key items) [])
]

-- `localStorage.setItem`.
unfoldable pub put_item :
    JsString → JsString → List (JsString × JsString) → List (JsString × JsString)
put_item key value [] = (key, value) ∷ []
put_item key value ((k, v) ∷ items) =
    let rest = put_item key value items in if k === key then (k, value) ∷ items else (k, v) ∷ rest

-- ThemeProvider: the theme, and what the system prefers as it was last heard.
pub record ThemeState : Type 0 where
  pub browser : Browser
  pub theme : Theme
  pub system_dark : Bool

unfoldable pub mount : Browser → ThemeState
unfolding get_stored_theme
mount b = record { browser = b; theme = get_stored_theme b; system_dark = b.prefers_dark }

-- Whether the dark theme is applied.
unfoldable pub is_dark : ThemeState → Bool
is_dark s = elim s.theme [ light ↦ false | dark ↦ true | system ↦ s.system_dark ]

unfoldable pub remember : Theme → Browser → Browser
unfolding put_item theme_name
remember theme b = elim b.stored [
  | none ↦ b
  | some items ↦ record b { stored = some (put_item storage_key (theme_name theme) items) }
]

unfoldable pub set_theme : Theme → ThemeState → ThemeState
unfolding remember
set_theme next s = record s { browser = remember next s.browser; theme = next }

-- The system changes its preference, and the app hears of it.
unfoldable pub system_changes : Bool → ThemeState → ThemeState
system_changes prefers s = record s {
  browser = record s.browser { prefers_dark = prefers };
  system_dark = prefers;
}

pub data ThemeEvent : Type 0 where
  sets : Theme → ThemeEvent
  prefers : Bool → ThemeEvent

unfoldable pub theme_event : ThemeState → ThemeEvent → ThemeState
unfolding set_theme system_changes
theme_event s (sets next) = set_theme next s
theme_event s (prefers d) = system_changes d s

unfoldable pub theme_events : ThemeState → List ThemeEvent → ThemeState
unfolding theme_event
theme_events s [] = s
theme_events s (e ∷ es) = theme_events (theme_event s e) es

theme_named-theme_name : (t : Theme) → theme_named (theme_name t) ≡ t
unfolding theme_named theme_name ◌===◌
theme_named-theme_name light = refl
theme_named-theme_name dark = refl
theme_named-theme_name system = refl

look_up-put_item :
    (key value : JsString) (items : List (JsString × JsString))
    → look_up key (put_item key value items) ≡ some value
unfolding look_up put_item
look_up-put_item key value [] = rw (===_refl key) refl
look_up-put_item key value ((k, v) ∷ items) = elim (Bool-cases (k === key)) [
  | inl e ↦ rw (e, e) refl
  | inr e ↦ rw (e, e) (look_up-put_item key value items)
]

-- A reload would show what is shown.
abbrev IsRemembered : ThemeState → Type 0
IsRemembered s =
    (get_stored_theme s.browser ≡ s.theme)
    × (s.browser.prefers_dark ≡ s.system_dark)
    × (is_some s.browser.stored ≡ true)

theme_event-IsRemembered :
    (s : ThemeState) (e : ThemeEvent) → IsRemembered s → IsRemembered (theme_event s e)
unfolding theme_event set_theme system_changes remember get_stored_theme
theme_event-IsRemembered s (prefers d) (a, b, c) = (a, refl, c)
theme_event-IsRemembered s (sets t) (a, b, c) = elim (Option-cases s.browser.stored) [
  | inl e ↦ absurd (false≢true (ap is_some (sym e) ∙ c))
  | inr (items, e) ↦
      rw e
        (rw (look_up-put_item storage_key (theme_name t) items) (theme_named-theme_name t), b, refl)
]

theme_events-IsRemembered :
    (s : ThemeState) (es : List ThemeEvent) → IsRemembered s → IsRemembered (theme_events s es)
unfolding theme_events
theme_events-IsRemembered s [] h = h
theme_events-IsRemembered s (e ∷ es) h =
    theme_events-IsRemembered (theme_event s e) es (theme_event-IsRemembered s e h)

-- Where the storage is open, a reload after any choices of a theme and any changes of what the
-- system prefers gives the theme that is shown, light or dark.
pub mount-theme_events :
    (b : Browser) (es : List ThemeEvent)
    → is_some b.stored ≡ true
    → let s = theme_events (mount b) es in
      ((mount s.browser).theme ≡ s.theme) × (is_dark (mount s.browser) ≡ is_dark s)
unfolding mount is_dark
mount-theme_events b es h =
    let (a, d, _) = theme_events-IsRemembered (mount b) es (refl, refl, h) in (a, rw (a, d) refl)
