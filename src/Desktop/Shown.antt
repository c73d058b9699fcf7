-- ===== src/Desktop/Shown.antt =====
-- What the view shows of what the presenter knows: the presenter of ui/src/usecase/presenter.rs and the
-- view of ui/src/adapter/view/desktop.rs, with the channel between them in order.
pub mod Rounds
use Prim.Native.String.{◌++◌}
use openuu_server.Prelude.{
  ℕ, zero, suc, ◌-◌, String, Bool, true, false, not, List, [], ◌∷◌, Option, some, ◌≡◌, ◌⊎◌, inl,
  inr, refl, ap, sym, subst, ◌∙◌, arith, ltb, any, eqb, if◌then◌else◌, String_discrete, Bool-cases,
}
use mathlib.Core.List.{◌++◌ as append}
use openuu_server.Prelude.Map.{get, insert, get-insert}
use openuu_server.Desktop.{
  DesktopServiceState, paused, started, stopped, unknown, same_state, Event, browser_action,
  browser_init, browser_update, browser_render, file_change, view_action, view_init, view_update,
  view_render, view_render_app_exit, view_render_service_state, DesktopService, string_eq,
}
use openuu_server.Desktop.Presenter.{
  Presenter, create, send, send_file, act, handle, drain, shown, tick, round, rounds,
}
use openuu_server.Desktop.View.{
  View, files, product, debug, select_only, show_file, show_state, render, render_all, fresh,
}

abbrev pub is_started : DesktopServiceState → Bool
is_started started = true
is_started _ = false

abbrev pub is_stopped : DesktopServiceState → Bool
is_stopped stopped = true
is_stopped _ = false

-- The service can be started exactly when it is stopped, and stopped or restarted exactly when it is
-- started, in these items.
abbrev pub Buttons : DesktopServiceState → List (String × Bool) → Type 0
Buttons state m =
    (get String_discrete "start" m ≡ some (is_stopped state))
    × (get String_discrete "stop" m ≡ some (is_started state))
    × (get String_discrete "restart" m ≡ some (is_started state))

-- The menu, the tray, the title and the blinking agree with the state.
pub record Shows (state : DesktopServiceState) (v : View) : Type 0 where
  pub menu : Buttons state v.menu_enabled
  pub tray : Buttons state v.tray_enabled
  pub title : v.title ≡ product ++ " " ++ debug state
  pub blink : v.blink ≡ not (is_started state)

-- One of the files is marked, if it is this, and no other.
abbrev pub Marked : String → View → Type 0
Marked file v =
    any (string_eq file) files ≡ true
    → (f : String) → any (string_eq f) files ≡ true
    → get String_discrete f v.selected ≡ some (string_eq f file)

-- either the page asked for nothing yet, or this file is marked
abbrev pub ShowsFile : String → View → Type 0
ShowsFile file v = ((v.emitted ≡ []) × (file ≡ "hbbs.out")) ⊎ Marked file v

render_all-append :
    (es : List Event) (e : Event) (v : View)
    → render_all (append es (e ∷ [])) v
      ≡ (if (render_all es v).exited then render_all es v else render e (render_all es v))
unfolding render_all
render_all-append [] e v = refl
render_all-append (x ∷ es) e v = render_all-append es e (if v.exited then v else render x v)

get-select_only :
    (f id : String) (list : List String) (m : List (String × Bool))
    → get String_discrete f (select_only id list m)
      ≡ (if any (string_eq f) list then some (string_eq f id) else get String_discrete f m)
unfolding select_only any
get-select_only f id [] m = refl
get-select_only f id (file ∷ list) m = ground (
  arith,
  get-select_only f id list (insert String_discrete file (string_eq file id) m),
  get-insert String_discrete file f (string_eq file id) m,
)

abbrev pub ShowsBoth : DesktopServiceState → String → View → Type 0
ShowsBoth state file v = (v.exited ≡ true) ⊎ (Shows state v × ShowsFile file v)

pub show_state-Shows : (state : DesktopServiceState) (v : View) → Shows state (show_state state v)
unfolding get insert openuu_server.Prelude.Map.remove String_discrete
show_state-Shows paused v = record {
  menu = (refl, refl, refl);
  tray = (refl, refl, refl);
  title = refl;
  blink = refl;
}
show_state-Shows started v = record {
  menu = (refl, refl, refl);
  tray = (refl, refl, refl);
  title = refl;
  blink = refl;
}
show_state-Shows stopped v = record {
  menu = (refl, refl, refl);
  tray = (refl, refl, refl);
  title = refl;
  blink = refl;
}
show_state-Shows unknown v = record {
  menu = (refl, refl, refl);
  tray = (refl, refl, refl);
  title = refl;
  blink = refl;
}

pub show_state-ShowsFile :
    (state : DesktopServiceState) (file : String) (v : View)
    → ShowsFile file v
    → ShowsFile file (show_state state v)
show_state-ShowsFile paused file v h = h
show_state-ShowsFile started file v h = h
show_state-ShowsFile stopped file v h = h
show_state-ShowsFile unknown file v h = h

pub show_file-Shows :
    (state : DesktopServiceState) (file : String) (v : View)
    → Shows state v
    → Shows state (show_file file v)
show_file-Shows state file v h = elim (Bool-cases (any (string_eq file) files)) [
  | inl known ↦ rw known (record { menu = h.menu; tray = h.tray; title = h.title; blink = h.blink })
  | inr strange ↦ rw strange h
]

pub show_file-Marked : (file : String) (v : View) → Marked file (show_file file v)
show_file-Marked file v known f is_file =
    rw known (get-select_only f file files v.selected ∙ marked)
  where
    marked :
        (if any (string_eq f) files
          then some (string_eq f file)
          else get String_discrete f v.selected)
        ≡ some (string_eq f file)
    marked = rw is_file refl

-- the view of what was sent so far
abbrev pub of_sent : List Event → View
of_sent sent = render_all sent fresh

sent_late :
    (sent : List Event) (e : Event)
    → (of_sent sent).exited ≡ true
    → of_sent (append sent (e ∷ [])) ≡ of_sent sent
sent_late sent e over = render_all-append sent e fresh ∙ rw over refl

-- One more event, if it leaves what it does not show alone.
pub sent_more :
    (sent : List Event) (e : Event) (state found : DesktopServiceState) (file chosen : String)
    → ShowsBoth state file (of_sent sent)
    → (Shows state (of_sent sent)
        → ShowsFile file (of_sent sent)
        → ShowsBoth found chosen (render e (of_sent sent)))
    → ShowsBoth found chosen (of_sent (append sent (e ∷ [])))
sent_more sent e state found file chosen (inl over) more =
    inl (ap (λ v. v.exited) (sent_late sent e over) ∙ over)
sent_more sent e state found file chosen (inr (state_shown, file_shown)) more =
    elim (Bool-cases (of_sent sent).exited) [
      | inl over ↦ inl (ap (λ v. v.exited) (sent_late sent e over) ∙ over)
      | inr runs ↦
          let e' : of_sent (append sent (e ∷ [])) ≡ render e (of_sent sent) =
            render_all-append sent e fresh ∙ rw runs refl in
          subst (ShowsBoth found chosen) (sym e') (more state_shown file_shown)
    ]
