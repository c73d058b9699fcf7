-- ===== src/Desktop/View.antt =====
-- The view (ui/src/adapter/view/desktop.rs): the menu, the tray and the title of the window.
use Prim.Native.String.{◌++◌}
use openuu_server.Prelude.{
  ℕ, ◌+◌, String, Bool, true, false, List, [], ◌∷◌, ltb, any, if◌then◌else◌, String_discrete,
}
use openuu_server.Prelude.Map.{insert}
use openuu_server.Desktop.{
  DesktopServiceState, paused, started, stopped, unknown, Event, browser_action, browser_init,
  browser_update, browser_render, file_change, view_action, view_init, view_update, view_render,
  view_render_app_exit, view_render_service_state, string_eq,
}

-- the marks of the items of the menu, which items of the menu and of the tray can be chosen (those
-- that are missing can), the title, and the one that the window shows; `emitted` is what went to the
-- page, the last first
pub record View : Type 0 where
  pub selected : List (String × Bool)
  pub menu_enabled : List (String × Bool)
  pub tray_enabled : List (String × Bool)
  pub title : String
  pub window_title : String
  pub blink : Bool
  pub span : ℕ
  pub emitted : List (String × String)
  pub exited : Bool

abbrev pub files : List String
files = "hbbs.out" ∷ "hbbs.err" ∷ "hbbr.out" ∷ "hbbr.err" ∷ ".env" ∷ []

abbrev pub product : String
product = "OpenUU Server"

abbrev pub debug : DesktopServiceState → String
debug paused = "Paused"
debug started = "Started"
debug stopped = "Stopped"
debug unknown = "Unknown"

-- `for file in list`
unfoldable pub select_only : String → List String → List (String × Bool) → List (String × Bool)
unfolding insert String_discrete
select_only id [] selected = selected
select_only id (file ∷ list) selected =
    select_only id list (insert String_discrete file (string_eq file id) selected)

abbrev pub show_file : String → View → View
show_file id v =
    if any (string_eq id) files
    then record v { selected = select_only id files v.selected; emitted = ("file", id) ∷ v.emitted }
    else v

abbrev pub set_enabled : String → Bool → View → View
set_enabled id enabled v = record v {
  menu_enabled = insert String_discrete id enabled v.menu_enabled;
  tray_enabled = insert String_discrete id enabled v.tray_enabled;
}

abbrev set_buttons : Bool → Bool → Bool → View → View
set_buttons start stop restart v =
    set_enabled "restart" restart (set_enabled "stop" stop (set_enabled "start" start v))

abbrev buttons : DesktopServiceState → View → View
buttons started v = record (set_buttons false true true v) { blink = false }
buttons stopped v = record (set_buttons true false false v) { blink = true }
buttons paused v = record (set_buttons false false false v) { blink = true }
buttons unknown v = record (set_buttons false false false v) { blink = true }

abbrev pub show_state : DesktopServiceState → View → View
show_state state v =
    let title = product ++ " " ++ debug state in
    buttons state (record v { title = title; window_title = title })

unfoldable pub render : Event → View → View
unfolding select_only insert String_discrete any
render (browser_update action id) v = if string_eq action "file" then show_file id v else v
render view_render_app_exit v = record v { exited = true }
render (view_render_service_state state) v = show_state state v
render (browser_action action) v = v
render browser_init v = v
render (browser_render text) v = v
render (file_change path) v = v
render (view_action action) v = v
render view_init v = v
render (view_update text) v = v
render (view_render text) v = v

-- the events that arrive, until the program exits
unfoldable pub render_all : List Event → View → View
unfolding render
render_all [] v = v
render_all (e ∷ es) v = render_all es (if v.exited then v else render e v)

-- the part of an iteration that blinks, `elapsed` microseconds after the last
unfoldable pub blink_title : ℕ → View → View
blink_title elapsed v =
    if v.blink
    then (if ltb 1000000 v.span
        then record v { span = 0; window_title = v.title }
        else if ltb 500000 (v.span + elapsed)
        then record v { span = v.span + elapsed; window_title = product }
        else record v { span = v.span + elapsed })
    else v

-- as the menu is built
abbrev pub fresh : View
fresh = record {
  selected = [];
  menu_enabled = [];
  tray_enabled = [];
  title = "";
  window_title = product;
  blink = false;
  span = 0;
  emitted = [];
  exited = false;
}
