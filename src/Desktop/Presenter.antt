-- ===== src/Desktop/Presenter.antt =====
-- The presenter (ui/src/usecase/presenter.rs): it steers the service, and tells the view what to show.
use openuu_server.Prelude.{
  ℕ, zero, suc, String, List, [], ◌∷◌, ◌++◌, ltb, if◌then◌else◌, String_discrete, ◌-◌,
}
use openuu_server.Desktop.{
  DesktopServiceState, unknown, same_state, Event, browser_action, browser_init, browser_update,
  browser_render, file_change, view_action, view_init, view_update, view_render,
  view_render_app_exit, view_render_service_state, DesktopService, string_eq,
}

-- `now` is the time of the last check, in milliseconds; `sent` is what went to the view, in order.
pub record Presenter {ℓ} (S : Type ℓ) : Type ℓ where
  pub service : S
  pub service_state : DesktopServiceState
  pub file : String
  pub now : ℕ
  pub sent : List Event

module _ {ℓ} {S : Type ℓ} (d : DesktopService S) where
  abbrev pub send : Event → Presenter S → Presenter S
  send e p = record p { sent = p.sent ++ e ∷ [] }

  abbrev pub send_file : Presenter S → Presenter S
  send_file p = send (browser_update "file" p.file) p

  -- before the loop
  abbrev pub create : S → ℕ → Presenter S
  create service now = record {
    service = service;
    service_state = unknown;
    file = "hbbs.out";
    now = now;
    sent = view_render_service_state unknown ∷ [];
  }

  abbrev pub act : String → Presenter S → Presenter S
  act action p =
      if string_eq action "start"
      then record p { service = d.start p.service }
      else if string_eq action "stop"
      then record p { service = d.stop p.service }
      else if string_eq action "restart"
      then record p { service = d.restart p.service }
      else if string_eq action "pause"
      then record p { service = d.pause p.service }
      else if string_eq action "exit"
      then send view_render_app_exit p
      else send_file (record p { file = action })

  unfoldable pub handle : Event → Presenter S → Presenter S
  unfolding String_discrete
  handle browser_init p = send_file p
  handle (browser_action action) p =
      if string_eq action "restart" then record p { service = d.restart p.service } else p
  handle (file_change path) p = if string_eq path p.file then send_file p else p
  handle (view_action action) p = act action p
  handle (browser_update action data_shown) p = p
  handle (browser_render text) p = p
  handle view_init p = p
  handle (view_update text) p = p
  handle (view_render text) p = p
  handle view_render_app_exit p = p
  handle (view_render_service_state state) p = p

  -- `for _ in 1..buffer`: at most so many of the events that wait, and those that still wait
  unfoldable pub drain : ℕ → List Event → Presenter S → Presenter S × List Event
  unfolding handle
  drain zero waiting p = (p, waiting)
  drain (suc n) [] p = (p, [])
  drain (suc n) (e ∷ waiting) p = drain n waiting (handle e p)

  abbrev pub shown : DesktopServiceState × S → ℕ → Presenter S → Presenter S
  shown (state, service) now p =
      let p' = record p { service = service; now = now } in
      if same_state state p.service_state
      then p'
      else send (view_render_service_state state) (record p' { service_state = state })

  -- the check, when more than 999 ms have passed
  unfoldable pub tick : ℕ → Presenter S → Presenter S
  tick now p = if ltb 999 (now - p.now) then shown (d.check p.service) now p else p

  -- one round of the loop, at a time and with what waits in the channel then
  unfoldable pub round : ℕ → ℕ → List Event → Presenter S → Presenter S × List Event
  unfolding drain tick
  round buffer now waiting p = let (p', rest) = drain (buffer - 1) waiting p in (tick now p', rest)

  -- the loop, on what arrives before each of its rounds and what is left from the one before
  unfoldable pub rounds : ℕ → List (ℕ × List Event) → List Event → Presenter S → Presenter S
  unfolding round
  rounds buffer [] waiting p = p
  rounds buffer ((now, arrived) ∷ arrivals) waiting p =
      let (p', rest) = round buffer now (waiting ++ arrived) p in rounds buffer arrivals rest p'
