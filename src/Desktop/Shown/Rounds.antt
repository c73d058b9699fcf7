-- ===== src/Desktop/Shown/Rounds.antt =====
-- The presenter and the view over the rounds of the presenter (ui/src/usecase/presenter.rs and
-- ui/src/adapter/view/desktop.rs).

use openuu_server.Prelude.{
  ℕ, zero, suc, ◌-◌, String, true, List, [], ◌∷◌, ◌≡◌, ◌⊎◌, inl, inr, refl, ltb, String_discrete,
  Bool-cases,
}
use mathlib.Core.List.{◌++◌ as append}
use openuu_server.Desktop.{
  DesktopServiceState, unknown, same_state, Event, browser_action, browser_init, browser_update,
  browser_render, file_change, view_action, view_init, view_update, view_render,
  view_render_app_exit, view_render_service_state, DesktopService, string_eq,
}
use openuu_server.Desktop.Presenter.{
  Presenter, create, send, send_file, act, handle, drain, shown, tick, round, rounds,
}
use openuu_server.Desktop.View.{render, render_all, fresh}
use openuu_server.Desktop.Shown.{
  Shows, ShowsBoth, ShowsFile, of_sent, sent_more, show_file-Marked, show_file-Shows,
  show_state-Shows, show_state-ShowsFile,
}

module _ {ℓ} {S : Type ℓ} (d : DesktopService S) where
  abbrev Tells : Presenter S → Type 0
  Tells p = ShowsBoth p.service_state p.file (of_sent p.sent)

  -- The presenter sends its file, which may be new.
  send_file-Tells :
      (file : String) (p : Presenter S) → Tells p → Tells (send_file d (record p { file = file }))
  unfolding render String_discrete
  send_file-Tells file p h =
      sent_more p.sent (browser_update "file" file) p.service_state p.service_state p.file file h
        λ state_shown file_shown. inr (
          show_file-Shows p.service_state file (of_sent p.sent) state_shown,
          inr (show_file-Marked file (of_sent p.sent)),
        )

  exit-Tells : (p : Presenter S) → Tells p → Tells (send d view_render_app_exit p)
  unfolding render
  exit-Tells p h =
      sent_more p.sent view_render_app_exit p.service_state p.service_state p.file p.file h
        λ state_shown file_shown. inl refl

  state-Tells :
      (state : DesktopServiceState) (p : Presenter S)
      → Tells p
      → Tells (send d (view_render_service_state state) (record p { service_state = state }))
  unfolding render
  state-Tells state p h =
      sent_more p.sent (view_render_service_state state) p.service_state state p.file p.file h
        λ state_shown file_shown. inr (
          show_state-Shows state (of_sent p.sent),
          show_state-ShowsFile state p.file (of_sent p.sent) file_shown,
        )

  act-Tells : (action : String) (p : Presenter S) → Tells p → Tells (act d action p)
  act-Tells action p h = elim (Bool-cases (string_eq action "start")) [
    | inl e ↦ rw e h
    | inr n₁ ↦ elim (Bool-cases (string_eq action "stop")) [
      | inl e ↦ rw (n₁, e) h
      | inr n₂ ↦ elim (Bool-cases (string_eq action "restart")) [
        | inl e ↦ rw (n₁, n₂, e) h
        | inr n₃ ↦ elim (Bool-cases (string_eq action "pause")) [
          | inl e ↦ rw (n₁, n₂, n₃, e) h
          | inr n₄ ↦ elim (Bool-cases (string_eq action "exit")) [
            | inl e ↦ rw (n₁, n₂, n₃, n₄, e) (exit-Tells p h)
            | inr n₅ ↦ rw (n₁, n₂, n₃, n₄, n₅) (send_file-Tells action p h)
          ]
        ]
      ]
    ]
  ]

  handle-Tells : (e : Event) (p : Presenter S) → Tells p → Tells (handle d e p)
  unfolding handle
  handle-Tells browser_init p h = send_file-Tells p.file p h
  handle-Tells (browser_action action) p h = elim (Bool-cases (string_eq action "restart")) [
    | inl e ↦ rw e h
    | inr n ↦ rw n h
  ]
  handle-Tells (file_change path) p h = elim (Bool-cases (string_eq path p.file)) [
    | inl e ↦ rw e (send_file-Tells p.file p h)
    | inr n ↦ rw n h
  ]
  handle-Tells (view_action action) p h = act-Tells action p h
  handle-Tells (browser_update action data_shown) p h = h
  handle-Tells (browser_render text) p h = h
  handle-Tells view_init p h = h
  handle-Tells (view_update text) p h = h
  handle-Tells (view_render text) p h = h
  handle-Tells view_render_app_exit p h = h
  handle-Tells (view_render_service_state state) p h = h

  drain-Tells :
      (n : ℕ) (waiting : List Event) (p : Presenter S) → Tells p → Tells (drain d n waiting p).0
  unfolding drain
  drain-Tells zero waiting p h = h
  drain-Tells (suc n) [] p h = h
  drain-Tells (suc n) (e ∷ waiting) p h = drain-Tells n waiting (handle d e p) (handle-Tells e p h)

  shown-Tells :
      (r : DesktopServiceState × S) (now : ℕ) (p : Presenter S) → Tells p → Tells (shown d r now p)
  shown-Tells (state, service) now p h = elim (Bool-cases (same_state state p.service_state)) [
    | inl e ↦ rw e h
    | inr n ↦ rw n (state-Tells state p h)
  ]

  tick-Tells : (now : ℕ) (p : Presenter S) → Tells p → Tells (tick d now p)
  unfolding tick
  tick-Tells now p h = elim (Bool-cases (ltb 999 (now - p.now))) [
    | inl due ↦ rw due (shown-Tells (d.check p.service) now p h)
    | inr early ↦ rw early h
  ]

  round-Tells :
      (buffer now : ℕ) (waiting : List Event) (p : Presenter S)
      → Tells p
      → Tells (round d buffer now waiting p).0
  unfolding round
  round-Tells buffer now waiting p h =
      tick-Tells now (drain d (buffer - 1) waiting p).0 (drain-Tells (buffer - 1) waiting p h)

  rounds-Tells :
      (buffer : ℕ) (arrivals : List (ℕ × List Event)) (waiting : List Event) (p : Presenter S)
      → Tells p
      → Tells (rounds d buffer arrivals waiting p)
  unfolding rounds
  rounds-Tells buffer [] waiting p h = h
  rounds-Tells buffer ((now, arrived) ∷ arrivals) waiting p h =
      let r = round d buffer now (append waiting arrived) p in
      rounds-Tells buffer arrivals r.1 r.0 (round-Tells buffer now (append waiting arrived) p h)

  create-Tells : (service : S) (now : ℕ) → Tells (create d service now)
  unfolding render_all render
  create-Tells service now = inr (show_state-Shows unknown fresh, inl (refl, refl))

  -- Whatever events reach the presenter, in whatever rounds of its loop, and whatever the service
  -- answers, the view, once it has handled what the presenter sent, has exited, or shows what the
  -- presenter knows: the service can be started in the menu and the tray exactly when it was last
  -- found stopped, and stopped and restarted exactly when it was found started; the title names the
  -- state, and blinks unless the service is started; and the current file of the presenter, if it is
  -- one of the five, is the one that is marked, unless nothing was sent to the page yet.
  pub rounds_shown :
      (buffer start_time : ℕ) (service : S) (arrivals : List (ℕ × List Event))
      → let p = rounds d buffer arrivals [] (create d service start_time) in
        let v = render_all p.sent fresh in
        (v.exited ≡ true) ⊎ (Shows p.service_state v × ShowsFile p.file v)
  rounds_shown buffer start_time service arrivals =
      rounds-Tells buffer arrivals [] (create d service start_time)
        (create-Tells service start_time)
