-- ===== src/Tests/DesktopRuns.antt =====
-- A run of the desktop front end.
use openuu_server.Prelude.{ℕ, String, List, [], ◌∷◌, ◌≡◌, ◌⊎◌, true}
use openuu_server.Desktop.{Event, browser_init, view_action, file_change}
use openuu_server.Desktop.Presenter.{create, rounds}
use openuu_server.Desktop.Service.{Windows, WindowsDesktopService, windows}
use openuu_server.Desktop.View.{render_all, fresh}
use openuu_server.Desktop.Shown.{Shows, ShowsFile}
use openuu_server.Desktop.Shown.Rounds.{rounds_shown}
use openuu_server.Desktop.{stopped}

-- the service runs once a command was given
abbrev machine : Windows String
machine = record { call = λ command w. "Running"; nssm = λ args w. w; service_status = λ name w. w }

abbrev service : WindowsDesktopService String
service = record { state = stopped; world = "Stopped" }

abbrev arrivals : List (ℕ × List Event)
arrivals =
    (500, browser_init ∷ view_action "start" ∷ [])
    ∷ (1000, view_action "hbbr.err" ∷ [])
    ∷ (1600, file_change "hbbr.err" ∷ [])
    ∷ []

rounds_shown_example :
    let p = rounds (windows machine) 10 arrivals [] (create (windows machine) service 0) in
    let v = render_all p.sent fresh in
    (v.exited ≡ true) ⊎ (Shows p.service_state v × ShowsFile p.file v)
rounds_shown_example = rounds_shown (windows machine) 10 0 service arrivals
