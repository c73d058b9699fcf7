-- ===== src/Desktop.antt =====
-- The desktop front end (ui/src): the events its tasks exchange (usecase/view.rs) and the service they
-- steer (usecase/service.rs).
pub mod Service
pub mod Presenter
pub mod View
pub mod Shown
use openuu_server.Prelude.{String, Bool, true, false, eqb, String_discrete}

pub data DesktopServiceState : Type 0 where
  paused started stopped unknown : DesktopServiceState

abbrev pub same_state : DesktopServiceState → DesktopServiceState → Bool
same_state paused paused = true
same_state started started = true
same_state stopped stopped = true
same_state unknown unknown = true
same_state _ _ = false

pub data Event : Type 0 where
  browser_action : String → Event
  browser_init : Event
  browser_update : String → String → Event
  browser_render file_change view_action : String → Event
  view_init : Event
  view_update view_render : String → Event
  view_render_app_exit : Event
  view_render_service_state : DesktopServiceState → Event

-- the trait IDesktopService, on a state
pub record DesktopService {ℓ} (S : Type ℓ) : Type ℓ where
  pub start : S → S
  pub stop : S → S
  pub restart : S → S
  pub pause : S → S
  pub check : S → DesktopServiceState × S

abbrev pub string_eq : String → String → Bool
string_eq = eqb String_discrete
