-- ===== src/Desktop/Service.antt =====
-- The service on Windows (ui/src/adapter/service/windows.rs).
use Prim.Native.String.{◌++◌}
use openuu_server.Prelude.{String, List, [], ◌∷◌, if◌then◌else◌, String_discrete}
use openuu_server.Desktop.{DesktopServiceState, started, stopped, DesktopService, string_eq}

-- What the program starts and asks: a command line of cmd.exe with nssm, arguments of nssm, and the
-- service manager's word for the state of a service.
pub record Windows {ℓ} (W : Type ℓ) : Type ℓ where
  pub call : String → W → W
  pub nssm : List String → W → W
  pub service_status : String → W → String

pub record WindowsDesktopService {ℓ} (W : Type ℓ) : Type ℓ where
  pub state : DesktopServiceState
  pub world : W

-- `join(" & ")`
abbrev pub join : List String → String
join [] = ""
join (s ∷ []) = s
join (s ∷ t ∷ ss) = s ++ " & " ++ join (t ∷ ss)

module _ {ℓ} {W : Type ℓ} (os : Windows W) where
  unfoldable pub check : WindowsDesktopService W → DesktopServiceState × WindowsDesktopService W
  unfolding String_discrete
  check s =
      let state =
        if string_eq (os.service_status "hbbs" s.world) "Running" then started else stopped in
      (state, record s { state = state })

  -- `self.check()` at the end of an operation
  abbrev pub checked : W → WindowsDesktopService W → WindowsDesktopService W
  checked world s = (check (record s { world = world })).1

  unfoldable pub start : WindowsDesktopService W → WindowsDesktopService W
  unfolding check
  start s =
      checked
        (os.call
          (join (
            "echo." ∷ "%nssm% stop hbbr" ∷ "%nssm% remove hbbr confirm" ∷ "%nssm% stop hbbs"
            ∷ "%nssm% remove hbbs confirm" ∷ "mkdir logs" ∷ "echo." ∷ "service\\run.cmd hbbs"
            ∷ "echo." ∷ "service\\run.cmd hbbr" ∷ "echo." ∷ "@ping 127.1 -n 3 >nul" ∷ []))
          s.world)
        s

  unfoldable pub stop : WindowsDesktopService W → WindowsDesktopService W
  unfolding check
  stop s =
      checked
        (os.call
          (join (
            "echo." ∷ "%nssm% stop hbbr" ∷ "%nssm% remove hbbr confirm" ∷ "echo."
            ∷ "%nssm% stop hbbs" ∷ "%nssm% remove hbbs confirm" ∷ "echo." ∷ "@ping 127.1 -n 3 >nul"
            ∷ []))
          s.world)
        s

  unfoldable pub restart : WindowsDesktopService W → WindowsDesktopService W
  unfolding check
  restart s =
      checked (os.nssm ("restart" ∷ "hbbr" ∷ []) (os.nssm ("restart" ∷ "hbbs" ∷ []) s.world)) s

  unfoldable pub pause : WindowsDesktopService W → WindowsDesktopService W
  unfolding check
  pause s =
      checked
        (os.call
          (join (
            "echo." ∷ "%nssm% stop hbbr" ∷ "echo." ∷ "%nssm% stop hbbs" ∷ "echo."
            ∷ "@ping 127.1 -n 3 >nul" ∷ []))
          s.world)
        s

  abbrev pub windows : DesktopService (WindowsDesktopService W)
  windows = record { start = start; stop = stop; restart = restart; pause = pause; check = check }
