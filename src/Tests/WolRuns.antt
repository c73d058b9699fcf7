-- ===== src/Tests/WolRuns.antt =====
-- Runs of wake on LAN.
use openuu_server.Prelude.{ℕ, ◌+◌, ◌<◌, String, List, [], ◌∷◌, ◌≡◌, refl, true, some, find?}
use openuu_server.Account.Tables.{Accounts, WolDevice, WolJob}
use openuu_server.Account.Wol.{targets, queued, is_device, is_job, poll_as, wake_as}
use openuu_server.Account.Wol.Lease.{CanWake, poll_as_once, wake_as_queued}
use openuu_server.Tests.Data.{plain, first_token, one_session, short_hash}

abbrev sleeper : WolDevice
sleeper = record {
  owner = "alice";
  id = "desktop";
  seen = 100;
  session = short_hash first_token;
  peers = [];
}

abbrev waker : WolDevice
waker = record {
  owner = "alice";
  id = "router";
  seen = 190;
  session = short_hash first_token;
  peers = "desktop" ∷ [];
}

abbrev two_devices : Accounts
two_devices = record one_session { wol_devices = sleeper ∷ waker ∷ [] }

abbrev wake_job : WolJob
wake_job = record { owner = "alice"; target = "desktop"; helper = "router"; expires = 230 }

abbrev one_job : Accounts
one_job = record two_devices { wol_jobs = wake_job ∷ [] }

wake_run : wake_as plain 200 "alice" "desktop" two_devices ≡ (queued, one_job)
unfolding wake_as find? openuu_server.Prelude.String_discrete openuu_server.Prelude.keep
    openuu_server.Prelude.any openuu_server.Prelude.Bytes-discrete short_hash
wake_run = refl

wake_as_queued_example :
    (row helper : WolDevice) × (find? (is_device "alice" "desktop") two_devices.wol_devices
      ≡ some row)
    × (row.seen + 30 < 200)
    × CanWake two_devices 200 "alice" "desktop" helper
    × (find? (is_job "alice" "desktop") one_job.wol_jobs
        ≡ some (record {
          owner = "alice";
          target = "desktop";
          helper = helper.id;
          expires = 200 + 30;
        }))
wake_as_queued_example = wake_as_queued plain 200 "alice" "desktop" two_devices wake_run

abbrev after_poll : Accounts
after_poll = record two_devices { wol_devices = record waker { seen = 210 } ∷ sleeper ∷ [] }

poll_run :
    poll_as plain 210 "alice" first_token "router" ("desktop" ∷ []) one_job
    ≡ (targets ("desktop" ∷ []), after_poll)
unfolding poll_as openuu_server.Prelude.any openuu_server.Prelude.keep
    openuu_server.Prelude.String_discrete
poll_run = refl

abbrev after_second : Accounts
after_second = record two_devices { wol_devices = record waker { seen = 215 } ∷ sleeper ∷ [] }

second_run :
    poll_as plain 215 "alice" first_token "router" ("desktop" ∷ []) after_poll
    ≡ (targets [], after_second)
unfolding poll_as openuu_server.Prelude.any openuu_server.Prelude.keep
    openuu_server.Prelude.String_discrete
second_run = refl

abbrev none_left : List String
none_left = []

poll_as_once_example : none_left ≡ []
poll_as_once_example =
    poll_as_once plain 210 215 "alice" first_token first_token "router" ("desktop" ∷ [])
      ("desktop" ∷ []) one_job poll_run second_run
