-- ===== src/Device/Reader.antt =====
-- src/device/virtual_input_device.rs, `read_from_device_input_fd_thread_handler`: the loop that reads
-- a device. What the device answers is a list, one answer for each call of `next_event`; where it is
-- used up, the thread waits.
use map2_legacy.Base.{
  ℕ, suc, List, [], ◌∷◌, Bool, true, false, Option, none, some, nat_beq, if◌then◌else◌,
}
use map2_legacy.Key.{InputEvent}

pub data ReadStatus : Type 0 where
  success sync : ReadStatus

-- What `next_event` returns: a status with an event, or an error with its number, if it has one.
pub data Answer : Type 0 where
  event : ReadStatus → InputEvent → Answer
  os_error : Option ℕ → Answer

pub data ReadFlag : Type 0 where
  flag_normal flag_sync : ReadFlag

-- How the thread ends: the abort was received, the device is gone, or an error was printed; or it
-- still waits for the device.
pub data Ending : Type 0 where
  aborted no_device failed waiting : Ending

-- What the thread did: calls of the device, with their flag, calls of the handler, and sleeps.
pub data Act : Type 0 where
  called : ReadFlag → Act
  handled : InputEvent → Act
  slept_ms : ℕ → Act

abbrev pub Run : Type 0
Run = List Act × Ending

abbrev pub then_do : List Act → Run → Run
then_do [] r = r
then_do (a ∷ acts) r = let (done, ending) = then_do acts r in (a ∷ done, ending)

-- ENODEV and EWOULDBLOCK of Linux.
abbrev pub enodev : ℕ
enodev = 19

abbrev pub ewouldblock : ℕ
ewouldblock = 11

-- The arms for an error: `again` is the loop with what the device answers later.
abbrev pub on_error : Option ℕ → Run → Run
on_error none again = ([], failed)
on_error (some code) again =
    if nat_beq code enodev
    then ([], no_device)
    else if nat_beq code ewouldblock
    then then_do (slept_ms 2 ∷ []) again
    else ([], failed)

-- A round of the outer loop: the abort is looked at first, then the device is called.
abbrev pub poll : Bool → Run → Run
poll true r = ([], aborted)
poll false r = then_do (called flag_normal ∷ []) r

-- `abort n` says whether the abort has been sent by the time of the n-th call.
unfoldable mutual
  pub read_loop : (ℕ → Bool) → ℕ → List Answer → Run
  read_loop abort n [] = poll (abort n) ([], waiting)
  read_loop abort n (event success ev ∷ as') =
      poll (abort n) (then_do (handled ev ∷ []) (read_loop abort (suc n) as'))
  read_loop abort n (event sync _ ∷ as') = poll (abort n) (sync_loop abort (suc n) as')
  read_loop abort n (os_error code ∷ as') =
      poll (abort n) (on_error code (read_loop abort (suc n) as'))

  -- `while result.0 == ReadStatus::Sync`, which does not look at the abort.
  pub sync_loop : (ℕ → Bool) → ℕ → List Answer → Run
  sync_loop abort n [] = (called flag_sync ∷ [], waiting)
  sync_loop abort n (event sync _ ∷ as') =
      then_do (called flag_sync ∷ []) (sync_loop abort (suc n) as')
  sync_loop abort n (event success _ ∷ as') =
      then_do (called flag_sync ∷ []) (read_loop abort (suc n) as')
  sync_loop abort n (os_error _ ∷ as') =
      then_do (called flag_sync ∷ []) (read_loop abort (suc n) as')
