-- ===== src/Tests/Devices.antt =====
-- src/device/virtual_input_device.rs and src/x11.rs at concrete inputs.
use map2_legacy.Base.{
  ◌≡◌, refl, ℕ, [], ◌∷◌, ◌++◌, true, false, some, codes, leb, text_beq, arith, Bool,
}
use map2_legacy.Device.Reader.{event, success, sync, os_error, read_loop}
use map2_legacy.Device.Reading.{handled_by, IsSentBy, read_loop-append, read_loop-all_sync}
use map2_legacy.Device.Watcher.{Devices, new_watcher, add_device, remove_device, follow}
use map2_legacy.Device.Following.{is_read, is_read-follow}
use map2_legacy.Window.{GetPropertyReply, is_utf8, parse_wm_class}
use map2_legacy.Window.WmClass.{parse_wm_class-append}
use map2_legacy.Tests.Samples.{key_event}

-- Sent before the second call.
abbrev abort_at_2 : ℕ → Bool
abort_at_2 n = leb 2 n

abort_at_2-IsSentBy : IsSentBy abort_at_2 2
abort_at_2-IsSentBy m h = ground arith

read_loop-append_example :
    handled_by (
      read_loop abort_at_2 0 (
        event success (key_event 30 1)
        ∷ event sync (key_event 30 2)
        ∷ event success (key_event 30 0)
        ∷ []))
    ≡ key_event 30 1 ∷ []
unfolding read_loop
read_loop-append_example =
    read_loop-append abort_at_2 2 0
      (event success (key_event 30 1) ∷ event sync (key_event 30 2) ∷ [])
      (event success (key_event 30 0) ∷ []) abort_at_2-IsSentBy (omega arith)

abbrev never : ℕ → Bool
never _ = false

read_loop-all_sync_example :
    handled_by (
      read_loop never 0 (
        event sync (key_event 30 1)
        ∷ event sync (key_event 30 2)
        ∷ os_error (some 11)
        ∷ event success (key_event 30 0)
        ∷ []))
    ≡ key_event 30 0 ∷ []
unfolding read_loop
read_loop-all_sync_example =
    read_loop-all_sync never 0 (key_event 30 1) (key_event 30 2 ∷ []) (os_error (some 11))
      (event success (key_event 30 0) ∷ []) refl (λ ev e. cc e)

abbrev devices : Devices
devices = record { patterns = text_beq (codes "kbd") ∷ []; grabs = λ _ _. true }

is_read-follow_example :
    is_read (codes "kbd") (
      follow devices new_watcher (
        add_device (codes "kbd")
        ∷ remove_device (codes "kbd")
        ∷ add_device (codes "kbd")
        ∷ remove_device (codes "pad")
        ∷ []))
    ≡ true
is_read-follow_example =
    is_read-follow devices (λ _ _. refl) (codes "kbd") new_watcher
      (add_device (codes "kbd")
        ∷ remove_device (codes "kbd")
        ∷ add_device (codes "kbd")
        ∷ remove_device (codes "pad")
        ∷ [])
      refl

abbrev class_property : GetPropertyReply
class_property = record { format = 8; length = 10; value = [] }

parse_wm_class-append_example :
    (parse_wm_class
        (record class_property { value = codes "xterm" ++ 0 ∷ (codes "XTerm" ++ 0 ∷ []) })
      ≡ (codes "xterm", codes "XTerm"))
    × (parse_wm_class (record class_property { value = codes "xterm" ++ 0 ∷ codes "XTerm" })
        ≡ (codes "xterm", codes "XTerm"))
unfolding is_utf8
parse_wm_class-append_example =
    parse_wm_class-append class_property (codes "xterm") (codes "XTerm") refl refl refl refl
