-- ===== src/Tests/Service.antt =====
-- The queue, the thread that serves it, and the table of callbacks at concrete inputs.
use ut_control.Base.{
  ℕ, zero, suc, ◌≡◌, refl, true, false, some, [], ◌∷◌, ◌++◌, length, take, replicate, arith, All,
}
use ut_control.CString.Buffer.{read_string}
use ut_control.Kvp.Key.{max_element_size}
use ut_control.ControlPlane.Queue.{
  data_recieved, CpMessage, Queue, max_messages, enqueue_message, dequeue_message,
}
use ut_control.ControlPlane.Queue.Fifo.{IsQueue, contents, Pops, dequeue_message-Pops}
use ut_control.ControlPlane.Queue.Drain.{drain, enqueue_all, drain-enqueue_all}
use ut_control.ControlPlane.Service.{Service, request_exit}
use ut_control.ControlPlane.Service.Loop.{IsData}
use ut_control.ControlPlane.Service.Interleaving.{here, later, receive, lost_exit}
use ut_control.ControlPlane.Service.Schedule.{serves, Scheduled, schedule-Scheduled}
use ut_control.ControlPlane.Callbacks.{
  max_callback_entries, CallbackEntry, CallbackTable, status_ok, register_callback_on_message,
}
use ut_control.ControlPlane.Callbacks.Table.{
  IsTable, Registers, register-Registers, registered, register-stored_key,
}
use ut_control.ControlPlane.Lifecycle.{CpInstance, fresh, ut_control_plane_stop, returned, hangs}
use ut_control.ControlPlane.Lifecycle.Restart.{
  StopsWith, ut_control_plane_stop-StopsWith, ServesNothing, restart-ServesNothing,
}

abbrev letter : ℕ → CpMessage
letter c = record { status = data_recieved; message = some (c ∷ 0 ∷ []); size = 1 }

abbrev two_letters : Queue
two_letters = record {
  message_queue = letter b'a' ∷ letter b'b' ∷ replicate 30 (letter b'c');
  message_count = 2;
}

abbrev two_letters-IsQueue : IsQueue two_letters
two_letters-IsQueue = record { slots = refl; bounded = omega arith }

abbrev full_queue : Queue
full_queue = record { message_queue = replicate 32 (letter b'c'); message_count = 32 }

abbrev full_queue-IsQueue : IsQueue full_queue
full_queue-IsQueue = record { slots = refl; bounded = omega arith }

dequeue_message-Pops_example :
    Pops (dequeue_message true two_letters) (letter b'a' ∷ letter b'b' ∷ [])
dequeue_message-Pops_example = dequeue_message-Pops two_letters-IsQueue

drain-enqueue_all_example :
    drain max_messages (enqueue_all (letter b'd' ∷ []) two_letters)
    ≡ take max_messages (contents two_letters ++ letter b'd' ∷ [])
drain-enqueue_all_example = drain-enqueue_all (letter b'd' ∷ []) two_letters two_letters-IsQueue

abbrev serving : Queue → Service
serving q = record { queue = q; exit_request = false; handled = [] }

abbrev all_data : (n : ℕ) → All IsData (replicate n (letter b'c'))
all_data zero = tt
all_data (suc n) = (refl, all_data n)

abbrev stopping : Service
stopping = request_exit (serving full_queue)

abbrev one_more : Service
one_more = record stopping { queue = enqueue_message (letter b'd') stopping.queue }

lost_exit_example : one_more.exit_request ≡ false
lost_exit_example =
    lost_exit (serving full_queue) one_more full_queue-IsQueue refl refl (all_data 32)
      (later here (receive (letter b'd') refl))

-- The other thread receives a message, then the state machine handles one.
abbrev asked : Service
asked = request_exit (serving two_letters)

schedule-Scheduled_example :
    Scheduled
      (serving two_letters)
      0
      (record asked { queue = enqueue_message (letter b'd') asked.queue })
unfolding serves
schedule-Scheduled_example =
    schedule-Scheduled (serving two_letters) two_letters-IsQueue (omega arith) refl
      (refl, (refl, tt)) (later here (receive (letter b'd') refl))

-- A table of zeros.
abbrev no_entry : CallbackEntry
no_entry = record { key = replicate max_element_size 0; p_callback = 0; user_data = 0 }

abbrev empty_table : CallbackTable
empty_table = record {
  callback_entry_list = replicate max_callback_entries no_entry;
  callback_entry_index = 0;
}

abbrev no_keys :
    (n : ℕ) → All (λ (e : CallbackEntry). length e.key ≡ max_element_size) (replicate n no_entry)
no_keys zero = tt
no_keys (suc n) = (refl, no_keys n)

abbrev empty_table-IsTable : IsTable empty_table
empty_table-IsTable = record { slots = refl; bounded = omega arith; keys = no_keys 32 }

register-Registers_example :
    Registers empty_table
      (b'k' ∷ [])
      7
      9
      (register_callback_on_message (some empty_table) (some (b'k' ∷ [])) (some 7) (some 9))
register-Registers_example = register-Registers empty_table (b'k' ∷ []) 7 9 empty_table-IsTable

register-stored_key_example :
    (t' : CallbackTable) × (e : CallbackEntry) × (register_callback_on_message
        (some empty_table)
        (some (b'k' ∷ []))
        (some 7)
        (some 9)
      ≡ some (status_ok, some t'))
    × (registered t' ≡ e ∷ [])
    × (read_string e.key ≡ some (b'k' ∷ []))
register-stored_key_example =
    register-stored_key empty_table (b'k' ∷ []) 7 9 empty_table-IsTable (omega arith)
      (omega arith, tt)

abbrev running : CpInstance
running = record fresh { has_thread = true; service = serving two_letters }

ut_control_plane_stop-StopsWith_example :
    StopsWith (letter b'a' ∷ letter b'b' ∷ []) running (ut_control_plane_stop true running)
    × (ut_control_plane_stop false running ≡ hangs)
ut_control_plane_stop-StopsWith_example =
    ut_control_plane_stop-StopsWith running refl refl two_letters-IsQueue (omega arith) refl
      (refl, (refl, tt))

restart-ServesNothing_example :
    (p' : CpInstance) × (ut_control_plane_stop true running ≡ returned p')
    × ServesNothing (letter b'd' ∷ []) p'
restart-ServesNothing_example =
    restart-ServesNothing running (letter b'd' ∷ []) refl refl two_letters-IsQueue (omega arith)
      refl (refl, (refl, tt))
