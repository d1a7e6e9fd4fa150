-- ===== src/ControlPlane/Lifecycle.antt =====
-- src/ut_control_plane.c: the life of an instance, from UT_ControlPlane_Init to UT_ControlPlane_Exit.
pub mod Restart
pub mod Initial
use ut_control.Base.{
  ℕ, ◌+◌, Bool, true, false, Option, none, some, List, [], replicate, ◌==◌, if◌then◌else◌,
}
use ut_control.Kvp.Key.{max_element_size}
use ut_control.ControlPlane.Queue.{data_recieved, CpMessage, Queue, max_messages}
use ut_control.ControlPlane.Callbacks.{CallbackEntry, CallbackTable, max_callback_entries}
use ut_control.ControlPlane.Service.{
  Service, Served, stopped, blocked, crashed, out_of_fuel, service_loop, request_exit,
}

-- UT_CP_MAGIC
abbrev pub cp_magic : ℕ
cp_magic = 0xdeadbeef

-- ut_cp_instance_internal_t: the thread handle is not 0, and the context is not NULL.
pub record CpInstance : Type 0 where
  pub magic : ℕ
  pub has_thread : Bool
  pub has_context : Bool
  pub service : Service
  pub table : CallbackTable

-- The block after `memset`, with its magic number set.
abbrev zeroed_message : CpMessage
zeroed_message = record { status = data_recieved; message = none; size = 0 }

abbrev pub zeroed_entry : CallbackEntry
zeroed_entry = record { key = replicate max_element_size 0; p_callback = 0; user_data = 0 }

abbrev pub fresh : CpInstance
fresh = record {
  magic = cp_magic;
  has_thread = false;
  has_context = true;
  service = record {
    queue = record { message_queue = replicate max_messages zeroed_message; message_count = 0 };
    exit_request = false;
    handled = [];
  };
  table = record {
    callback_entry_list = replicate max_callback_entries zeroed_entry;
    callback_entry_index = 0;
  };
}

-- `memset` through the NULL that malloc returned; NULL; or a handle.
pub data Initialised : Type 0 where
  fault refused : Initialised
  created : CpInstance → Initialised

-- `context_ok`: whether lws_create_context succeeds.
unfoldable pub ut_control_plane_init :
    (malloc_ok context_ok : Bool) → (monitor_port : ℕ) → Initialised
ut_control_plane_init malloc_ok context_ok monitor_port =
    if monitor_port == 0
    then refused
    else if malloc_ok
    then (if context_ok then created fresh else refused)
    else fault

unfoldable pub validate_cp_instance : Option CpInstance → Option CpInstance
validate_cp_instance none = none
validate_cp_instance (some p) = if p.magic == cp_magic then some p else none

-- `thread_ok`: whether pthread_create sets the handle.
unfoldable pub ut_control_plane_start : (thread_ok : Bool) → CpInstance → CpInstance
unfolding validate_cp_instance
ut_control_plane_start thread_ok p = elim (validate_cp_instance (some p)) [
  | none ↦ p
  | some q ↦ if thread_ok then record q { has_thread = true } else q
]

-- A call of UT_ControlPlane_Stop returns, waits in pthread_join for ever, or the program crashes.
pub data Stopped : Type 0 where
  returned : CpInstance → Stopped
  hangs crashes : Stopped

-- Behind its loop the thread joins the one that serves the sockets, which reads the exit request when
-- the call of lws_service that it is in returns; `round_returns` says whether it does.
unfoldable pub join_sockets : (round_returns : Bool) → Served → Served
join_sockets round_returns (stopped s) = if round_returns then stopped s else blocked s
join_sockets round_returns served = served

-- pthread_join returns when the thread's function does.
unfoldable pub joined : CpInstance → Served → Stopped
joined p (stopped s) = returned (record p { has_thread = false; service = s })
joined p (blocked s) = hangs
joined p crashed = crashes
joined p out_of_fuel = hangs

-- `p` is the instance when the exit message is enqueued, which is what the call begins with; this is
-- the schedule in which the sockets put nothing behind it. (ControlPlane.Service.Schedule has every
-- schedule.) The fuel is enough for every message that waits.
unfoldable pub ut_control_plane_stop : (round_returns : Bool) → CpInstance → Stopped
unfolding validate_cp_instance joined join_sockets
ut_control_plane_stop round_returns p = elim (validate_cp_instance (some p)) [
  | none ↦ returned p
  | some q ↦
      if q.has_thread
      then joined q (
          join_sockets round_returns
            (service_loop (q.service.queue.message_count + 2) (request_exit q.service)))
      else returned (record q { has_thread = false })
]

-- What UT_ControlPlane_Exit leaves: `some none` where the block has been freed, and `none` where
-- the call of UT_ControlPlane_Stop does not return.
unfoldable pub after_stop : Stopped → Option (Option CpInstance)
after_stop (returned p) = some none
after_stop hangs = none
after_stop crashes = none

unfoldable pub ut_control_plane_exit :
    (round_returns : Bool) → CpInstance → Option (Option CpInstance)
unfolding validate_cp_instance after_stop
ut_control_plane_exit round_returns p = elim (validate_cp_instance (some p)) [
  | none ↦ some (some p)
  | some q ↦ after_stop (ut_control_plane_stop round_returns q)
]
