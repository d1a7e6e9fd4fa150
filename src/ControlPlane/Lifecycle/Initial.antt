-- ===== src/ControlPlane/Lifecycle/Initial.antt =====
-- src/ut_control_plane.c: what UT_ControlPlane_Init returns.
use ut_control.Base.{ℕ, ◌≡◌, ◌≢◌, ◌⊎◌, Bool, false, []}
use ut_control.ControlPlane.Queue.Fifo.{IsQueue, contents}
use ut_control.ControlPlane.Callbacks.Table.{IsTable, registered}
use ut_control.ControlPlane.Lifecycle.{cp_magic, Initialised, fault, refused, created}

-- A valid instance with an empty queue, an empty table and no thread; a port 0 or a context that
-- cannot be created; or no memory.
abbrev pub Initialises : (malloc_ok context_ok : Bool) → ℕ → Initialised → Type 0
Initialises malloc_ok context_ok port fault = malloc_ok ≡ false
Initialises malloc_ok context_ok port refused = (port ≡ 0) ⊎ (context_ok ≡ false)
Initialises malloc_ok context_ok port (created p) =
    (port ≢ 0)
    × (p.magic ≡ cp_magic)
    × (p.has_thread ≡ false)
    × IsQueue p.service.queue
    × (contents p.service.queue ≡ [])
    × (p.service.exit_request ≡ false)
    × IsTable p.table
    × (registered p.table ≡ [])
