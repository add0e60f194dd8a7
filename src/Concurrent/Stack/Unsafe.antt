-- ===== src/Concurrent/Stack/Unsafe.antt =====
-- The members of `mpsc_stack` and `spmc_queue` of src/Concurrent.hpp that are not safe beside other threads, against the
-- ones that are.
use icon.Prelude.{some}
use icon.Concurrent.Memory.{Ptr, Node, Heap, put}
use icon.Concurrent.Stack.{Stack}

module _ {V : Type 0} where
  -- What `push_unsafe` leaves
  topped : Heap V → Stack → Ptr → Node V → Heap V
  topped h s node o = record h { cell = put h.cell node (some (record o { next = s.first })) }
