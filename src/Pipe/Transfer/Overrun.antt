-- ===== src/Pipe/Transfer/Overrun.antt =====
-- A writer of TP2-SO-2025/Kernel/pipe.c that was woken while the pipe is full.
use tp_so_grupo.Base.{
  ℕ, ◌+◌, ◌≡◌, ◌≢◌, refl, true, false, Bool, some, [], ◌∷◌, ◌==◌, ok, chain, arith, Ensures, ne→==,
  eq→==,
}
use tp_so_grupo.Kernel.{Ptr, null, Pipe, Kernel, update}
use tp_so_grupo.Pipe.{deref_pipe}
use tp_so_grupo.Pipe.Ring.{is_full, write_byte, fill}
use tp_so_grupo.Pipe.Ring.Contents.{IsRing, bytes_in, bytes_in-write_byte_full}
use tp_so_grupo.Pipe.Transfer.{returned, write_resume, write_loop, write_on, write_end}

-- The kernel with `x` for the pipe at `p`.
abbrev with_pipe : Ptr → Pipe → Kernel → Kernel
with_pipe p x k = record k { pipes = update k.pipes p (some x) }

deref_pipe-ok :
    (k : Kernel) (p : Ptr) (x : Pipe) → p ≢ null → k.pipes p ≡ some x → deref_pipe p k ≡ ok x k
unfolding deref_pipe
deref_pipe-ok k p x ne at = rw (ne→== p null ne, at)

deref_pipe-stored :
    (k : Kernel) (p : Ptr) (x : Pipe)
    → p ≢ null
    → deref_pipe p (with_pipe p x k) ≡ ok x (with_pipe p x k)
deref_pipe-stored k p x ne = deref_pipe-ok (with_pipe p x k) p x ne (rw (eq→== p p refl))

quiet : (b : ℕ) (x : Pipe) → x.waiting_to_read ≡ false → (write_byte b x).waiting_to_read ≡ false
unfolding write_byte
quiet b x e = e

-- A writer with one byte left that is woken while the well-formed pipe is full, and no reader waits,
-- returns as if all its bytes were written, and leaves the pipe without any byte: those that were in
-- it and its own are lost.
pub write_resume-overrun :
    (granted : Bool) (k : Kernel) (p : Ptr) (x : Pipe) (written b : ℕ)
    → p ≢ null
    → k.pipes p ≡ some x
    → IsRing x
    → is_full x ≡ true
    → x.waiting_to_read ≡ false
    → Ensures (write_resume granted p written (b ∷ []) k) (λ r k'.
      (r ≡ returned (some (written + 1))) × (y : Pipe) × (k'.pipes p ≡ some y) × (bytes_in y ≡ []))
unfolding write_resume write_loop write_on write_end fill
write_resume-overrun granted k p x written b ne at ring full idle =
    let some_written : written + 1 + 0 == 0 ≡ false = ground arith in
    let count : written + 1 + 0 ≡ written + 1 = omega arith in
    let y = write_byte b x in
    rw
      (
        deref_pipe-ok k p x ne at,
        chain,
        deref_pipe-stored k p y ne,
        chain,
        deref_pipe-stored (with_pipe p y k) p y ne,
        chain,
        some_written,
        quiet b x idle,
        chain,
        count,
      )
      (
        refl,
        record y { waiting_to_read = false },
        rw (eq→== p p refl),
        bytes_in-write_byte_full b x ring full,
      )
